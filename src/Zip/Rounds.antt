-- ===== src/Zip/Rounds.antt =====
-- internal/vfs/zip/vfs.go: the cache never refuses an archive, so that Root needs one round, and it
-- never hands out an archive that is known to be corrupted.
use gitlab_pages_mirror.Common.{
  ℕ, zero, suc, ◌+◌, ◌<◌, Text, Bool, true, false, Option, none, some, List, [], ◌∷◌, ◌++◌, ◌≡◌,
  refl, sym, ap, ◌∙◌, ◌⊎◌, inl, inr, subst, Result, ok, err, ltb, length, get_elem?, length-append,
  get_elem?-append_last, set, ◌≢◌, if-cases, arith,
}
use gitlab_pages_mirror.Ranges.Resources.{
  not_found, not_supported, invalid_range, seek_invalid_whence, seek_outside_range,
  invalid_content_range, request_failed, unexpected_status,
}
use gitlab_pages_mirror.Zip.Opening.{
  OpenError, range_error, bad_archive, context_ended, ZipArchive, new_archive, Status, opening,
  opened, open_failed, corrupted, open_status, open_archive,
}
use gitlab_pages_mirror.Zip.Vfs.{
  ArchiveCache, RootError, not_exist, open_error, pending, World, with_new, added, create_archive,
  use_found, found_at, on_item, find_or_create_archive, open_at, open_found, find_or_open_archive,
  root_round, root,
}

get_elem?_here {ℓ} :
    {A : Type ℓ} (xs : List A) (i : ℕ) → i < length xs → (x : A) × (get_elem? xs i ≡ some x)
get_elem?_here [] i h = absurd (omega arith)
get_elem?_here (x ∷ xs) zero h = (x, refl)
get_elem?_here (x ∷ xs) (suc i) h = get_elem?_here xs i (omega arith)

get_elem?_new {ℓ} :
    {A : Type ℓ} (xs : List A) (i : ℕ) (v x : A)
    → get_elem? (xs ++ v ∷ []) i ≡ some x
    → (get_elem? xs i ≡ some x) ⊎ ((i ≡ length xs) × (x ≡ v))
get_elem?_new [] zero v x h = inr (refl, cc)
get_elem?_new [] (suc i) v x h = cc
get_elem?_new (y ∷ xs) zero v x h = inl h
get_elem?_new (y ∷ xs) (suc i) v x h = elim (get_elem?_new xs i v x h) [
  | inl e ↦ inl e
  | inr (e, f) ↦ inr (ap suc e, f)
]

module _ (C : ArchiveCache) where
  open C use {
    State, get, set_default, delete, add, get-delete_self, get-delete_old, add_absent, get-add,
    get-set_default,
  }

  -- What is cached is an archive on the heap, and each archive has a cache namespace of its own.
  pub record IsWellFormed (w : World C) : Type 0 where
    pub held : (t : ℕ) (k : Text) (i : ℕ × ℕ) → get t w.cache k ≡ some i → i.0 < length w.heap
    pub numbered : (a : ℕ) (x : ZipArchive) → get_elem? w.heap a ≡ some x → x.number ≡ suc a

  abbrev pub is_corrupted : Status → Bool
  is_corrupted (corrupted e) = true
  is_corrupted _ = false

  -- An archive on the heap that is not known to be corrupted, in a world that is well formed.
  pub record IsUsable (w : World C) (a : ℕ) : Type 0 where
    pub archive : ZipArchive
    pub here : get_elem? w.heap a ≡ some archive
    pub whole : is_corrupted (open_status archive) ≡ false
    pub valid : IsWellFormed w

  abbrev pub Answers : World C × Result RootError ℕ → Type 0
  Answers (w, r) = (a : ℕ) × (r ≡ ok a) × IsUsable w a

  created :
      (w : World C) (key : Text)
      → (s : State) × (add w.now (delete w.cache key) key (length w.heap) ≡ some s)
        × (create_archive C w key ≡ (
          record w { cache = s; heap = w.heap ++ new_archive (suc (length w.heap)) ∷ [] },
          ok (length w.heap),
        ))
  unfolding create_archive
  created w key =
      let (s, e) =
        add_absent w.now (delete w.cache key) key (length w.heap)
          (get-delete_self w.now w.cache key) in
      (s, e, ap (λ o. with_new C w (added C (record w { cache = delete w.cache key }) o)) e)

  create-Answers : (w : World C) (key : Text) → IsWellFormed w → Answers (create_archive C w key)
  unfolding new_archive open_status
  create-Answers w key wf =
      let (s, e, c) = created w key in
      let fresh = new_archive (suc (length w.heap)) in
      let longer = length-append {0} w.heap (fresh ∷ []) in
      subst Answers (sym c) (
        length w.heap,
        refl,
        record {
          archive = fresh;
          here = get_elem?-append_last w.heap fresh;
          whole = refl;
          valid = record {
            held = λ t k i h.
                elim (get-add w.now t (delete w.cache key) s key k (length w.heap) i e h) [
                  | inl here ↦ omega (arith, longer, here)
                  | inr old ↦
                      let before = wf.held t k i (get-delete_old t w.cache key k i old) in
                      omega (arith, longer, before)
                ];
            numbered = λ a x h. elim (get_elem?_new w.heap a fresh x h) [
              | inl old ↦ wf.numbered a x old
              | inr (at, new) ↦ ap (λ (z : ZipArchive). z.number) new ∙ ap suc (sym at)
            ];
          };
        },
      )

  refreshed :
      (w : World C) (key : Text) (a : ℕ)
      → a < length w.heap
      → IsWellFormed w
      → IsWellFormed (record w { cache = set_default w.now w.cache key a })
  refreshed w key a inside wf = record {
    held = λ t k i h. elim (get-set_default w.now t w.cache key k a i h) [
      | inl here ↦ omega (arith, here, inside)
      | inr old ↦ wf.held t k i old
    ];
    numbered = wf.numbered;
  }

  use_found-Answers :
      (refresh : ℕ) (w : World C) (key : Text) (a expiry : ℕ) (x : ZipArchive) (st : Status)
      → get_elem? w.heap a ≡ some x
      → a < length w.heap
      → open_status x ≡ st
      → IsWellFormed w
      → Answers (use_found C refresh w key a expiry st)
  unfolding use_found
  use_found-Answers refresh w key a expiry x opening h k e wf =
      (a, refl, record { archive = x; here = h; whole = ap is_corrupted e; valid = wf })
  use_found-Answers refresh w key a expiry x (open_failed f) h k e wf =
      (a, refl, record { archive = x; here = h; whole = ap is_corrupted e; valid = wf })
  use_found-Answers refresh w key a expiry x opened h k e wf =
      if-cases Answers (ltb expiry (w.now + refresh))
        (record w { cache = set_default w.now w.cache key a }, ok a) (w, ok a)
        (λ _. (
          a,
          refl,
          record {
            archive = x;
            here = h;
            whole = ap is_corrupted e;
            valid = refreshed w key a k wf;
          },
        ))
        (λ _. (a, refl, record { archive = x; here = h; whole = ap is_corrupted e; valid = wf }))
  use_found-Answers refresh w key a expiry x (corrupted f) h k e wf = create-Answers w key wf

  on_item-Answers :
      (refresh : ℕ) (w : World C) (key : Text) (o : Option (ℕ × ℕ))
      → get w.now w.cache key ≡ o
      → IsWellFormed w
      → Answers (on_item C refresh w key o)
  unfolding on_item
  on_item-Answers refresh w key none e wf = create-Answers w key wf
  on_item-Answers refresh w key (some (a, expiry)) e wf =
      let inside = wf.held w.now key (a, expiry) e in
      let (x, here) = get_elem?_here w.heap a inside in
      rw (here, found_at)
        (use_found-Answers refresh w key a expiry x (open_status x) here inside refl wf)

  -- For every key the cache gives an archive of the heap whose status is not that of a corrupted
  -- one. Afterwards, too, all that is cached is on the heap, and every archive has a namespace
  -- number of its own.
  pub find_or_create_archive-IsUsable :
      (refresh : ℕ) (w : World C) (key : Text)
      → IsWellFormed w
      → (a : ℕ) × ((find_or_create_archive C refresh w key).1 ≡ ok a)
        × IsUsable (find_or_create_archive C refresh w key).0 a
  unfolding find_or_create_archive
  find_or_create_archive-IsUsable refresh w key wf =
      on_item-Answers refresh w key (get w.now w.cache key) refl wf

  -- What Root answers for the archive at an address, by what openArchive answers: it waits for the
  -- archive, hands it out, or gives the error of its opening.
  pub data IsReply (a : ℕ) : Option (Option OpenError) → Result RootError (ℕ × Bool) → Type 0 where
    waits : IsReply a none (ok (a, false))
    ready : IsReply a (some none) (ok (a, true))
    missing : IsReply a (some (some (range_error not_found))) (err not_exist)
    failed :
        (e : OpenError) → e ≢ range_error not_found → IsReply a (some (some e)) (err (open_error e))

  -- The answer is that for the archive that findOrCreateArchive has given, which is on the heap and
  -- not known to be corrupted, and its opening is what is left of the heap.
  pub record EndsWith (refresh : ℕ) (path : Text) (t : World C × Result RootError ℕ)
      (out : Option (World C × Result RootError (ℕ × Bool))) : Type 0 where
    pub address : ℕ
    pub reply : Result RootError (ℕ × Bool)
    pub found : t.1 ≡ ok address
    pub usable : IsUsable t.0 address
    pub replied : IsReply address (open_archive path usable.archive).1 reply
    pub ended :
        out
        ≡ some
            (record t.0 { heap = set t.0.heap address (open_archive path usable.archive).0 }, reply)

  one_round :
      (refresh : ℕ) (go : World C → Option (World C × Result RootError (ℕ × Bool))) (w : World C)
      (a : ℕ) (o : Option (Option OpenError))
      → (r : Result RootError (ℕ × Bool)) × IsReply a o r
        × (root_round C refresh go (w, pending C refresh a o) ≡ some (w, r))
  unfolding root_round
  one_round refresh go w a none = (ok (a, false), waits, refl)
  one_round refresh go w a (some none) = (ok (a, true), ready, refl)
  one_round refresh go w a (some (some (range_error not_found))) = (err not_exist, missing, refl)
  one_round refresh go w a (some (some (range_error not_supported))) = (
    err (open_error (range_error not_supported)),
    failed (range_error not_supported) (λ p. cc),
    refl,
  )
  one_round refresh go w a (some (some (range_error invalid_range))) = (
    err (open_error (range_error invalid_range)),
    failed (range_error invalid_range) (λ p. cc),
    refl,
  )
  one_round refresh go w a (some (some (range_error seek_invalid_whence))) = (
    err (open_error (range_error seek_invalid_whence)),
    failed (range_error seek_invalid_whence) (λ p. cc),
    refl,
  )
  one_round refresh go w a (some (some (range_error seek_outside_range))) = (
    err (open_error (range_error seek_outside_range)),
    failed (range_error seek_outside_range) (λ p. cc),
    refl,
  )
  one_round refresh go w a (some (some (range_error invalid_content_range))) = (
    err (open_error (range_error invalid_content_range)),
    failed (range_error invalid_content_range) (λ p. cc),
    refl,
  )
  one_round refresh go w a (some (some (range_error request_failed))) = (
    err (open_error (range_error request_failed)),
    failed (range_error request_failed) (λ p. cc),
    refl,
  )
  one_round refresh go w a (some (some (range_error (unexpected_status n)))) = (
    err (open_error (range_error (unexpected_status n))),
    failed (range_error (unexpected_status n)) (λ p. cc),
    refl,
  )
  one_round refresh go w a (some (some bad_archive)) =
      (err (open_error bad_archive), failed bad_archive (λ p. cc), refl)
  one_round refresh go w a (some (some context_ended)) =
      (err (open_error context_ended), failed context_ended (λ p. cc), refl)

  opened_found :
      (refresh : ℕ) (path : Text) (t : World C × Result RootError ℕ) (a : ℕ) (x : ZipArchive)
      → t.1 ≡ ok a
      → get_elem? t.0.heap a ≡ some x
      → open_found C refresh path t ≡ (
        record t.0 { heap = set t.0.heap a (open_archive path x).0 },
        pending C refresh a (open_archive path x).1,
      )
  unfolding open_found open_at
  opened_found refresh path (w, err e) a x h k = cc
  opened_found refresh path (w, ok b) a x h k =
      let same : b ≡ a = cc h in
      subst
        (λ c. open_at C refresh path w c (get_elem? w.heap c) ≡ (
          record w { heap = set w.heap a (open_archive path x).0 },
          pending C refresh a (open_archive path x).1,
        ))
        (sym same) (ap (λ o. open_at C refresh path w a o) k)

  -- Whatever the fuel from one round on, the loop of Root ends in its first round: with the archive
  -- of the cache, ready or to be waited for, or with the error of its opening, and then ErrNotExist
  -- for an archive that the server does not have.
  pub root_ends :
      (refresh fuel : ℕ) (key path : Text) (w : World C)
      → IsWellFormed w
      → EndsWith refresh path
          (find_or_create_archive C refresh w key)
          (root C refresh (suc fuel) key path w)
  unfolding root find_or_open_archive
  root_ends refresh fuel key path w wf =
      let (a, e, u) = find_or_create_archive-IsUsable refresh w key wf in
      let found = find_or_create_archive C refresh w key in
      let w' : World C = record found.0 {
        heap = set found.0.heap a (open_archive path u.archive).0;
      } in
      let (r, reply, ended) =
        one_round refresh (root C refresh fuel key path) w' a (open_archive path u.archive).1 in
      record {
        address = a;
        reply = r;
        found = e;
        usable = u;
        replied = reply;
        ended =
            ap (root_round C refresh (root C refresh fuel key path))
              (opened_found refresh path found a u.archive e u.here)
            ∙ ended;
      }
