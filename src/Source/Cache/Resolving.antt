-- ===== src/Source/Cache/Resolving.antt =====
-- internal/source/gitlab/cache: the links from the cache to the entries, and the answers.
use gitlab_pages_mirror.Common.{
  ℕ, Text, text_eq, text_eq_iff, true, false, ◌≡◌, refl, sym, subst, ◌∙◌, some, none, [], ◌∷◌,
  length, get_elem?, set, get_elem?-append, get_elem?-append_last, get_elem?-set, arith, Bool-cases,
  Option-cases, inl, inr, ◌==◌,
}
use gitlab_pages_mirror.Source.Cache.Entry.{
  Entry, new_cache_entry, is_up_to_date, needs_refresh, start_retrieve, start_refresh,
}
use gitlab_pages_mirror.Source.Cache.Store.{
  ExpiringCache, Timeouts, Reply, hit, stale, waiting, World, create_section, load_or_create,
  replace_or_create, resolve_entry, resolve_at, resolve,
}
use gitlab_pages_mirror.Source.Cache.Sharing.{
  new_entry, with_entry, load_or_create_miss, load_or_create_hit,
}

module _ (C : ExpiringCache) (cfg : Timeouts) where
  open C use {State, expiry, get, set_default, delete}

  -- Whatever the cache still finds at a domain is the address of an entry for that domain.
  pub record IsLinked (w : World C) : Type 0 where
    pub at :
        (u : ℕ) (k : Text) (a : ℕ)
        → get u w.cache k ≡ some a
        → (e : Entry) × (get_elem? w.heap a ≡ some e) × (e.domain ≡ k)

  with_entry-IsLinked :
      (w : World C) (domain : Text) (e : Entry)
      → e.domain ≡ domain
      → IsLinked w
      → IsLinked (with_entry C cfg w domain e)
  with_entry-IsLinked w domain e same linked = record {
    at = λ u k a found. elim (Bool-cases (text_eq domain k)) [
      | inl eq ↦
          let key = (text_eq_iff domain k).0 eq in
          let new =
            C.get-set_default_new w.now u w.cache domain (length w.heap) a (rw (← key) at found) in
          (e, rw new (get_elem?-append_last w.heap e), same ∙ key)
      | inr ne ↦
          let old =
            sym (C.get-set_default_ne w.now u w.cache domain k (length w.heap) ne) ∙ found in
          let (e', there, d) = linked.at u k a old in
          (e', get_elem?-append w.heap (e ∷ []) a e' there, d)
    ];
  }

  -- A write at a place of the heap that keeps the domain of the entry there.
  write-IsLinked :
      (w : World C) (a : ℕ) (e e' : Entry)
      → get_elem? w.heap a ≡ some e
      → e'.domain ≡ e.domain
      → IsLinked w
      → IsLinked (record w { heap = set w.heap a e' })
  write-IsLinked w a e e' there same linked = record {
    at = λ u k b found.
        let (e₀, there₀, d) = linked.at u k b found in
        let now_there = get_elem?-set w.heap b a e₀ e' there₀ in
        elim (Bool-cases (b == a)) [
          | inl eq ↦ (e', rw eq at now_there, ground (arith, eq))
          | inr ne ↦ (e₀, rw ne at now_there, d)
        ];
  }

  -- The entry of the domain in a world: the one at the address that the cache has for the domain, or
  -- a new one behind the others when the cache has none.
  pub data IsEntryOf (w : World C) (domain : Text) : ℕ → Entry → Type 0 where
    cached :
        (a : ℕ) (e : Entry)
        → get w.now w.cache domain ≡ some a
        → get_elem? w.heap a ≡ some e
        → IsEntryOf w domain a e
    made :
        get w.now w.cache domain ≡ none
        → IsEntryOf w domain (length w.heap) (new_entry C cfg w domain)

  load_or_create-IsLinked :
      (w : World C) (domain : Text)
      → IsLinked w
      → IsLinked (load_or_create C cfg w domain).0
        × (e : Entry) × (get_elem?
              (load_or_create C cfg w domain).0.heap
              (load_or_create C cfg w domain).1
            ≡ some e)
        × (e.domain ≡ domain)
        × IsEntryOf w domain (load_or_create C cfg w domain).1 e
  load_or_create-IsLinked w domain linked = elim (Option-cases (get w.now w.cache domain)) [
    | inl miss ↦
        let e = new_entry C cfg w domain in
        rw (load_or_create_miss C cfg w domain miss) (
          with_entry-IsLinked w domain e new_domain linked,
          e,
          get_elem?-append_last w.heap e,
          new_domain,
          made miss,
        )
    | inr (a, found) ↦
        let (e, there, d) = linked.at w.now domain a found in
        rw (load_or_create_hit C cfg w domain a found) (linked, e, there, d, cached a e found there)
  ]
    where
      new_domain : (new_entry C cfg w domain).domain ≡ domain
      new_domain = unfold new_cache_entry in refl

  load_or_create_now : (w : World C) (domain : Text) → (load_or_create C cfg w domain).0.now ≡ w.now
  unfolding load_or_create create_section
  load_or_create_now w domain = ground arith

  replace_or_create-IsLinked :
      (w : World C) (domain : Text) (entry : Entry)
      → entry.domain ≡ domain
      → IsLinked w
      → IsLinked (replace_or_create C cfg w domain entry)
  unfolding replace_or_create
  replace_or_create-IsLinked w domain entry same linked =
      with_entry-IsLinked (record w { cache = delete w.cache domain }) domain entry same
        (record {
          at = λ u k a found.
              linked.at u k a (ground (arith, C.get-delete u w.cache domain k, found));
        })

  -- What Resolve may answer from the entry of the domain: the stored response while it is up to
  -- date, the stored response and a refresh when it is outdated, and a wait when there is none.
  pub data IsAnswer (now : ℕ) (a : ℕ) (e : Entry) : Reply → Type 0 where
    fresh : is_up_to_date now e ≡ true → IsAnswer now a e (hit e.response)
    outdated : needs_refresh now e ≡ true → IsAnswer now a e (stale e.response (start_refresh e).1)
    unresolved :
        is_up_to_date now e ≡ false → needs_refresh now e ≡ false → IsAnswer now a e (waiting a)

  resolve_entry-IsAnswer :
      (w : World C) (a : ℕ) (e : Entry)
      → get_elem? w.heap a ≡ some e
      → IsLinked w
      → IsLinked (resolve_entry C cfg w a (some e)).0
        × IsAnswer w.now a e (resolve_entry C cfg w a (some e)).1
  unfolding resolve_entry
  resolve_entry-IsAnswer w a e there linked = elim (Bool-cases (is_up_to_date w.now e)) [
    | inl up ↦ rw up (linked, fresh up)
    | inr old ↦ elim (Bool-cases (needs_refresh w.now e)) [
      | inl need ↦
          rw (old, need)
            (
              write-IsLinked w a e (start_refresh e).0 there (unfold start_refresh in ground arith)
                  linked,
              outdated need,
            )
      | inr none_yet ↦
          rw (old, none_yet)
            (
              write-IsLinked w a e (start_retrieve e) there (unfold start_retrieve in ground arith)
                  linked,
              unresolved old none_yet,
            )
    ]
  ]

  -- In a linked world Resolve keeps the links, and answers from the entry at the address that the
  -- cache has for the requested domain, or from a new one when it has none, by the state of that
  -- entry; and that is an entry made for the requested domain.
  pub resolve-IsLinked :
      (w : World C) (domain : Text)
      → IsLinked w
      → IsLinked (resolve C cfg w domain).0
        × (a : ℕ) × (e : Entry) × IsEntryOf w domain a e
        × (e.domain ≡ domain)
        × IsAnswer w.now a e (resolve C cfg w domain).1
  unfolding resolve resolve_at
  resolve-IsLinked w domain linked =
      let (linked', e, there, d, of) = load_or_create-IsLinked w domain linked in
      let r = load_or_create C cfg w domain in
      let (kept, answer) = resolve_entry-IsAnswer r.0 r.1 e there linked' in
      let answer' =
        subst (λ n. IsAnswer n r.1 e (resolve_entry C cfg r.0 r.1 (some e)).1)
          (load_or_create_now w domain) answer in
      rw there (kept, r.1, e, of, d, answer')
