-- ===== src/Zip/Lifetime.antt =====
-- internal/vfs/zip/vfs.go: the file system of archives from its creation on, through Reconfigure.
use gitlab_pages_mirror.Common.{
  ℕ, ◌≤◌, ◌<◌, Text, Option, none, some, List, [], ◌∷◌, ◌++◌, ◌≡◌, refl, sym, ap, ◌∙◌, subst,
  Result, ok, err, length-set, get_elem?, set, if-cases, inl, inr, ◌⊎◌, zero, suc, true, false,
  Bool, is_some,
}
use gitlab_pages_mirror.Common.Int.{ℤ}
use gitlab_pages_mirror.Ranges.Resources.{HttpClient, Resource, RangeError, set_url}
use gitlab_pages_mirror.Zip.Entries.{ZipLibrary, Header}
use gitlab_pages_mirror.Zip.Opening.{
  ZipArchive, OpenError, Step, Status, opening, opened, open_failed, corrupted, start, on_resource,
  open_archive, read_tables, read_resource, read_archive, request, finish, break,
}
use gitlab_pages_mirror.Zip.Vfs.{
  ArchiveCache, World, RootError, find_or_create_archive, find_or_open_archive, open_found, open_at,
}
use gitlab_pages_mirror.Zip.Rounds.{IsWellFormed, IsUsable, find_or_create_archive-IsUsable}
use gitlab_pages_mirror.Zip.Reconfigure.{
  ZipServing, ZipVfs, new_zip_vfs, reconfigure_transport, reset_on, reconfigure,
}

start-number : (s : Status) (url : Text) (a : ZipArchive) → (start s url a).number ≡ a.number
start-number opening url a =
    if-cases (λ (b : ZipArchive). b.number ≡ a.number) a.started _ _ (λ h. refl) λ h. refl
start-number opened url a = refl
start-number (open_failed e) url a = refl
start-number (corrupted e) url a = refl

open_archive-number : (url : Text) (a : ZipArchive) → (open_archive url a).0.number ≡ a.number
unfolding open_archive
open_archive-number url a =
    start-number _ url (record a { resource = on_resource (set_url url) a.resource })

-- What a place holds after a write.
get_elem?-set_cases {ℓ} :
    {A : Type ℓ} (xs : List A) (i j : ℕ) (y z : A)
    → get_elem? (set xs i y) j ≡ some z
    → (get_elem? xs j ≡ some z) ⊎ ((i ≡ j) × (z ≡ y))
get_elem?-set_cases [] i j y z h = cc
get_elem?-set_cases (x ∷ xs) zero zero y z h = inr (refl, cc)
get_elem?-set_cases (x ∷ xs) zero (suc j) y z h = inl h
get_elem?-set_cases (x ∷ xs) (suc i) zero y z h = inl h
get_elem?-set_cases (x ∷ xs) (suc i) (suc j) y z h = elim (get_elem?-set_cases xs i j y z h) [
  | inl e ↦ inl e
  | inr (e, f) ↦ inr (ap suc e, f)
]

nothing_held {ℓ} : {A : Type ℓ} {x : A} → none ≡ some x → ⊥
nothing_held h = cc

some_injective {ℓ} : {A : Type ℓ} {x y : A} → some x ≡ some y → x ≡ y
some_injective h = cc

module _ (C : ArchiveCache) where
  set-IsWellFormed :
      (w : World C) (i : ℕ) (a b : ZipArchive)
      → get_elem? w.heap i ≡ some a
      → b.number ≡ a.number
      → IsWellFormed C w
      → IsWellFormed C (record w { heap = set w.heap i b })
  set-IsWellFormed w i a b h e wf = record {
    held = λ t k item g. subst (λ n. item.0 < n) (sym (length-set w.heap i b)) (wf.held t k item g);
    numbered = λ j x g. elim (get_elem?-set_cases w.heap i j b x g) [
      | inl old ↦ wf.numbered j x old
      | inr (at, new) ↦ ap (λ (z : ZipArchive). z.number) new ∙ e ∙ wf.numbered i a h ∙ ap suc at
    ];
  }

  open_at-IsWellFormed :
      (refresh : ℕ) (path : Text) (w : World C) (a : ℕ) (o : Option ZipArchive)
      → get_elem? w.heap a ≡ o
      → IsWellFormed C w
      → IsWellFormed C (open_at C refresh path w a o).0
  unfolding open_at
  open_at-IsWellFormed refresh path w a none h wf = wf
  open_at-IsWellFormed refresh path w a (some x) h wf =
      set-IsWellFormed w a x (open_archive path x).0 h (open_archive-number path x) wf

  open_found-IsWellFormed :
      (refresh : ℕ) (path : Text) (x : World C × Result RootError ℕ)
      → IsWellFormed C x.0
      → IsWellFormed C (open_found C refresh path x).0
  unfolding open_found
  open_found-IsWellFormed refresh path (w, err e) wf = wf
  open_found-IsWellFormed refresh path (w, ok a) wf =
      open_at-IsWellFormed refresh path w a (get_elem? w.heap a) refl wf

  -- A new cache holds nothing.
  reset-IsWellFormed :
      (w : World C) (e c : ℕ)
      → IsWellFormed C w
      → IsWellFormed C (record w { cache = C.new_cache e c })
  reset-IsWellFormed w e c wf = record {
    held = λ t k item g. absurd (nothing_held (sym (C.get-new_cache t e c k) ∙ g));
    numbered = wf.numbered;
  }

  -- What the transport leaves for Reconfigure.
  data Starts : Option (ZipVfs C × Bool) → Type 0 where
    no_start : Starts none
    starts : (v : ZipVfs C) (b : Bool) → IsWellFormed C v.world → Starts (some (v, b))

  reset_on-IsWellFormed :
      (o : Option (ZipVfs C × Bool)) (v' : ZipVfs C) (done : Bool)
      → Starts o
      → reset_on C o ≡ some (v', done)
      → IsWellFormed C v'.world
  reset_on-IsWellFormed _ v' done no_start h = cc
  reset_on-IsWellFormed _ v' done (starts v true wf) h =
      subst (λ (u : ZipVfs C × Bool). IsWellFormed C u.0.world) (some_injective h)
        (reset-IsWellFormed v.world _ _ wf)
  reset_on-IsWellFormed _ v' done (starts v false wf) h =
      subst (λ (u : ZipVfs C × Bool). IsWellFormed C u.0.world) (some_injective h) wf

  transport-Starts :
      (paths : Option (List Text)) (v : ZipVfs C)
      → IsWellFormed C v.world
      → Starts (reconfigure_transport C paths v)
  unfolding reconfigure_transport
  transport-Starts none v wf = starts v false wf
  transport-Starts (some paths) v wf =
      if-cases Starts (is_some v.file_paths) _ _ (λ h. no_start)
        λ h. starts (record v { file_paths = some paths }) true wf

module _ (C : ArchiveCache) (lib : ZipLibrary) (parse_int : Text → Option ℤ) (client : HttpClient)
    (list : Resource → Resource × Result OpenError (List Header)) where
  read_tables-number :
      (x : Resource × Result OpenError (List Header)) (a : ZipArchive)
      → (read_tables lib parse_int client list x a).number ≡ a.number
  unfolding read_tables
  read_tables-number (r, err e) a = refl
  read_tables-number (r, ok entries) a = refl

  read_resource-number :
      (x : Result RangeError Resource) (a : ZipArchive)
      → (read_resource lib parse_int client list x a).number ≡ a.number
  unfolding read_resource
  read_resource-number (err e) a = refl
  read_resource-number (ok r) a = read_tables-number (list r) a

  Step-number : {a b : ZipArchive} → Step lib parse_int client list a b → b.number ≡ a.number
  unfolding read_archive
  Step-number (request url a) = open_archive-number url a
  Step-number (finish url before after a h) =
      read_resource-number _ (record a { reading = before ++ after })
  Step-number (break e r a h k) = refl

  -- What happens to a file system: a request for an archive, a step of an archive, Reconfigure, and
  -- the time.
  pub data Reach : ZipVfs C → Type 0 where
    created : (now : ℕ) (cfg : ZipServing) → Reach (new_zip_vfs C now cfg)
    asked :
        (key path : Text) {v : ZipVfs C}
        → Reach v
        → Reach (record v {
          world = (find_or_open_archive C v.settings.refresh_interval key path v.world).0;
        })
    worked :
        (i : ℕ) (a b : ZipArchive) {v : ZipVfs C}
        → Reach v
        → get_elem? v.world.heap i ≡ some a
        → Step lib parse_int client list a b
        → Reach (record v { world = record v.world { heap = set v.world.heap i b } })
    reconfigured :
        (cfg : ZipServing) (paths : Option (List Text)) (done : Bool) {v v' : ZipVfs C}
        → Reach v
        → reconfigure C cfg paths v ≡ some (v', done)
        → Reach v'
    waited :
        (now : ℕ) {v : ZipVfs C}
        → Reach v
        → v.world.now ≤ now
        → Reach (record v { world = record v.world { now = now } })

  Reach-IsWellFormed : {v : ZipVfs C} → Reach v → IsWellFormed C v.world
  unfolding new_zip_vfs find_or_open_archive reconfigure
  Reach-IsWellFormed (created now cfg) = record {
    held = λ t k item g. absurd (nothing_held (sym (C.get-new_cache t _ _ k) ∙ g));
    numbered = λ a x h. cc;
  }
  Reach-IsWellFormed (asked key path {v = v} r) =
      let (a, e, u) =
        find_or_create_archive-IsUsable C v.settings.refresh_interval v.world key
          (Reach-IsWellFormed r) in
      open_found-IsWellFormed C v.settings.refresh_interval path
        (find_or_create_archive C v.settings.refresh_interval v.world key) u.valid
  Reach-IsWellFormed (worked i a b {v = v} r h s) =
      set-IsWellFormed C v.world i a b h (Step-number s) (Reach-IsWellFormed r)
  Reach-IsWellFormed (reconfigured cfg paths done {v = v} {v' = v'} r h) =
      reset_on-IsWellFormed C (reconfigure_transport C paths (record v { settings = cfg })) v' done
        (transport-Starts C paths (record v { settings = cfg }) (Reach-IsWellFormed r)) h
  Reach-IsWellFormed (waited now {v = v} r h) =
      let wf = Reach-IsWellFormed r in record { held = wf.held; numbered = wf.numbered }

  -- Whatever happened to the file system, its configuration being changed included, it gives for
  -- every address an archive that is not known to be corrupted, and every archive keeps a namespace
  -- of its own in the caches that outlive the cache of archives.
  pub Reach-IsUsable :
      (v : ZipVfs C) (key : Text)
      → Reach v
      → (a : ℕ) × ((find_or_create_archive C v.settings.refresh_interval v.world key).1 ≡ ok a)
        × IsUsable C (find_or_create_archive C v.settings.refresh_interval v.world key).0 a
  Reach-IsUsable v key r =
      find_or_create_archive-IsUsable C v.settings.refresh_interval v.world key
        (Reach-IsWellFormed r)
