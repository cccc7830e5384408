-- ===== src/Source/Cache/Sharing.antt =====
-- internal/source/gitlab/cache: requests for a domain that is not cached yet.
use gitlab_pages_mirror.Common.{
  ℕ, ◌+◌, ◌≤◌, Text, true, ◌≡◌, refl, ap, ◌∙◌, none, some, [], ◌∷◌, ◌++◌, length, get_elem?,
  get_elem?-append_last, set-append_last, set_same, arith,
}
use gitlab_pages_mirror.Source.Cache.Entry.{Entry, new_cache_entry, start_retrieve}
use gitlab_pages_mirror.Source.Cache.Store.{
  ExpiringCache, Timeouts, waiting, World, create_section, load_or_create, resolve_at, resolve,
}

module _ (C : ExpiringCache) (cfg : Timeouts) where
  open C use {State, expiry, get, set_default, delete}

  abbrev pub new_entry : World C → Text → Entry
  new_entry w domain = new_cache_entry w.now domain cfg.refresh cfg.expiration

  -- The world with an entry for a new domain at the end of the heap.
  abbrev pub with_entry : World C → Text → Entry → World C
  with_entry w domain e = record w {
    cache = set_default w.now w.cache domain (length w.heap);
    heap = w.heap ++ e ∷ [];
  }

  create_section_miss :
      (w : World C) (domain : Text)
      → get w.now w.cache domain ≡ none
      → create_section C cfg w domain ≡ (with_entry w domain (new_entry w domain), length w.heap)
  unfolding create_section
  create_section_miss w domain miss = rw (miss, create_section)

  create_section_hit :
      (w : World C) (domain : Text) (a : ℕ)
      → get w.now w.cache domain ≡ some a
      → create_section C cfg w domain ≡ (w, a)
  unfolding create_section
  create_section_hit w domain a found = rw (found, create_section)

  -- The locked section of LoadOrCreate run once more, by a request that had missed in the cache
  -- too, gives the same entry and changes nothing, as long as the item has not expired.
  pub create_section_again :
      (w : World C) (domain : Text) (later : ℕ)
      → w.now ≤ later
      → later ≤ w.now + expiry
      → get w.now w.cache domain ≡ none
      → create_section C cfg (record (create_section C cfg w domain).0 { now = later }) domain ≡ (
        record (create_section C cfg w domain).0 { now = later },
        (create_section C cfg w domain).1,
      )
  create_section_again w domain later p q miss = rw (create_section_miss w domain miss) (
      create_section_hit (record (with_entry w domain (new_entry w domain)) { now = later }) domain
        (length w.heap) (C.get-set_default_self w.now later w.cache domain (length w.heap) p q))

  pub load_or_create_miss :
      (w : World C) (domain : Text)
      → get w.now w.cache domain ≡ none
      → load_or_create C cfg w domain ≡ (with_entry w domain (new_entry w domain), length w.heap)
  unfolding load_or_create
  load_or_create_miss w domain miss = rw (miss, load_or_create) (create_section_miss w domain miss)

  pub load_or_create_hit :
      (w : World C) (domain : Text) (a : ℕ)
      → get w.now w.cache domain ≡ some a
      → load_or_create C cfg w domain ≡ (w, a)
  unfolding load_or_create
  load_or_create_hit w domain a found = rw (found, load_or_create)

  resolve_at_new :
      (w : World C) (domain : Text)
      → resolve_at C cfg (with_entry w domain (new_entry w domain), length w.heap)
        ≡ (with_entry w domain (start_retrieve (new_entry w domain)), waiting (length w.heap))
  unfolding resolve_at new_cache_entry
  resolve_at_new w domain =
      rw (get_elem?-append_last w.heap (new_entry w domain), resolve_at) (rw set-append_last)

  resolve_new :
      (w : World C) (domain : Text)
      → get w.now w.cache domain ≡ none
      → resolve C cfg w domain
        ≡ (with_entry w domain (start_retrieve (new_entry w domain)), waiting (length w.heap))
  unfolding resolve resolve_at
  resolve_new w domain miss =
      ap (resolve_at C cfg) (load_or_create_miss w domain miss) ∙ resolve_at_new w domain

  resolve_started :
      (w : World C) (domain : Text) (a : ℕ) (e : Entry)
      → get w.now w.cache domain ≡ some a
      → get_elem? w.heap a ≡ some e
      → e.response ≡ none
      → e.retrieve_once ≡ true
      → resolve C cfg w domain ≡ (w, waiting a)
  unfolding resolve
  resolve_started w domain a e found at r o = ground (arith, set_same w.heap a e at)

  -- A first request for a domain waits for a retrieval, and a second one that comes before the
  -- item has expired, and before the answer, waits on the same entry without starting another.
  pub resolve_twice :
      (w : World C) (domain : Text) (later : ℕ)
      → w.now ≤ later
      → later ≤ w.now + expiry
      → get w.now w.cache domain ≡ none
      → ((resolve C cfg w domain).1 ≡ waiting (length w.heap))
        × (resolve C cfg (record (resolve C cfg w domain).0 { now = later }) domain
            ≡ (record (resolve C cfg w domain).0 { now = later }, waiting (length w.heap)))
  unfolding start_retrieve new_cache_entry
  resolve_twice w domain later p q miss = rw (resolve_new w domain miss) (
    refl,
    resolve_started
        (record (with_entry w domain (start_retrieve (new_entry w domain))) { now = later }) domain
        (length w.heap) (start_retrieve (new_entry w domain))
        (C.get-set_default_self w.now later w.cache domain (length w.heap) p q)
        (get_elem?-append_last w.heap (start_retrieve (new_entry w domain))) refl refl,
  )
