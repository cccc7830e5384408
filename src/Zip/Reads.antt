-- ===== src/Zip/Reads.antt =====
-- internal/vfs/zip/lru_cache.go: a cached answer is the answer that fetching would give.
use gitlab_pages_mirror.Common.{
  ℕ, Text, text_eq, text_eq_iff, Bool, true, false, Bool-cases, Option, none, some, ◌≡◌, refl, sym,
  ap, ◌∙◌, inl, inr, ◌++◌,
}
use gitlab_pages_mirror.Zip.Lru.{LruCache, cache_namespace, find_or_fetch, look_up}
use gitlab_pages_mirror.Zip.Namespaces.{cache_key_injective}

module _ {V : Type 0} (C : LruCache V) (truth : ℕ → Text → Option V) where
  open C use {State, get, set, get-set_self, get-set_ne}

  -- What is cached for any archive is what that archive's fetch function gives.
  pub record IsSound (s : State) : Type 0 where
    pub cached :
        (t i : ℕ) (key : Text) (v : V) (e : Bool)
        → get t s (cache_namespace i ++ key) ≡ some (v, e)
        → truth i key ≡ some v

  set-IsSound :
      (now i : ℕ) (key : Text) (v : V) (s : State)
      → truth i key ≡ some v
      → IsSound s
      → IsSound (set now s (cache_namespace i ++ key) v)
  set-IsSound now i key v s h sound = record {
    cached = λ t j other w e found.
        elim (Bool-cases (text_eq (cache_namespace i ++ key) (cache_namespace j ++ other))) [
          | inl same ↦
              let at =
                (text_eq_iff (cache_namespace i ++ key) (cache_namespace j ++ other)).0 same in
              let (number, name) = cache_key_injective i j key other at in
              let value =
                get-set_self now t s (cache_namespace i ++ key) v w e
                  (ap (get t (set now s (cache_namespace i ++ key) v)) at ∙ found) in
              cc (number, name, value, h)
          | inr differs ↦ sound.cached t j other w e (
              get-set_ne now t s (cache_namespace i ++ key) (cache_namespace j ++ other) v (w, e)
                differs found)
        ];
  }

  -- What a lookup comes to.
  abbrev Finds : ℕ → Text → State × Option V → Type 0
  Finds i key (s, answer) = (answer ≡ truth i key) × IsSound s

  fetched :
      (now i : ℕ) (key : Text) (s : State) (f : Option V)
      → truth i key ≡ f
      → IsSound s
      → Finds i key (look_up C none now (cache_namespace i ++ key) f s)
  fetched now i key s none h sound = (sym h, sound)
  fetched now i key s (some v) h sound = (sym h, set-IsSound now i key v s h sound)

  looked_up :
      (now i : ℕ) (key : Text) (s : State) (o : Option (V × Bool))
      → ((v : V) (e : Bool) → o ≡ some (v, e) → truth i key ≡ some v)
      → IsSound s
      → Finds i key (look_up C o now (cache_namespace i ++ key) (truth i key) s)
  looked_up now i key s none h sound = fetched now i key s (truth i key) refl sound
  looked_up now i key s (some (v, true)) h sound = fetched now i key s (truth i key) refl sound
  looked_up now i key s (some (v, false)) h sound = (sym (h v false refl), sound)

  -- Whatever the cache has kept or dropped, findOrFetch of an archive answers what that archive's
  -- own fetch function gives, and the cache keeps no wrong answer for any archive.
  pub find_or_fetch-IsSound :
      (now i : ℕ) (key : Text) (s : State)
      → IsSound s
      → ((find_or_fetch C now (cache_namespace i) key (truth i key) s).1 ≡ truth i key)
        × IsSound (find_or_fetch C now (cache_namespace i) key (truth i key) s).0
  unfolding find_or_fetch
  find_or_fetch-IsSound now i key s sound =
      looked_up now i key s (get now s (cache_namespace i ++ key)) (sound.cached now i key) sound
