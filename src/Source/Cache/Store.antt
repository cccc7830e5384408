-- ===== src/Source/Cache/Store.antt =====
-- internal/source/gitlab/cache/memstore.go and cache.go. The package go-cache is not part of the
-- repository: it is a parameter, with what its documentation says of an item's lifetime. Entries
-- are shared by pointer, so the cache holds addresses into a heap of entries.
use mathlib.Core.Option
use gitlab_pages_mirror.Common.{
  ℕ, ◌+◌, ◌≤◌, Text, text_eq, Bool, false, ◌≡◌, Option, none, some, List, [], ◌∷◌, ◌++◌, length,
  get_elem?, set, if◌then◌else◌,
}
use gitlab_pages_mirror.Source.Api.{Lookup}
use gitlab_pages_mirror.Source.Cache.Entry.{
  Entry, new_cache_entry, is_up_to_date, needs_refresh, start_retrieve, start_refresh, set_response,
  refresh_func,
}

-- cache.Cache of go-cache with a default expiration: `get` at a time, `set_default` at a time.
pub record ExpiringCache : Type 1 where
  pub State : Type 0
  pub expiry : ℕ
  pub get : ℕ → State → Text → Option ℕ
  pub set_default : ℕ → State → Text → ℕ → State
  pub delete : State → Text → State
  pub get-set_default_self :
      (t u : ℕ) (s : State) (k : Text) (v : ℕ)
      → t ≤ u
      → u ≤ t + expiry
      → get u (set_default t s k v) k ≡ some v
  pub get-set_default_new :
      (t u : ℕ) (s : State) (k : Text) (v w : ℕ) → get u (set_default t s k v) k ≡ some w → w ≡ v
  pub get-set_default_ne :
      (t u : ℕ) (s : State) (k j : Text) (v : ℕ)
      → text_eq k j ≡ false
      → get u (set_default t s k v) j ≡ get u s j
  pub get-delete :
      (u : ℕ) (s : State) (k j : Text)
      → get u (delete s k) j ≡ (if text_eq k j then none else get u s j)

-- The timeouts of the memstore, from the configuration.
pub record Timeouts : Type 0 where
  pub refresh : ℕ
  pub expiration : ℕ

-- What Resolve answers at once, or the entry on which the request waits.
pub data Reply : Type 0 where
  hit : Option Lookup → Reply
  stale : Option Lookup → Bool → Reply
  waiting : ℕ → Reply
  dangling : Reply

module _ (C : ExpiringCache) where
  open C use {State, get, set_default, delete}

  -- The store and the heap of the entries; the time is that of the current step.
  pub record World : Type 0 where
    pub cache : State
    pub heap : List Entry
    pub now : ℕ

  module _ (cfg : Timeouts) where
    -- The critical section of LoadOrCreate behind the write lock.
    unfoldable pub create_section : World → Text → World × ℕ
    unfolding new_cache_entry
    create_section w domain = elim (get w.now w.cache domain) [
      | some a ↦ (w, a)
      | none ↦ (
        record w {
          cache = set_default w.now w.cache domain (length w.heap);
          heap = w.heap ++ new_cache_entry w.now domain cfg.refresh cfg.expiration ∷ [];
        },
        length w.heap,
      )
    ]

    -- LoadOrCreate, with no other goroutine between its two sections.
    unfoldable pub load_or_create : World → Text → World × ℕ
    unfolding create_section
    load_or_create w domain = elim (get w.now w.cache domain) [
      | some a ↦ (w, a)
      | none ↦ create_section w domain
    ]

    -- ReplaceOrCreate: the entry is put at a new address, which takes the place of the old one.
    unfoldable pub replace_or_create : World → Text → Entry → World
    replace_or_create w domain entry = record w {
      cache = set_default w.now (delete w.cache domain) domain (length w.heap);
      heap = w.heap ++ entry ∷ [];
    }

    -- Resolve on the entry that the store gave.
    unfoldable pub resolve_entry : World → ℕ → Option Entry → World × Reply
    unfolding is_up_to_date needs_refresh start_refresh start_retrieve
    resolve_entry w a none = (w, dangling)
    resolve_entry w a (some e) =
        if is_up_to_date w.now e
        then (w, hit e.response)
        else if needs_refresh w.now e
        then (
          record w { heap = set w.heap a (start_refresh e).0 },
          stale e.response (start_refresh e).1,
        )
        else (record w { heap = set w.heap a (start_retrieve e) }, waiting a)

    unfoldable pub resolve_at : World × ℕ → World × Reply
    unfolding resolve_entry
    resolve_at (w, a) = resolve_entry w a (get_elem? w.heap a)

    -- Cache.Resolve.
    unfoldable pub resolve : World → Text → World × Reply
    unfolding load_or_create resolve_at
    resolve w domain = resolve_at (load_or_create w domain)

    -- The goroutine of a retrieval sets the response; none stands for a panic.
    unfoldable pub finish_retrieve : World → ℕ → Lookup → Option World
    unfolding set_response
    finish_retrieve w a l = elim (get_elem? w.heap a) [
      | none ↦ none
      | some e ↦ Option.map (λ e'. record w { heap = set w.heap a e' }) (set_response e l)
    ]

    -- The goroutine of a refresh, started earlier, stores its entry.
    unfoldable pub finish_refresh : Bool → ℕ → World → ℕ → Lookup → Option World
    unfolding refresh_func replace_or_create
    finish_refresh disabled started w a l = elim (get_elem? w.heap a) [
      | none ↦ none
      | some e ↦ Option.map (replace_or_create w e.domain) (refresh_func disabled started w.now l e)
    ]
