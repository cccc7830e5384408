-- ===== src/Zip/Lru.antt =====
-- internal/vfs/zip/lru_cache.go. The package ccache is a parameter: an item is found under the key
-- under which it was set last, or not at all, since items are pruned at any time.
use gitlab_pages_mirror.Common.{
  ℕ, Text, text_eq, decimal, codes, Bool, true, false, Option, none, some, ◌++◌, ◌≡◌,
}

pub record LruCache (V : Type 0) : Type 1 where
  pub State : Type 0
  -- Get and Expired of the item, at a time.
  pub get : ℕ → State → Text → Option (V × Bool)
  pub set : ℕ → State → Text → V → State
  pub get-set_self :
      (t u : ℕ) (s : State) (k : Text) (v w : V) (e : Bool)
      → get u (set t s k v) k ≡ some (w, e)
      → w ≡ v
  pub get-set_ne :
      (t u : ℕ) (s : State) (k j : Text) (v : V) (i : V × Bool)
      → text_eq k j ≡ false
      → get u (set t s k v) j ≡ some i
      → get u s j ≡ some i

-- The namespace of the archive with this number.
unfoldable pub cache_namespace : ℕ → Text
unfolding decimal
cache_namespace n = decimal n ++ codes ":"

module _ {V : Type 0} (C : LruCache V) where
  open C use {State, get, set}

  -- findOrFetch: `fetched` is what the fetch function returns when it is called.
  abbrev fetch : ℕ → Text → Option V → State → State × Option V
  fetch now key none s = (s, none)
  fetch now key (some v) s = (set now s key v, some v)

  abbrev pub look_up : Option (V × Bool) → ℕ → Text → Option V → State → State × Option V
  look_up (some (v, false)) now key fetched s = (s, some v)
  look_up (some (v, true)) now key fetched s = fetch now key fetched s
  look_up none now key fetched s = fetch now key fetched s

  unfoldable pub find_or_fetch : ℕ → Text → Text → Option V → State → State × Option V
  find_or_fetch now namespace key fetched s =
      look_up (get now s (namespace ++ key)) now (namespace ++ key) fetched s
