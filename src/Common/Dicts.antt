-- ===== src/Common/Dicts.antt =====
-- Go maps with string keys, as association lists. The program's results depend on no order of
-- iteration, so a map is read through its lookups.
use mathlib.Core.Path.{◌≡◌, refl}
use mathlib.Core.Bool.{Bool}
use mathlib.Core.Option.{Option, none, some}
use mathlib.Core.List.{List, [], ◌∷◌}
use native.Mathlib.Omega.{arith}
use gitlab_pages_mirror.Common.Tests.{is_some, if◌then◌else◌}
use gitlab_pages_mirror.Common.Texts.{Text, text_eq, text_eq_iff}

abbrev pub Dict {ℓ} : Type ℓ → Type ℓ
Dict V = List (Text × V)

module _ {ℓ} {V : Type ℓ} where
  unfoldable pub dict_empty : Dict V
  dict_empty = []

  -- v, ok := m[k]
  unfoldable pub dict_get : Dict V → Text → Option V
  unfolding text_eq
  dict_get [] k = none
  dict_get ((j, v) ∷ m) k = if text_eq j k then some v else dict_get m k

  -- delete(m, k)
  unfoldable pub dict_remove : Dict V → Text → Dict V
  unfolding text_eq
  dict_remove [] k = []
  dict_remove ((j, v) ∷ m) k =
      let rest = dict_remove m k in if text_eq j k then rest else (j, v) ∷ rest

  -- m[k] = v
  unfoldable pub dict_put : Dict V → Text → V → Dict V
  unfolding dict_remove
  dict_put m k v = (k, v) ∷ dict_remove m k

  abbrev pub dict_has : Dict V → Text → Bool
  dict_has m k = is_some (dict_get m k)

  pub dict_get-empty : (k : Text) → dict_get dict_empty k ≡ none
  unfolding dict_get dict_empty
  dict_get-empty k = refl

  pub dict_get-remove :
      (m : Dict V) (k j : Text)
      → dict_get (dict_remove m k) j ≡ (if text_eq k j then none else dict_get m j)
  unfolding dict_get dict_remove
  dict_get-remove [] k j = ground arith
  dict_get-remove ((i, v) ∷ m) k j =
      ground (arith, dict_get-remove m k j, text_eq_iff i k, text_eq_iff i j, text_eq_iff k j)

  pub dict_get-put :
      (m : Dict V) (k j : Text) (v : V)
      → dict_get (dict_put m k v) j ≡ (if text_eq k j then some v else dict_get m j)
  unfolding dict_get dict_put
  dict_get-put m k j v = ground (arith, dict_get-remove m k j)

pub ruleset dict_laws = (dict_get-empty, dict_get-remove, dict_get-put)
