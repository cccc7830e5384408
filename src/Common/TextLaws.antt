-- ===== src/Common/TextLaws.antt =====
-- What the text functions do to a text that is put together from its parts.
use Prim.Native.Nat.{◌-◌}
use mathlib.Core.Path.{◌≡◌, refl, sym}
use mathlib.Core.Bool.{true, false}
use mathlib.Core.List.{[], ◌∷◌, ◌++◌}
use native.Mathlib.Omega.{arith}
use gitlab_pages_mirror.Common.Lists.{length, drop, length-append, drop-append, take-append}
use gitlab_pages_mirror.Common.Texts.{
  Text, text_eq_refl, has_prefix, has_suffix, trim_prefix, trim_suffix,
}

pub has_prefix-append : (p s : Text) → has_prefix (p ++ s) p ≡ true
unfolding has_prefix
has_prefix-append [] s = refl
has_prefix-append (a ∷ p) s = ground (arith, has_prefix-append p s)

pub has_prefix_split : (s p : Text) → has_prefix s p ≡ true → s ≡ p ++ drop (length p) s
unfolding has_prefix
has_prefix_split s [] h = refl
has_prefix_split [] (b ∷ p) h = ground arith
has_prefix_split (a ∷ s) (b ∷ p) h = ground (arith, has_prefix_split s p)

pub trim_prefix-append : (p s : Text) → trim_prefix (p ++ s) p ≡ s
unfolding trim_prefix
trim_prefix-append p s = rw (has_prefix-append p s) (drop-append p s)

-- A prefix that is there is what the trimmed text lacks.
pub append-trim_prefix : (s p : Text) → has_prefix s p ≡ true → p ++ trim_prefix s p ≡ s
unfolding trim_prefix
append-trim_prefix s p h = rw h (sym (has_prefix_split s p h))

pub trim_prefix_absent : (s p : Text) → has_prefix s p ≡ false → trim_prefix s p ≡ s
unfolding trim_prefix
trim_prefix_absent s p h = rw h

pub has_suffix-append : (s p : Text) → has_suffix (s ++ p) p ≡ true
unfolding has_suffix
has_suffix-append s p =
    let e : length (s ++ p) - length p ≡ length s = omega (arith, length-append {0} s p) in
    rw (e, drop-append s p) (ground (arith, text_eq_refl p, length-append s p))

pub trim_suffix-append : (s p : Text) → trim_suffix (s ++ p) p ≡ s
unfolding trim_suffix
trim_suffix-append s p =
    let e : length (s ++ p) - length p ≡ length s = omega (arith, length-append {0} s p) in
    rw (has_suffix-append s p, e) (take-append s p)
