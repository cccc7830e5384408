-- ===== src/Common/Texts.antt =====
-- Go strings as lists of bytes, with the functions of package strings that the program calls.
use Prim.Native.Nat.{ℕ, zero, suc, ◌+◌, ◌-◌}
use Prim.Native.Char.{code}
use Prim.Native.String.{String}
use mathlib.Core.Path.{◌≡◌, refl}
use mathlib.Core.Logic.{◌↔◌}
use mathlib.Core.Bool.{Bool, true, false, ◌&&◌, ◌||◌}
use mathlib.Core.Option.{Option, none, some}
use mathlib.Core.List.{List, [], ◌∷◌, ◌++◌, map}
use native.Mathlib.Omega.{arith}
use gitlab_pages_mirror.Common.Tests.{leb, ◌==◌, if◌then◌else◌, if-cases}
use gitlab_pages_mirror.Common.Lists.{length, take, drop, All}

abbrev pub Text : Type 0
Text = List ℕ

-- The bytes of a literal that is ASCII.
abbrev pub codes : String → Text
codes String.[] = []
codes (String.◌∷◌ c s) = code c ∷ codes s

unfoldable pub text_eq : Text → Text → Bool
text_eq [] [] = true
text_eq (a ∷ s) (b ∷ t) = (a == b) && text_eq s t
text_eq _ _ = false

eq_of_text_eq : (s t : Text) → text_eq s t ≡ true → s ≡ t
unfolding text_eq
eq_of_text_eq [] [] h = refl
eq_of_text_eq (a ∷ s) (b ∷ t) h = ground (arith, eq_of_text_eq s t)
eq_of_text_eq [] (b ∷ t) h = ground arith
eq_of_text_eq (a ∷ s) [] h = ground arith

pub text_eq_refl : (s : Text) → text_eq s s ≡ true
unfolding text_eq
text_eq_refl [] = refl
text_eq_refl (a ∷ s) = ground (arith, text_eq_refl s)

pub text_eq_iff : (s t : Text) → (text_eq s t ≡ true) ↔ (s ≡ t)
text_eq_iff s t = (eq_of_text_eq s t, λ e. cc (e, text_eq_refl s))

pub text_eq_sym : (s t : Text) → text_eq s t ≡ text_eq t s
unfolding text_eq
text_eq_sym [] [] = refl
text_eq_sym (a ∷ s) (b ∷ t) = ground (arith, text_eq_sym s t)
text_eq_sym [] (b ∷ t) = refl
text_eq_sym (a ∷ s) [] = refl

-- strings.HasPrefix
unfoldable pub has_prefix : Text → Text → Bool
has_prefix s [] = true
has_prefix [] (b ∷ p) = false
has_prefix (a ∷ s) (b ∷ p) = (a == b) && has_prefix s p

-- strings.HasSuffix: len(s) >= len(suffix) && s[len(s)-len(suffix):] == suffix
unfoldable pub has_suffix : Text → Text → Bool
unfolding text_eq
has_suffix s p = leb (length p) (length s) && text_eq (drop (length s - length p) s) p

-- strings.TrimPrefix
unfoldable pub trim_prefix : Text → Text → Text
unfolding has_prefix
trim_prefix s p = if has_prefix s p then drop (length p) s else s

-- strings.TrimSuffix
unfoldable pub trim_suffix : Text → Text → Text
unfolding has_suffix
trim_suffix s p = if has_suffix s p then take (length s - length p) s else s

-- strings.Contains
unfoldable pub contains : Text → Text → Bool
unfolding has_prefix
contains [] p = has_prefix [] p
contains (a ∷ s) p = has_prefix (a ∷ s) p || contains s p

push : ℕ → Text × Option Text → Text × Option Text
push a (before, after) = (a ∷ before, after)

-- What stands before the first separator, and what stands behind it.
unfoldable pub cut : ℕ → Text → Text × Option Text
unfolding push
cut sep [] = ([], none)
cut sep (a ∷ s) = let rest = push a (cut sep s) in if a == sep then ([], some s) else rest

-- strings.SplitN(s, sep, n) for a separator of one byte, n at least 0.
unfoldable pub split_n : ℕ → ℕ → Text → List Text
unfolding cut
split_n sep zero s = []
split_n sep (suc zero) s = s ∷ []
split_n sep (suc (suc n)) s =
    let (before, after) = cut sep s in
    elim after [ none ↦ before ∷ [] | some rest ↦ before ∷ split_n sep (suc n) rest ]

push_head : ℕ → List Text → List Text
push_head a [] = (a ∷ []) ∷ []
push_head a (s ∷ rest) = (a ∷ s) ∷ rest

-- strings.Split(s, sep) for a separator of one byte.
unfoldable pub split : ℕ → Text → List Text
unfolding push_head
split sep [] = [] ∷ []
split sep (a ∷ s) = let rest = split sep s in if a == sep then [] ∷ rest else push_head a rest

-- strings.Join
unfoldable pub join : Text → List Text → Text
join sep [] = []
join sep (s ∷ []) = s
join sep (s ∷ t ∷ rest) = s ++ (sep ++ join sep (t ∷ rest))

unfoldable pub to_lower_byte : ℕ → ℕ
to_lower_byte c = if leb b'A' c && leb c b'Z' then c + 32 else c

-- strings.ToLower on ASCII text, which host names, group names and domain names are.
unfoldable pub to_lower : Text → Text
unfolding to_lower_byte
to_lower = map to_lower_byte

-- Without the byte.
abbrev pub IsWithout : ℕ → Text → Type 0
IsWithout sep s = All (λ c. (c == sep) ≡ false) s

push_head-All :
    (sep a : ℕ) (rest : List Text)
    → (a == sep) ≡ false
    → All (IsWithout sep) rest
    → All (IsWithout sep) (push_head a rest)
unfolding push_head
push_head-All sep a [] h k = ((h, tt), tt)
push_head-All sep a (s ∷ rest) h k = ((h, k.0), k.1)

-- The pieces of a split do not have the separator.
pub split-All : (sep : ℕ) (s : Text) → All (IsWithout sep) (split sep s)
unfolding split
split-All sep [] = (tt, tt)
split-All sep (a ∷ s) =
    if-cases (All (IsWithout sep)) (a == sep) _ _ (λ e. (tt, split-All sep s))
      λ e. push_head-All sep a (split sep s) e (split-All sep s)
