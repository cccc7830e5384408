-- ===== src/Common/Decimals.antt =====
-- Numbers as decimal text, what fmt's %d prints.
use Prim.Native.Nat.{ℕ, zero, suc, ◌+◌, ◌-◌, ◌*◌, ◌/◌, ◌%◌, ◌<◌}
use native.Mathlib.Omega.{arith}
use mathlib.Core.Path.{◌≡◌, refl, sym, ap, ◌∙◌}
use mathlib.Core.List.{[], ◌∷◌}
use gitlab_pages_mirror.Common.Tests.{ltb, if-cases, if◌then◌else◌}
use gitlab_pages_mirror.Common.Lists.{All}
use gitlab_pages_mirror.Common.Texts.{Text, codes}

-- Each round divides by ten, so n + 1 rounds are enough for n.
decimal_from : ℕ → ℕ → Text → Text
decimal_from zero n acc = acc
decimal_from (suc fuel) n acc =
    let more = decimal_from fuel (n / 10) ((b'0' + n % 10) ∷ acc) in
    if ltb n 10 then (b'0' + n) ∷ acc else more

unfoldable pub decimal : ℕ → Text
unfolding decimal_from
decimal n = decimal_from (suc n) n []

decimal_examples :
    (decimal 0 ≡ codes "0") × (decimal 10 ≡ codes "10") × (decimal 3207 ≡ codes "3207")
unfolding decimal
decimal_examples = (refl, refl, refl)

-- The number that a text of digits stands for, behind one that is read already.
value : ℕ → Text → ℕ
value acc [] = acc
value acc (c ∷ s) = value (acc * 10 + (c - b'0')) s

value-decimal_from :
    (fuel n : ℕ) (acc : Text) → n < fuel → value 0 (decimal_from fuel n acc) ≡ value n acc
unfolding decimal_from value
value-decimal_from zero n acc h = absurd (omega arith)
value-decimal_from (suc fuel) n acc h =
    if-cases (λ (t : Text). value 0 t ≡ value n acc) (ltb n 10) ((b'0' + n) ∷ acc)
      (decimal_from fuel (n / 10) ((b'0' + n % 10) ∷ acc))
      (λ e. ap (λ k. value k acc) {y = n} (omega arith))
      (λ e.
        value-decimal_from fuel (n / 10) ((b'0' + n % 10) ∷ acc) (ground arith)
        ∙ ap (λ k. value k acc) {y = n} (omega arith))

-- Different numbers are different texts.
pub decimal_injective : (m n : ℕ) → decimal m ≡ decimal n → m ≡ n
unfolding decimal value
decimal_injective m n e =
    sym (value-decimal_from (suc m) m [] (omega arith))
    ∙ ap (value 0) e
    ∙ value-decimal_from (suc n) n [] (omega arith)

digits_from :
    (fuel n : ℕ) (acc : Text)
    → All (λ c. c < b':') acc
    → All (λ c. c < b':') (decimal_from fuel n acc)
unfolding decimal_from
digits_from zero n acc h = h
digits_from (suc fuel) n acc h =
    if-cases (λ (t : Text). All (λ c. c < b':') t) (ltb n 10) ((b'0' + n) ∷ acc)
      (decimal_from fuel (n / 10) ((b'0' + n % 10) ∷ acc)) (λ e. (ground arith, h))
      (λ e. digits_from fuel (n / 10) ((b'0' + n % 10) ∷ acc) (omega arith, h))

pub decimal-All_digits : (n : ℕ) → All (λ c. c < b':') (decimal n)
unfolding decimal
decimal-All_digits n = digits_from (suc n) n [] tt
