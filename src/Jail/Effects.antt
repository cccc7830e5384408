-- ===== src/Jail/Effects.antt =====
-- Steps that change a state and can fail, one after another up to the first failure.
use gitlab_pages_mirror.Common.{◌≡◌, refl, sym, ap, subst, Option, none, some, List, [], ◌∷◌, All}

module _ {ℓ κ} {E : Type ℓ} {W : Type κ} where
  abbrev pub and_then : Option E × W → (W → Option E × W) → Option E × W
  and_then (some e, w) f = (some e, w)
  and_then (none, w) f = f w

  -- The state behind a step, with or without an error.
  pub record Leaves {μ} (P : W → Type μ) (x : Option E × W) : Type μ where
    pub state : P x.1

  pub and_then-Leaves {μ} :
      {P : W → Type μ} (x : Option E × W) (f : W → Option E × W)
      → Leaves P x
      → ((w : W) → P w → Leaves P (f w))
      → Leaves P (and_then x f)
  and_then-Leaves (some e, w) f p h = p
  and_then-Leaves (none, w) f p h = h w p.state

  -- Two steps without an error each had none.
  pub and_then_done :
      (x : Option E × W) (f : W → Option E × W)
      → (and_then x f).0 ≡ none
      → (x.0 ≡ none) × ((f x.1).0 ≡ none) × ((and_then x f).1 ≡ (f x.1).1)
  and_then_done (some e, w) f h = cc
  and_then_done (none, w) f h = (refl, h, refl)

  pub and_then-none : (x : Option E × W) (f : W → Option E × W) → x.0 ≡ none → and_then x f ≡ f x.1
  and_then-none (some e, w) f h = cc
  and_then-none (none, w) f h = refl

  pub and_then-some :
      (x : Option E × W) (f : W → Option E × W) (e : E)
      → x.0 ≡ some e
      → and_then x f ≡ (some e, x.1)
  and_then-some (some d, w) f e h = ap (λ o. (o, w)) h
  and_then-some (none, w) f e h = cc

module _ {ℓ κ μ} {E : Type ℓ} {W : Type κ} {A : Type μ} where
  abbrev pub each : (A → W → Option E × W) → List A → W → Option E × W
  each f [] w = (none, w)
  each f (x ∷ xs) w = and_then (f x w) (each f xs)

  pub each-Leaves {ν} :
      {P : W → Type ν} (f : A → W → Option E × W) (xs : List A) (w : W)
      → P w
      → ((x : A) (v : W) → P v → Leaves P (f x v))
      → Leaves P (each f xs w)
  each-Leaves f [] w p h = record { state = p }
  each-Leaves f (x ∷ xs) w p h =
      and_then-Leaves (f x w) (each f xs) (h x w p) (λ v q. each-Leaves f xs v q h)

  -- What each step establishes and no step undoes holds of all elements at the end.
  pub each-All {ν} :
      (Q : A → W → Type ν) (f : A → W → Option E × W) (xs : List A) (w : W)
      → ((x : A) (v : W) → (f x v).0 ≡ none → Q x (f x v).1)
      → ((x y : A) (v : W) → Q x v → Q x (f y v).1)
      → (each f xs w).0 ≡ none
      → All (λ x. Q x (each f xs w).1) xs
  each-All Q f [] w makes keeps h = tt
  each-All Q f (x ∷ xs) w makes keeps h =
      let (a, b, e) = and_then_done (f x w) (each f xs) h in
      subst (λ v. All (λ y. Q y v) (x ∷ xs)) (sym e)
        (
          (each-Leaves {P = Q x} f xs (f x w).1 (makes x w a)
              (λ y v q. record { state = keeps x y v q })).state,
          each-All Q f xs (f x w).1 makes keeps b,
        )
