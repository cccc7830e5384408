-- ===== src/Config/Splitting.antt =====
-- internal/config/multi_string_flag.go: a flag that is given several times and one that is given
-- once with all values mean the same.
use gitlab_pages_mirror.Common.{
  ℕ, Text, true, List, [], ◌∷◌, ◌++◌, ◌≡◌, ◌≢◌, refl, sym, ap, ◌==◌, ◌&&◌, ◌∙◌, subst, append-nil,
  arith, has_prefix, join, Bool-cases, inl, inr,
}
use gitlab_pages_mirror.Config.Flags.{
  MultiStringFlag, sep, flag_string, push_first, split_from, split_all, split_flag,
}

IsFilled : List Text → Type 0
IsFilled xs = (x : Text) × (rest : List Text) × (xs ≡ x ∷ rest)

push-IsFilled : (c : ℕ) (xs : List Text) → IsFilled (push_first c xs)
unfolding IsFilled
push-IsFilled c [] = (c ∷ [], [], refl)
push-IsFilled c (s ∷ rest) = (c ∷ s, rest, refl)

push-append :
    (c : ℕ) (xs ys : List Text) → IsFilled xs → push_first c (xs ++ ys) ≡ push_first c xs ++ ys
unfolding IsFilled
push-append c [] ys h = cc h.2
push-append c (s ∷ rest) ys h = refl

module _ (b : ℕ) where
  split-IsFilled : (s : Text) → IsFilled (split_from (b ∷ []) 0 s)
  unfolding split_from IsFilled
  split-IsFilled [] = ([], [], refl)
  split-IsFilled (c ∷ s) = elim (Bool-cases (has_prefix (c ∷ s) (b ∷ []))) [
    | inl e ↦ rw e ([], split_from (b ∷ []) 0 s, refl)
    | inr e ↦ rw e (push-IsFilled c (split_from (b ∷ []) 0 s))
  ]

  split-append :
      (s t : Text)
      → split_from (b ∷ []) 0 (s ++ b ∷ t) ≡ split_from (b ∷ []) 0 s ++ split_from (b ∷ []) 0 t
  unfolding split_from has_prefix
  split-append [] t = ground arith
  split-append (c ∷ s) t =
      let ih = split-append s t in
      elim (Bool-cases ((c == b) && true)) [
        | inl e ↦ rw e (ap ([] ∷◌) ih)
        | inr e ↦ rw e (
            ap (push_first c) ih
            ∙ push-append c (split_from (b ∷ []) 0 s) (split_from (b ∷ []) 0 t) (split-IsFilled s))
      ]

  split-join :
      (v : Text) (vs : List Text)
      → split_all (b ∷ []) (v ∷ vs) ≡ split_from (b ∷ []) 0 (join (b ∷ []) (v ∷ vs))
  unfolding split_all join
  split-join v [] = append-nil (split_from (b ∷ []) 0 v)
  split-join v (w ∷ vs) =
      ap (split_from (b ∷ []) 0 v ++◌) (split-join w vs)
      ∙ sym (split-append v (join (b ∷ []) (w ∷ vs)))

flag_parts :
    (b : ℕ) (separator : Text) (values : List Text)
    → separator ≡ b ∷ []
    → values ≢ []
    → split_all separator values ≡ split_from separator 0 (join separator values)
flag_parts b separator [] e h = absurd (h refl)
flag_parts b separator (v ∷ vs) e h =
    subst (λ t. split_all t (v ∷ vs) ≡ split_from t 0 (join t (v ∷ vs))) (sym e) (split-join b v vs)

-- With a separator of one byte, the parts of a flag that is given at least once are the parts of
-- the one value that String prints, all values joined: giving a flag several times means the same
-- as giving it once with all values.
pub split_flag-flag_string :
    (b : ℕ) (s : MultiStringFlag)
    → sep s ≡ b ∷ []
    → s.value ≢ []
    → split_flag s ≡ split_from (sep s) 0 (flag_string s)
unfolding split_flag flag_string
split_flag-flag_string b s e h = flag_parts b (sep s) s.value e h
