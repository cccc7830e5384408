-- ===== src/Common/DirectPaths.antt =====
-- What filepath.Clean makes of a rooted path: neither a step nor an empty element is left in it.
use mathlib.Core.Path.{◌≡◌, refl, ap}
use mathlib.Core.Bool.{Bool, true, false, ◌||◌}
use mathlib.Core.List.{List, [], ◌∷◌, ◌++◌, reverse, reverse_aux}
use gitlab_pages_mirror.Common.Tests.{if◌then◌else◌, if-cases}
use gitlab_pages_mirror.Common.Texts.{
  Text, codes, text_eq, has_prefix, split, join, IsWithout, split-All,
}
use gitlab_pages_mirror.Common.Lists.{All}
use gitlab_pages_mirror.Common.Paths.{clean, path_join, is_rooted, clean_step, clean_parts}

-- A name in a directory: not empty, no step, and no path of several elements.
pub record IsPlain (part : Text) : Type 0 where
  pub named : (text_eq part [] || text_eq part (codes ".")) ≡ false
  pub stays : text_eq part (codes "..") ≡ false
  pub single : IsWithout b'/' part

-- An absolute path that is the names on the way from the root, each a plain one.
pub record IsDirect (path : Text) : Type 0 where
  pub parts : List Text
  pub plain : All IsPlain parts
  pub joined : path ≡ codes "/" ++ join (codes "/") parts

step-All :
    (part : Text) (kept : List Text)
    → IsWithout b'/' part
    → All IsPlain kept
    → All IsPlain (clean_step true part kept)
unfolding clean_step
step-All part [] s h =
    if-cases (All IsPlain) (text_eq part [] || text_eq part (codes ".")) _ _ (λ e. h)
      (λ e.
        if-cases (All IsPlain) (text_eq part (codes "..")) _ _ (λ f. tt)
          (λ f. (record { named = e; stays = f; single = s }, h)))
step-All part (top ∷ below) s h =
    if-cases (All IsPlain) (text_eq part [] || text_eq part (codes ".")) _ _ (λ e. h)
      (λ e.
        if-cases (All IsPlain) (text_eq part (codes "..")) _ _ (λ f. h.1)
          (λ f. (record { named = e; stays = f; single = s }, h)))

parts-All :
    (parts kept : List Text)
    → All (IsWithout b'/') parts
    → All IsPlain kept
    → All IsPlain (clean_parts true parts kept)
unfolding clean_parts
parts-All [] kept s h = h
parts-All (part ∷ rest) kept s h =
    parts-All rest (clean_step true part kept) s.1 (step-All part kept s.0 h)

reverse_aux-All :
    (xs ys : List Text) → All IsPlain xs → All IsPlain ys → All IsPlain (reverse_aux xs ys)
reverse_aux-All [] ys h k = k
reverse_aux-All (x ∷ xs) ys h k = reverse_aux-All xs (x ∷ ys) h.1 (h.0, k)

rooted-IsDirect :
    (b : Bool) (parts : List Text) (other : Text)
    → b ≡ true
    → All (IsWithout b'/') parts
    → IsDirect
        (if b then codes "/" ++ join (codes "/") (reverse (clean_parts b parts [])) else other)
rooted-IsDirect false parts other h s = cc
rooted-IsDirect true parts other h s = record {
  parts = reverse (clean_parts true parts []);
  plain = reverse_aux-All (clean_parts true parts []) [] (parts-All parts [] s tt) tt;
  joined = refl;
}

pub clean-IsDirect : (path : Text) → is_rooted path ≡ true → IsDirect (clean path)
unfolding clean
clean-IsDirect path h = rooted-IsDirect (is_rooted path) (split b'/' path) _ h (split-All b'/' path)

pub direct-rooted : (path : Text) → IsDirect path → is_rooted path ≡ true
unfolding is_rooted has_prefix
direct-rooted path d = ap is_rooted d.joined

append-rooted : (s t : Text) → is_rooted s ≡ true → is_rooted (s ++ t) ≡ true
unfolding is_rooted has_prefix
append-rooted [] t h = cc
append-rooted (c ∷ s) t h = h

pub path_join-IsDirect :
    (root name : Text) → is_rooted root ≡ true → IsDirect (path_join (root ∷ name ∷ []))
unfolding path_join is_rooted has_prefix join
path_join-IsDirect [] name h = cc
path_join-IsDirect (c ∷ s) name h =
    clean-IsDirect ((c ∷ s) ++ (codes "/" ++ name)) (append-rooted (c ∷ s) (codes "/" ++ name) h)
