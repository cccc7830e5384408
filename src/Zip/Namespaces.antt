-- ===== src/Zip/Namespaces.antt =====
-- internal/vfs/zip/archive.go: the cache keys of different archives differ.
use gitlab_pages_mirror.Common.{
  ℕ, ◌<◌, Text, decimal, decimal_injective, decimal-All_digits, ◌≡◌, refl, ap, sym, ◌∙◌, Option,
  some, [], ◌∷◌, ◌++◌, All, append_assoc, arith, cut,
}
use gitlab_pages_mirror.Zip.Lru.{cache_namespace}

cut-append : (s t : Text) → All (λ c. c < b':') s → cut b':' (s ++ b':' ∷ t) ≡ (s, some t)
unfolding cut
cut-append [] t h = refl
cut-append (a ∷ s) t h = rw (cut-append s t h.1, cut) (ground (arith, h.0))

cut-cache_namespace :
    (i : ℕ) (key : Text) → cut b':' (cache_namespace i ++ key) ≡ (decimal i, some key)
unfolding cache_namespace
cut-cache_namespace i key =
    rw (append_assoc (decimal i) (b':' ∷ []) key)
      (cut-append (decimal i) key (decimal-All_digits i))

-- No key of an archive is a key of another archive, or a key of another name.
pub cache_key_injective :
    (i j : ℕ) (a b : Text) → cache_namespace i ++ a ≡ cache_namespace j ++ b → (i ≡ j) × (a ≡ b)
cache_key_injective i j a b e =
    let same = sym (cut-cache_namespace i a) ∙ ap (cut b':') e ∙ cut-cache_namespace j b in
    (decimal_injective i j (ap (λ (t : Text × Option Text). t.0) same), cc same)
