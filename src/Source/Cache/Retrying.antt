-- ===== src/Source/Cache/Retrying.antt =====
-- internal/source/gitlab/cache/retriever.go: which attempt decides.
use gitlab_pages_mirror.Common.{ℕ, ◌≤◌, ◌<◌, true, false, ◌≡◌}
use gitlab_pages_mirror.Source.Api.{Lookup}
use gitlab_pages_mirror.Source.Cache.Retriever.{is_conclusive}

module _ (answers : ℕ → Lookup) where
  -- The loop made `n` attempts of at most `max`, and its result is the last of them. It went past
  -- no attempt that was conclusive, and stopped early only at one that is.
  pub record IsDecided (start max : ℕ) (l : Lookup) (n : ℕ) : Type 0 where
    pub started : start < n
    pub bounded : n ≤ max
    pub last : l ≡ answers n
    pub passed : (i : ℕ) → start < i → i < n → is_conclusive (answers i) ≡ false
    pub stopped : n < max → is_conclusive (answers n) ≡ true
