-- ===== src/Source/Cache/Retriever.antt =====
-- internal/source/gitlab/cache/retriever.go: the retries against the API. The client's answer to
-- each attempt, counted from 1, is a parameter; the pauses between the attempts are not modelled.
use gitlab_pages_mirror.Common.{
  ℕ, zero, suc, ◌+◌, Bool, true, false, not, ◌||◌, Option, none, some, is_some, [], if◌then◌else◌,
}
use gitlab_pages_mirror.Source.Api.{
  ApiError, domain_does_not_exist, unauthorized_api, retrieval_context_done, Lookup, zero_lookup,
}

abbrev is_final_error : Option ApiError → Bool
is_final_error (some domain_does_not_exist) = true
is_final_error (some unauthorized_api) = true
is_final_error _ = false

-- The test of the loop that breaks it.
unfoldable pub is_conclusive : Lookup → Bool
is_conclusive l = not (is_some l.error) || is_final_error l.error

module _ (answers : ℕ → Lookup) where
  -- The loop, with the attempts left, the attempt made last and its lookup; the second result is
  -- the number of attempts made.
  unfoldable pub attempts_from : ℕ → ℕ → Lookup → Lookup × ℕ
  unfolding is_conclusive
  attempts_from zero made last = (last, made)
  attempts_from (suc left) made last =
      let l = answers (made + 1) in
      let rest = attempts_from left (made + 1) l in if is_conclusive l then (l, made + 1) else rest

  -- resolveWithBackoff: the variable `lookup` starts as a zero value.
  unfoldable pub resolve_with_backoff : ℕ → Lookup × ℕ
  unfolding attempts_from
  resolve_with_backoff max_retries = attempts_from max_retries 0 zero_lookup

  -- Retrieve; `timed_out` says that the select took the case of its own context.
  unfoldable pub retrieve : ℕ → Bool → Lookup
  unfolding resolve_with_backoff
  retrieve max_retries timed_out =
      if timed_out
      then record { name = []; error = some retrieval_context_done; domain = none }
      else (resolve_with_backoff max_retries).0
