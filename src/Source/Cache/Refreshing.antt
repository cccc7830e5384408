-- ===== src/Source/Cache/Refreshing.antt =====
-- internal/source/gitlab/cache/entry.go: what a refresh stores, and how old a response can get.
use gitlab_pages_mirror.Common.{
  ℕ, zero, suc, ◌+◌, ◌*◌, ◌-◌, ◌≤◌, ◌<◌, Bool, true, false, not, ◌&&◌, ◌≡◌, ◌∙◌, refl, Option, none,
  some, arith, ltb, is_some,
}
use gitlab_pages_mirror.Source.Api.{ApiError, Lookup}
use gitlab_pages_mirror.Source.Cache.Entry.{
  Entry, is_outdated, is_expired, is_up_to_date, needs_refresh, domain_exists, has_temporary_error,
  refresh_entry, refresh_func, age_base,
}

-- Every entry is in exactly one of the three states that Resolve tells apart: it is unresolved, or
-- it is up to date, or it needs a refresh.
pub entry_states :
    (now : ℕ) (e : Entry)
    → (is_up_to_date now e ≡ (is_some e.response && not (ltb e.refresh_timeout (now - age_base e))))
      × (needs_refresh now e ≡ (is_some e.response && ltb e.refresh_timeout (now - age_base e)))
      × (is_up_to_date now e && needs_refresh now e ≡ false)
unfolding is_up_to_date needs_refresh
entry_states now e = ground arith

-- The errors of a response that a refresh does not put in the place of an older response.
abbrev pub IsTemporary : Lookup → Type 0
IsTemporary l = (x : ApiError) × (l.error ≡ some x) × (domain_exists (some x) ≡ true)

-- With the safeguard switched on, a refresh that meets a temporary error while the old entry has
-- not expired keeps the old response, and counts its age from the creation of the old entry.
pub refresh_entry_keeps :
    (now : ℕ) (e entry : Entry) (l : Lookup)
    → is_expired now e ≡ false
    → entry.response ≡ some l
    → IsTemporary l
    → ((refresh_entry false now e entry).response ≡ e.response)
      × (age_base (refresh_entry false now e entry) ≡ e.created)
unfolding refresh_entry
refresh_entry_keeps now e entry l live got (x, h, t) = ground arith

-- In every other case the new entry is stored as it is.
pub refresh_entry_replaces :
    (disabled : Bool) (now : ℕ) (e entry : Entry)
    → (not (is_expired now e) && has_temporary_error disabled entry) ≡ false
    → refresh_entry disabled now e entry ≡ entry
unfolding refresh_entry
refresh_entry_replaces disabled now e entry h = rw h

-- Refreshes one period apart, from a time on, that all get the answer `l`.
unfoldable pub keep_failing : ℕ → Lookup → ℕ → ℕ → Entry → Option Entry
keep_failing period l now zero e = some e
keep_failing period l now (suc n) e = elim (refresh_func false now now l e) [
  | none ↦ none
  | some entry ↦ keep_failing period l (now + period) n entry
]

-- The entry of the next round: it was made one period ago, and its response counts as two periods
-- old at most.
record IsAging (period now : ℕ) (e : Entry) : Type 0 where
  made : e.created ≤ now
  recent : now ≤ e.created + period
  due : age_base e + period ≤ now
  young : now ≤ age_base e + 2 * period

module _ (period : ℕ) (l : Lookup) (temporary : IsTemporary l) where
  failed_refresh :
      (now : ℕ) (e : Entry)
      → 2 * period ≤ e.expiration_timeout
      → IsAging period now e
      → (entry : Entry) × (refresh_func false now now l e ≡ some entry)
        × (entry.response ≡ e.response)
        × (entry.expiration_timeout ≡ e.expiration_timeout)
        × (entry.refresh_timeout ≡ e.refresh_timeout)
        × IsAging period (now + period) entry
  unfolding refresh_func
  failed_refresh now e fits aging =
      let (x, h, t) = temporary in
      (
        record {
          domain = e.domain;
          created = now;
          refreshed_original_timestamp = some e.created;
          retrieve_once = true;
          refresh_once = false;
          in_flight = 0;
          retrieved = true;
          response = e.response;
          refresh_timeout = e.refresh_timeout;
          expiration_timeout = e.expiration_timeout;
        },
        ground arith,
        refl,
        refl,
        refl,
        omega arith,
      )

  keep_failing_from :
      (n now : ℕ) (e : Entry)
      → 2 * period ≤ e.expiration_timeout
      → e.refresh_timeout < period
      → IsAging period now e
      → (entry : Entry) × (keep_failing period l now n e ≡ some entry)
        × (entry.response ≡ e.response)
        × (is_outdated (now + n * period) entry ≡ true)
        × (is_expired (now + n * period) entry ≡ false)
  unfolding keep_failing
  keep_failing_from zero now e fits often aging =
      (e, refl, refl, unfold is_outdated in ground arith, unfold is_expired in ground arith)
  keep_failing_from (suc n) now e fits often aging =
      let (entry, made, kept, x, r, a) = failed_refresh now e fits aging in
      let (last, chain, same, o, z) =
        keep_failing_from n (now + period) entry (omega arith) (omega arith) a in
      let later : now + period + n * period ≡ now + suc n * period = omega arith in
      (last, rw (made, keep_failing) chain, same ∙ kept, rw (← later) o, rw (← later) z)

  -- However many refreshes in a row meet a temporary error, the response of the first entry is
  -- still served, still counts as outdated, and has not expired, when they follow one another by
  -- a period of more than the refresh timeout and at most half of the expiration timeout: each
  -- round counts the age from the creation of the entry before.
  pub keep_failing-response :
      (n : ℕ) (e : Entry)
      → 2 * period ≤ e.expiration_timeout
      → e.refresh_timeout < period
      → e.refreshed_original_timestamp ≡ none
      → (entry : Entry) × (keep_failing period l (e.created + period) n e ≡ some entry)
        × (entry.response ≡ e.response)
        × (is_outdated (e.created + period + n * period) entry ≡ true)
        × (is_expired (e.created + period + n * period) entry ≡ false)
  keep_failing-response n e fits often fresh =
      keep_failing_from n (e.created + period) e fits often (record {
        made = omega arith;
        recent = omega arith;
        due = ground arith;
        young = ground arith;
      })
