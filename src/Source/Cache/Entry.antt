-- ===== src/Source/Cache/Entry.antt =====
-- internal/source/gitlab/cache/entry.go: one cached domain. Times and durations are numbers of
-- nanoseconds. `retrieve_once` and `refresh_once` say that the sync.Once has run, `retrieved` that
-- the channel is closed, and `in_flight` counts the goroutines that have still to set the response.
use mathlib.Core.Option
use gitlab_pages_mirror.Common.{
  ℕ, ◌+◌, ◌-◌, Text, Bool, true, false, not, ◌&&◌, ◌||◌, Option, none, some, ltb, is_some,
  if◌then◌else◌,
}
use gitlab_pages_mirror.Source.Api.{ApiError, domain_does_not_exist, context_done, Lookup}

pub record Entry : Type 0 where
  pub domain : Text
  pub created : ℕ
  pub refreshed_original_timestamp : Option ℕ
  pub retrieve_once : Bool
  pub refresh_once : Bool
  pub in_flight : ℕ
  pub retrieved : Bool
  pub response : Option Lookup
  pub refresh_timeout : ℕ
  pub expiration_timeout : ℕ

unfoldable pub new_cache_entry : ℕ → Text → ℕ → ℕ → Entry
new_cache_entry now domain refresh_timeout expiration_timeout = record {
  domain = domain;
  created = now;
  refreshed_original_timestamp = none;
  retrieve_once = false;
  refresh_once = false;
  in_flight = 0;
  retrieved = false;
  response = none;
  refresh_timeout = refresh_timeout;
  expiration_timeout = expiration_timeout;
}

-- time.Since(t) > timeout.
abbrev elapsed : ℕ → ℕ → ℕ → Bool
elapsed now t timeout = ltb timeout (now - t)

-- The time from which the age of the response counts.
abbrev pub age_base : Entry → ℕ
age_base e = elim e.refreshed_original_timestamp [ some t ↦ t | none ↦ e.created ]

unfoldable pub is_outdated : ℕ → Entry → Bool
is_outdated now e = elim e.refreshed_original_timestamp [
  | some t ↦ elapsed now t e.refresh_timeout
  | none ↦ elapsed now e.created e.refresh_timeout
]

unfoldable pub is_expired : ℕ → Entry → Bool
is_expired now e = elim e.refreshed_original_timestamp [
  | some t ↦ elapsed now t e.expiration_timeout
  | none ↦ elapsed now e.created e.expiration_timeout
]

unfoldable pub is_resolved : Entry → Bool
is_resolved e = is_some e.response

unfoldable pub is_up_to_date : ℕ → Entry → Bool
unfolding is_resolved is_outdated
is_up_to_date now e = is_resolved e && not (is_outdated now e)

unfoldable pub needs_refresh : ℕ → Entry → Bool
unfolding is_resolved is_outdated
needs_refresh now e = is_resolved e && is_outdated now e

abbrev same_as_missing : Option ApiError → Bool
same_as_missing (some domain_does_not_exist) = true
same_as_missing _ = false

-- domainExists, on the response's error.
unfoldable pub domain_exists : Option ApiError → Bool
domain_exists e = not (same_as_missing e)

-- hasTemporaryError; `disabled` is FF_DISABLE_REFRESH_TEMPORARY_ERROR == "true".
unfoldable pub has_temporary_error : Bool → Entry → Bool
unfolding domain_exists
has_temporary_error disabled e =
    if disabled
    then false
    else elim e.response [ none ↦ false | some l ↦ is_some l.error && domain_exists l.error ]

-- setResponse; none stands for the panic of closing a closed channel.
unfoldable pub set_response : Entry → Lookup → Option Entry
set_response e l =
    if e.retrieved
    then none
    else some (record e { response = some l; retrieved = true; in_flight = e.in_flight - 1 })

-- The call of e.retrieve.Do in Retrieve: only the first one starts a goroutine.
unfoldable pub start_retrieve : Entry → Entry
start_retrieve e =
    if e.retrieve_once then e else record e { retrieve_once = true; in_flight = e.in_flight + 1 }

-- The select of Retrieve. `cancelled` says that its case for ctx.Done() is ready. Both cases may be
-- ready, and then `prefers_done` is the choice that Go makes; none is a wait for one of the cases.
unfoldable pub await_response : Bool → Bool → Entry → Option (Option Lookup)
await_response cancelled prefers_done e =
    if cancelled && (not e.retrieved || prefers_done)
    then some (some (record { name = e.domain; error = some context_done; domain = none }))
    else if e.retrieved
    then some e.response
    else none

-- Refresh: whether this call starts the goroutine, and the entry behind it.
unfoldable pub start_refresh : Entry → Entry × Bool
start_refresh e = if e.refresh_once then (e, false) else (record e { refresh_once = true }, true)

-- refreshFunc once the new entry has been retrieved: what is stored for the domain.
unfoldable pub refresh_entry : Bool → ℕ → Entry → Entry → Entry
unfolding is_expired has_temporary_error
refresh_entry disabled now e entry =
    if not (is_expired now e) && has_temporary_error disabled entry
    then record entry { response = e.response; refreshed_original_timestamp = some e.created }
    else entry

-- refreshFunc up to the store: the new entry is made and retrieved, with `l` for the answer, from
-- `started` to `now`.
unfoldable pub refresh_func : Bool → ℕ → ℕ → Lookup → Entry → Option Entry
unfolding new_cache_entry start_retrieve set_response refresh_entry
refresh_func disabled started now l e =
    let entry =
      start_retrieve (new_cache_entry started e.domain e.refresh_timeout e.expiration_timeout) in
    Option.map (refresh_entry disabled now e) (set_response entry l)
