-- ===== src/Source/Cache/Tests.antt =====
-- Sample entries against the source of internal/source/gitlab/cache, and the theorems at them.
use gitlab_pages_mirror.Common.{
  ℕ, ◌+◌, ◌≤◌, Text, codes, text_eq, text_eq_refl, true, false, not, ◌&&◌, ◌≡◌, refl, ap, ◌∙◌,
  Option, none, some, [], arith, if◌then◌else◌, leb, ltb, is_some, ◌-◌, Dict, dict_get, dict_put,
  dict_remove, dict_get-put, dict_get-remove,
}
use gitlab_pages_mirror.Source.Api.{Lookup, other, zero_lookup}
use gitlab_pages_mirror.Source.Cache.Entry.{
  Entry, new_cache_entry, start_retrieve, is_up_to_date, needs_refresh, is_outdated, is_expired,
  has_temporary_error, age_base,
}
use gitlab_pages_mirror.Source.Cache.Lifecycle.{
  Reach, here, next, Step, IsConsistent, Reach-new-IsConsistent,
}
use gitlab_pages_mirror.Source.Cache.Refreshing.{entry_states, keep_failing, keep_failing-response}
use gitlab_pages_mirror.Source.Cache.Retriever.{resolve_with_backoff}
use gitlab_pages_mirror.Source.Cache.Store.{ExpiringCache, Timeouts, World, resolve}
use gitlab_pages_mirror.Source.Cache.Resolving.{IsLinked, IsEntryOf, IsAnswer, resolve-IsLinked}

-- A cache that keeps each item with the last time at which it is found.
live : ℕ → Option (ℕ × ℕ) → Option ℕ
live u none = none
live u (some (v, last)) = if leb u last then some v else none

abbrev dict_cache_get : ℕ → Dict (ℕ × ℕ) → Text → Option ℕ
dict_cache_get u s k = live u (dict_get s k)

abbrev lifetime : ℕ
lifetime = 600

found_self :
    (t u : ℕ) (s : Dict (ℕ × ℕ)) (k : Text) (v : ℕ)
    → t ≤ u
    → u ≤ t + lifetime
    → dict_cache_get u (dict_put s k (v, t + lifetime)) k ≡ some v
unfolding live
found_self t u s k v p q = rw dict_get-put (ground (arith, text_eq_refl k))

found_new :
    (t u : ℕ) (s : Dict (ℕ × ℕ)) (k : Text) (v w : ℕ)
    → dict_cache_get u (dict_put s k (v, t + lifetime)) k ≡ some w
    → w ≡ v
unfolding live
found_new t u s k v w h = ground (arith, dict_get-put s k k (v, t + lifetime), text_eq_refl k)

found_ne :
    (t u : ℕ) (s : Dict (ℕ × ℕ)) (k j : Text) (v : ℕ)
    → text_eq k j ≡ false
    → dict_cache_get u (dict_put s k (v, t + lifetime)) j ≡ dict_cache_get u s j
found_ne t u s k j v h = ap (live u) (dict_get-put s k j (v, t + lifetime) ∙ rw h)

found_delete :
    (u : ℕ) (s : Dict (ℕ × ℕ)) (k j : Text)
    → dict_cache_get u (dict_remove s k) j ≡ (if text_eq k j then none else dict_cache_get u s j)
unfolding live
found_delete u s k j = ground (arith, dict_get-remove s k j)

abbrev dict_cache : ExpiringCache
dict_cache = record {
  State = Dict (ℕ × ℕ);
  expiry = lifetime;
  get = dict_cache_get;
  set_default = λ t s k v. dict_put s k (v, t + lifetime);
  delete = dict_remove;
  get-set_default_self = found_self;
  get-set_default_new = found_new;
  get-set_default_ne = found_ne;
  get-delete = found_delete;
}

abbrev cfg : Timeouts
cfg = record { refresh = 60; expiration = 600 }

abbrev site : Text
site = codes "a.gitlab.io"

abbrev empty_world : World dict_cache
empty_world = record { cache = []; heap = []; now = 1000 }

abbrev good : Lookup
good = record zero_lookup { name = site }

abbrev broken : Lookup
broken = record zero_lookup { name = site; error = some other }

abbrev young : Entry
young = record {
  domain = site;
  created = 1000;
  refreshed_original_timestamp = none;
  retrieve_once = true;
  refresh_once = false;
  in_flight = 0;
  retrieved = true;
  response = some good;
  refresh_timeout = 60;
  expiration_timeout = 600;
}

abbrev started : Entry
started = record young { in_flight = 1; retrieved = false; response = none }

started_reached : Reach (new_cache_entry 1000 site 60 600) started
unfolding new_cache_entry
started_reached =
    let step : Step (new_cache_entry 1000 site 60 600) started =
      unfold start_retrieve in Step.retrieve (new_cache_entry 1000 site 60 600) in
    next here step

second_attempt : resolve_with_backoff (λ i. if ltb i 2 then broken else good) 3 ≡ (good, 2)
unfolding resolve_with_backoff
second_attempt = refl

no_attempts : resolve_with_backoff (λ i. broken) 0 ≡ (zero_lookup, 0)
unfolding resolve_with_backoff
no_attempts = refl

entry_states_example :
    (is_up_to_date 1061 young ≡ (is_some young.response && not (ltb 60 (1061 - age_base young))))
    × (needs_refresh 1061 young ≡ (is_some young.response && ltb 60 (1061 - age_base young)))
    × (is_up_to_date 1061 young && needs_refresh 1061 young ≡ false)
entry_states_example = entry_states 1061 young

Reach-new-IsConsistent_example : IsConsistent started
Reach-new-IsConsistent_example = Reach-new-IsConsistent 1000 site 60 600 started started_reached

keep_failing-response_example :
    (entry : Entry) × (keep_failing 300 broken 1300 50 young ≡ some entry)
    × (entry.response ≡ some good)
    × (is_outdated 16300 entry ≡ true)
    × (is_expired 16300 entry ≡ false)
unfolding has_temporary_error
keep_failing-response_example =
    keep_failing-response 300 broken (other, refl, refl) 50 young (omega arith) (omega arith) refl

empty_world-IsLinked : IsLinked dict_cache cfg empty_world
unfolding dict_get live
empty_world-IsLinked = record { at = λ u k a h. cc h }

resolve-IsLinked_example :
    IsLinked dict_cache cfg (resolve dict_cache cfg empty_world site).0
    × (a : ℕ) × (e : Entry) × IsEntryOf dict_cache cfg empty_world site a e
    × (e.domain ≡ site)
    × IsAnswer dict_cache cfg 1000 a e (resolve dict_cache cfg empty_world site).1
resolve-IsLinked_example = resolve-IsLinked dict_cache cfg empty_world site empty_world-IsLinked
