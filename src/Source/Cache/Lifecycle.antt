-- ===== src/Source/Cache/Lifecycle.antt =====
-- internal/source/gitlab/cache/entry.go: an entry under any interleaving of the goroutines that
-- hold it. Each critical section is one step.
use gitlab_pages_mirror.Common.{
  ℕ, ◌+◌, ◌-◌, ◌<◌, Bool, true, false, ◌≡◌, refl, none, some, is_some, arith, Text,
}
use gitlab_pages_mirror.Source.Api.{Lookup}
use gitlab_pages_mirror.Source.Cache.Entry.{
  Entry, new_cache_entry, set_response, start_retrieve, await_response, start_refresh,
}

-- What a goroutine does to an entry: a request starts the retrieval, a request starts a refresh,
-- or the goroutine of a retrieval sets the response.
pub data Step : Entry → Entry → Type 0 where
  retrieve : (e : Entry) → Step e (start_retrieve e)
  refresh : (e : Entry) → Step e (start_refresh e).0
  respond : (e e' : Entry) (l : Lookup) → 0 < e.in_flight → set_response e l ≡ some e' → Step e e'

pub data Reach (s : Entry) : Entry → Type 0 where
  here : Reach s s
  next : {t u : Entry} → Reach s t → Step t u → Reach s u

abbrev count : Bool → ℕ
count true = 1
count false = 0

-- Once started, a retrieval is either in flight, exactly once, or has answered; the channel is
-- closed exactly when there is a response.
pub record IsConsistent (e : Entry) : Type 0 where
  pub balance : e.in_flight + count e.retrieved ≡ count e.retrieve_once
  pub answered : is_some e.response ≡ e.retrieved

new_cache_entry-IsConsistent :
    (now : ℕ) (domain : Text) (r x : ℕ) → IsConsistent (new_cache_entry now domain r x)
unfolding new_cache_entry
new_cache_entry-IsConsistent now domain r x = record { balance = refl; answered = refl }

Step-IsConsistent : {e e' : Entry} → Step e e' → IsConsistent e → IsConsistent e'
unfolding start_retrieve start_refresh set_response
Step-IsConsistent (retrieve e) c = ground arith
Step-IsConsistent (refresh e) c = ground arith
Step-IsConsistent (respond e e' l p s) c = ground arith

Reach-IsConsistent : {s e : Entry} → IsConsistent s → Reach s e → IsConsistent e
Reach-IsConsistent c here = c
Reach-IsConsistent c (next r s) = Step-IsConsistent s (Reach-IsConsistent c r)

-- Whatever the goroutines do to a new entry, it stays consistent: at most one retrieval is ever in
-- flight, none is left once it has answered, and the channel is closed exactly when there is a
-- response.
pub Reach-new-IsConsistent :
    (now : ℕ) (domain : Text) (r x : ℕ) (e : Entry)
    → Reach (new_cache_entry now domain r x) e
    → IsConsistent e
Reach-new-IsConsistent now domain r x e =
    Reach-IsConsistent (new_cache_entry-IsConsistent now domain r x)

-- A goroutine that sets the response of an entry that came from a new one never closes the channel
-- twice, which would be a panic.
pub set_response_total :
    (now : ℕ) (domain : Text) (r x : ℕ) (e : Entry) (l : Lookup)
    → Reach (new_cache_entry now domain r x) e
    → 0 < e.in_flight
    → (e' : Entry) × (set_response e l ≡ some e') × (e'.response ≡ some l)
unfolding set_response
set_response_total now domain r x e l reach p =
    let c = Reach-new-IsConsistent now domain r x e reach in
    (
      record e { response = some l; retrieved = true; in_flight = e.in_flight - 1 },
      ground arith,
      refl,
    )

Step_response :
    {e e' : Entry} (l : Lookup)
    → Step e e'
    → IsConsistent e
    → e.response ≡ some l
    → e'.response ≡ some l
unfolding start_retrieve start_refresh set_response
Step_response l (retrieve e) c h = ground arith
Step_response l (refresh e) c h = ground arith
Step_response l (respond e e' l' p s) c h = ground arith

-- A response that requests have seen does not change under them.
pub Reach-response :
    {e e' : Entry} (l : Lookup)
    → Reach e e'
    → IsConsistent e
    → e.response ≡ some l
    → e'.response ≡ some l
Reach-response l here c h = h
Reach-response l (next r s) c h =
    Step_response l s (Reach-IsConsistent c r) (Reach-response l r c h)

-- A request that has to wait on an entry that it started waits for a retrieval that is in flight,
-- and no other is.
pub await_response_progress :
    (now : ℕ) (domain : Text) (r x : ℕ) (e : Entry) (prefers_done : Bool)
    → Reach (new_cache_entry now domain r x) e
    → await_response false prefers_done (start_retrieve e) ≡ none
    → (start_retrieve e).in_flight ≡ 1
unfolding start_retrieve await_response
await_response_progress now domain r x e prefers_done reach w =
    ground (arith, Reach-new-IsConsistent now domain r x e reach)
