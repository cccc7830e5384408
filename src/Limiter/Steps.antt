-- ===== src/Limiter/Steps.antt =====
-- internal/netutil/shared_limit_listener.go: the goroutines that accept and close connections, as
-- a step relation on the state of the limiter. Each operation on the channel, on a gauge or on a
-- connection's releaseOnce is a step of its own. That the Accept of a closed listener fails, as the
-- code expects, is the step `reject`.
use gitlab_pages_mirror.Common.{
  ℕ, ◌+◌, ◌-◌, ◌<◌, Bool, true, false, ◌≡◌, Option, none, some, List, [], ◌∷◌, ◌++◌, ltb,
  if◌then◌else◌,
}

-- `sem` is the number of values in the channel of capacity `limit`, and the two gauges count as the
-- code does. The numbers of goroutines are those in the select of acquire (`selecting`), behind the
-- send to the channel (`holding`), at the deferred decrement with a slot (`granted`) and without one
-- (`denied`), in Listener.Accept with a slot (`accepting`) and without one (`rejected`), at the
-- receive of release (`releasing`) and at the decrement behind it (`receded`). `conns` holds, of
-- each connection that Accept has returned, whether its releaseOnce is done.
pub record Limiter : Type 0 where
  pub limit : ℕ
  pub sem : ℕ
  pub concurrent_conns_count : ℕ
  pub waiting_conns_count : ℕ
  pub done : Bool
  pub selecting : ℕ
  pub holding : ℕ
  pub granted : ℕ
  pub denied : ℕ
  pub accepting : ℕ
  pub rejected : ℕ
  pub releasing : ℕ
  pub receded : ℕ
  pub conns : List Bool

-- NewLimiterWithMetrics
unfoldable pub new_limiter : ℕ → Limiter
new_limiter n = record {
  limit = n;
  sem = 0;
  concurrent_conns_count = 0;
  waiting_conns_count = 0;
  done = false;
  selecting = 0;
  holding = 0;
  granted = 0;
  denied = 0;
  accepting = 0;
  rejected = 0;
  releasing = 0;
  receded = 0;
  conns = [];
}

-- The start of acquire.
unfoldable pub enter_acquire : Limiter → Limiter
enter_acquire l = record l {
  waiting_conns_count = l.waiting_conns_count + 1;
  selecting = l.selecting + 1;
}

-- The two cases of its select; none is a case that is not ready.
unfoldable pub acquire : Limiter → Option Limiter
acquire l =
    if ltb l.sem l.limit
    then some (record l { sem = l.sem + 1; selecting = l.selecting - 1; holding = l.holding + 1 })
    else none

unfoldable pub give_up : Limiter → Option Limiter
give_up l =
    if l.done then some (record l { selecting = l.selecting - 1; denied = l.denied + 1 }) else none

-- The increment behind the send, and the deferred decrement on both ways out of acquire.
unfoldable pub count_acquired : Limiter → Limiter
count_acquired l = record l {
  concurrent_conns_count = l.concurrent_conns_count + 1;
  holding = l.holding - 1;
  granted = l.granted + 1;
}

unfoldable pub return_true : Limiter → Limiter
return_true l = record l {
  waiting_conns_count = l.waiting_conns_count - 1;
  granted = l.granted - 1;
  accepting = l.accepting + 1;
}

unfoldable pub return_false : Limiter → Limiter
return_false l = record l {
  waiting_conns_count = l.waiting_conns_count - 1;
  denied = l.denied - 1;
  rejected = l.rejected + 1;
}

-- The two operations of release; none is a receive that blocks.
unfoldable pub release : Limiter → Option Limiter
release l =
    if ltb 0 l.sem
    then some (record l { sem = l.sem - 1; releasing = l.releasing - 1; receded = l.receded + 1 })
    else none

unfoldable pub count_released : Limiter → Limiter
count_released l = record l {
  concurrent_conns_count = l.concurrent_conns_count - 1;
  receded = l.receded - 1;
}

-- Accept behind Listener.Accept: the connection, or the error after which a slot is released.
unfoldable pub accepted : Limiter → Limiter
accepted l = record l { accepting = l.accepting - 1; conns = false ∷ l.conns }

unfoldable pub not_accepted : Limiter → Limiter
not_accepted l = record l { accepting = l.accepting - 1; releasing = l.releasing + 1 }

unfoldable pub refused : Limiter → Limiter
refused l = record l { rejected = l.rejected - 1 }

-- The Close of the connection between the others: c.releaseOnce.Do(c.release), which starts release
-- unless the Once is done already.
unfoldable pub close_conn : List Bool → Bool → List Bool → Limiter → Limiter
close_conn before once after l = record l {
  conns = before ++ true ∷ after;
  releasing = if once then l.releasing else l.releasing + 1;
}

-- The Close of a listener, which closes `done`.
unfoldable pub close_listener : Limiter → Limiter
close_listener l = record l { done = true }

pub data Step : Limiter → Limiter → Type 0 where
  enter : (l : Limiter) → Step l (enter_acquire l)
  slot : (l m : Limiter) → 0 < l.selecting → acquire l ≡ some m → Step l m
  leave : (l m : Limiter) → 0 < l.selecting → give_up l ≡ some m → Step l m
  count_up : (l : Limiter) → 0 < l.holding → Step l (count_acquired l)
  grant : (l : Limiter) → 0 < l.granted → Step l (return_true l)
  deny : (l : Limiter) → 0 < l.denied → Step l (return_false l)
  accept : (l : Limiter) → 0 < l.accepting → Step l (accepted l)
  fail : (l : Limiter) → 0 < l.accepting → Step l (not_accepted l)
  reject : (l : Limiter) → 0 < l.rejected → Step l (refused l)
  close :
      (l : Limiter) (before : List Bool) (once : Bool) (after : List Bool)
      → l.conns ≡ before ++ once ∷ after
      → Step l (close_conn before once after l)
  receive : (l m : Limiter) → 0 < l.releasing → release l ≡ some m → Step l m
  count_down : (l : Limiter) → 0 < l.receded → Step l (count_released l)
  shut : (l : Limiter) → Step l (close_listener l)

pub data Reach : Limiter → Limiter → Type 0 where
  here : {l : Limiter} → Reach l l
  next : {l m n : Limiter} → Reach l m → Step m n → Reach l n
