-- ===== src/Limiter/Bounds.antt =====
-- internal/netutil/shared_limit_listener.go: the bound on open connections, and what the gauges
-- show between the operations of acquire and release.
use gitlab_pages_mirror.Common.{
  ℕ, ◌+◌, ◌≤◌, Bool, true, false, ◌≡◌, refl, ap, List, [], ◌∷◌, ◌++◌, if◌then◌else◌, arith,
}
use gitlab_pages_mirror.Limiter.Steps.{
  Limiter, new_limiter, enter_acquire, acquire, give_up, count_acquired, return_true, return_false,
  release, count_released, accepted, not_accepted, refused, close_conn, close_listener, Step, enter,
  slot, leave, count_up, grant, deny, accept, fail, reject, close, receive, count_down, shut, Reach,
  here, next,
}

-- The connections that have not been closed.
unfoldable pub open_count : List Bool → ℕ
open_count [] = 0
open_count (once ∷ rest) = (if once then 0 else 1) + open_count rest

open_count-append : (xs ys : List Bool) → open_count (xs ++ ys) ≡ open_count xs + open_count ys
unfolding open_count
open_count-append [] ys = omega arith
open_count-append (x ∷ xs) ys = omega (arith, open_count-append xs ys)

-- Every value in the channel belongs to one goroutine or to one connection that has not been
-- closed, there are at most `limit` of them, and the gauges miss only the goroutines that stand
-- between an operation on the channel and the one on the gauge.
pub record IsBounded (n : ℕ) (l : Limiter) : Type 0 where
  pub limit : l.limit ≡ n
  pub held : l.sem ≡ l.holding + l.granted + l.accepting + open_count l.conns + l.releasing
  pub bounded : l.sem ≤ n
  pub concurrent : l.concurrent_conns_count + l.holding ≡ l.sem + l.receded
  pub waiting : l.waiting_conns_count ≡ l.selecting + l.holding + l.granted + l.denied

new_limiter-IsBounded : (n : ℕ) → IsBounded n (new_limiter n)
unfolding new_limiter open_count
new_limiter-IsBounded n = record {
  limit = refl;
  held = refl;
  bounded = omega arith;
  concurrent = refl;
  waiting = refl;
}

-- Closing a connection moves its slot to the release that it starts.
close_conn-moves :
    (before : List Bool) (once : Bool) (after : List Bool) (r : ℕ)
    → open_count (before ++ true ∷ after) + (if once then r else r + 1)
      ≡ open_count (before ++ once ∷ after) + r
unfolding open_count
close_conn-moves before true after r = refl
close_conn-moves before false after r =
    rw (open_count-append before (true ∷ after), open_count-append before (false ∷ after))
      (omega arith)

close-IsBounded :
    (n : ℕ) (l : Limiter) (before : List Bool) (once : Bool) (after : List Bool)
    → l.conns ≡ before ++ once ∷ after
    → IsBounded n l
    → IsBounded n (close_conn before once after l)
unfolding close_conn
close-IsBounded n l before once after e b =
    let same = ap open_count e in
    let moved = close_conn-moves before once after l.releasing in
    record {
      limit = b.limit;
      held = omega (arith, same, moved, b.held);
      bounded = b.bounded;
      concurrent = b.concurrent;
      waiting = b.waiting;
    }

Step-IsBounded : {l m : Limiter} (n : ℕ) → Step l m → IsBounded n l → IsBounded n m
unfolding enter_acquire acquire give_up count_acquired return_true return_false release
    count_released accepted not_accepted refused close_listener open_count
Step-IsBounded n (enter l) b = ground arith
Step-IsBounded n (slot l m p e) b = ground arith
Step-IsBounded n (leave l m p e) b = ground arith
Step-IsBounded n (count_up l p) b = ground arith
Step-IsBounded n (grant l p) b = ground arith
Step-IsBounded n (deny l p) b = ground arith
Step-IsBounded n (accept l p) b = ground arith
Step-IsBounded n (fail l p) b = ground arith
Step-IsBounded n (reject l p) b = ground arith
Step-IsBounded n (close l before once after e) b = close-IsBounded n l before once after e b
Step-IsBounded n (receive l m p e) b = ground arith
Step-IsBounded n (count_down l p) b = ground arith
Step-IsBounded n (shut l) b = ground arith

Reach-IsBounded : {l m : Limiter} (n : ℕ) → IsBounded n l → Reach l m → IsBounded n m
Reach-IsBounded n b here = b
Reach-IsBounded n b (next r s) = Step-IsBounded n s (Reach-IsBounded n b r)

-- Under any interleaving of the operations of the goroutines of any number of listeners, however
-- often each connection is closed, at most `limit` values are in the channel, and each belongs to
-- one goroutine that acquires, accepts or releases or to one accepted connection that has not been
-- closed. The gauge of concurrent connections is short by the goroutines that have sent to the
-- channel and not counted it, and over by those that have received from it and not counted that;
-- the waiting gauge is the number of goroutines inside acquire.
pub Reach-new-IsBounded : (n : ℕ) (l : Limiter) → Reach (new_limiter n) l → IsBounded n l
Reach-new-IsBounded n l = Reach-IsBounded n (new_limiter-IsBounded n)
