-- ===== src/Limiter/Tests.antt =====
-- The limiter of internal/netutil with one connection, which is closed twice.
use gitlab_pages_mirror.Common.{refl, arith, true, false, [], ◌∷◌}
use gitlab_pages_mirror.Limiter.Steps.{
  Limiter, new_limiter, enter_acquire, acquire, count_acquired, return_true, accepted, close_conn,
  enter, slot, count_up, grant, accept, close, Reach, here, next,
}
use gitlab_pages_mirror.Limiter.Bounds.{IsBounded, Reach-new-IsBounded}

abbrev entered : Limiter
entered = record {
  limit = 1;
  sem = 0;
  concurrent_conns_count = 0;
  waiting_conns_count = 1;
  done = false;
  selecting = 1;
  holding = 0;
  granted = 0;
  denied = 0;
  accepting = 0;
  rejected = 0;
  releasing = 0;
  receded = 0;
  conns = [];
}

abbrev sent : Limiter
sent = record entered { sem = 1; selecting = 0; holding = 1 }

abbrev counted : Limiter
counted = record sent { concurrent_conns_count = 1; holding = 0; granted = 1 }

abbrev admitted : Limiter
admitted = record counted { waiting_conns_count = 0; granted = 0; accepting = 1 }

abbrev opened : Limiter
opened = record admitted { accepting = 0; conns = false ∷ [] }

abbrev closed_once : Limiter
closed_once = record opened { releasing = 1; conns = true ∷ [] }

reached : Reach (new_limiter 1) closed_once
unfolding new_limiter enter_acquire acquire count_acquired return_true accepted close_conn
reached =
    let a : Reach (new_limiter 1) entered = next here (enter (new_limiter 1)) in
    let b : Reach (new_limiter 1) sent = next a (slot entered sent (omega arith) refl) in
    let c : Reach (new_limiter 1) counted = next b (count_up sent (omega arith)) in
    let d : Reach (new_limiter 1) admitted = next c (grant counted (omega arith)) in
    let e : Reach (new_limiter 1) opened = next d (accept admitted (omega arith)) in
    let f : Reach (new_limiter 1) closed_once = next e (close opened [] false [] refl) in
    next f (close closed_once [] true [] refl)

Reach-new-IsBounded_example : IsBounded 1 closed_once
Reach-new-IsBounded_example = Reach-new-IsBounded 1 closed_once reached
