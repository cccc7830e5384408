-- ===== src/Zip/Inflating/Tests.antt =====
-- Readers over a pool that is a stack and never forgets, on streams that inflate to themselves.
use gitlab_pages_mirror.Common.{
  ℕ, zero, suc, ◌+◌, ◌≤◌, codes, ◌≡◌, refl, ap, Option, none, some, List, [], ◌∷◌, ◌==◌,
  if◌then◌else◌, arith,
}
use gitlab_pages_mirror.Zip.Inflating.{
  Pool, Inflate, Readers, counted, no_readers, new_deflate_reader, close, read,
}
use gitlab_pages_mirror.Zip.Inflating.Pooled.{
  IsNew, Reach, start, later, creates, reads, closes, new_deflate_reader-IsNew,
}

abbrev count_in : List ℕ → ℕ → ℕ
count_in [] b = 0
count_in (a ∷ s) b = counted a b + count_in s b

abbrev pop : ℕ → List ℕ → Option ℕ × List ℕ
pop zero s = (none, s)
pop (suc n) [] = (none, [])
pop (suc n) (a ∷ s) = (some a, s)

pop-some :
    (choice a b : ℕ) (s s' : List ℕ)
    → pop choice s ≡ (some a, s')
    → counted a b + count_in s' b ≤ count_in s b
pop-some zero a b s s' h = cc
pop-some (suc n) a b [] s' h = cc
pop-some (suc n) a b (x ∷ s) s' h =
    let e : some x ≡ some a = ap (λ (p : Option ℕ × List ℕ). p.0) h in
    let f : s ≡ s' = ap (λ (p : Option ℕ × List ℕ). p.1) h in ground (arith, e, f)

pop-none : (choice b : ℕ) (s s' : List ℕ) → pop choice s ≡ (none, s') → count_in s' b ≤ count_in s b
pop-none zero b s s' h = let f : s ≡ s' = ap (λ (p : Option ℕ × List ℕ). p.1) h in ground (arith, f)
pop-none (suc n) b [] s' h =
    let f : [] ≡ s' = ap (λ (p : Option ℕ × List ℕ). p.1) h in ground (arith, f)
pop-none (suc n) b (x ∷ s) s' h = cc

abbrev stack : Pool
stack = record {
  State = List ℕ;
  empty = [];
  put = λ a s. a ∷ s;
  get = pop;
  count = count_in;
  count-empty = λ b. refl;
  count-put = λ a b s. omega arith;
  count-get_some = pop-some;
  count-get_none = pop-none;
}

abbrev stored : Inflate
stored = record {
  Buffered = ℕ;
  new_buffered = λ rc. rc;
  reset_buffered = λ b rc. rc;
  Flate = ℕ;
  new_flate = 0;
  reset_flate = λ f. 0;
  read_flate = λ len b f. ((codes "<p>", none), (b, f + len));
  close_flate = λ f. none;
  reset_buffered_lem = λ b rc. refl;
  reset_flate_lem = λ f. refl;
}

-- Stream 7 is read and closed, and closed once more; stream 8 takes its reader from the pool.
abbrev one_open : Readers stack stored
one_open = record {
  cell =
      λ b. if 0 == b then some (record { reader = 7; closer = some 7; flate_reader = 0 }) else none;
  next = 1;
  pool = [];
  closed_streams = [];
}

made : new_deflate_reader stack stored 1 7 (no_readers stack stored) ≡ some (one_open, 0)
unfolding new_deflate_reader
made = refl

abbrev one_read : Readers stack stored
one_read = record {
  cell = λ b.
      if 0 == b
      then some (record { reader = 7; closer = some 7; flate_reader = 3 })
      else one_open.cell b;
  next = 1;
  pool = [];
  closed_streams = [];
}

abbrev one_closed : Readers stack stored
one_closed = record {
  cell = λ b.
      if 0 == b
      then some (record { reader = 7; closer = none; flate_reader = 3 })
      else one_read.cell b;
  next = 1;
  pool = 0 ∷ [];
  closed_streams = 7 ∷ [];
}

one_closed-Reach : Reach one_closed
unfolding new_deflate_reader read close
one_closed-Reach =
    later
      (later (later (later start (creates 1 7 made)) (reads 0 3 {w' = one_read} refl))
        (closes 0 {w' = one_closed} refl))
      (closes 0 {w' = one_closed} refl)

new_deflate_reader-IsNew_example :
    (w' : Readers stack stored) × (a : ℕ) × (new_deflate_reader stack stored 1 8 one_closed
      ≡ some (w', a))
    × IsNew 8 one_closed w' a
new_deflate_reader-IsNew_example = new_deflate_reader-IsNew 1 8 one_closed one_closed-Reach
