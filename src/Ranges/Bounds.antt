-- ===== src/Ranges/Bounds.antt =====
-- internal/httprange/http_reader.go: the range that is asked for lies in the resource, also where
-- the sum of the start and the size of a reader's range wraps around.
use gitlab_pages_mirror.Common.{
  ◌+◌, ◌-◌, Bool, true, false, ◌||◌, not, ◌≡◌, refl, ok, err, arith, ap, sym, ◌∙◌, if◌then◌else◌,
}
use gitlab_pages_mirror.Common.Int.{
  ℤ, pos, negsuc, pos_part, neg_part, ltz, ◌≤ℤ◌, ◌<ℤ◌, ◌+ℤ◌, ◌+64◌, IsInt64, +64-IsInt64,
  +64_nonneg,
}
use gitlab_pages_mirror.Ranges.Resources.{invalid_range, Resource, RangeRequest, range_request}
use gitlab_pages_mirror.Ranges.Readers.{Reader, range_end, prepare_request}

-- The fields of a reader are numbers of type int64.
pub record IsTyped (r : Reader) : Type 0 where
  pub range_start : IsInt64 r.range_start
  pub range_size : IsInt64 r.range_size
  pub offset : IsInt64 r.offset

-- A range that begins at the reader's offset and lies in its range and in the resource, whose
-- bounds are exact.
pub record IsInRange (resource : Resource) (r : Reader) (q : RangeRequest) : Type 0 where
  pub begins : q.first ≡ r.offset
  pub starts : pos 0 ≤ℤ r.range_start
  pub follows : r.range_start ≤ℤ q.first
  pub ordered : q.first ≤ℤ q.last
  pub ends : pos_part q.last + 1 ≡ pos_part r.range_start + pos_part r.range_size
  pub fits : q.last <ℤ resource.size

-- The last byte before an end that is not the first.
before_end : (e : ℤ) → IsInt64 e → pos 0 <ℤ e → (e +64 negsuc 0 ≡ pos (pos_part e - 1))
unfolding ◌+64◌ ◌+ℤ◌
before_end e i h = ground arith

-- What the tests of prepareRequest leave.
record IsTested (resource : Resource) (r : Reader) (q : RangeRequest) : Type 0 where
  start : pos 0 ≤ℤ r.range_start
  size : pos 0 ≤ℤ r.range_size
  within : range_end r ≤ℤ resource.size
  after : r.range_start ≤ℤ r.offset
  before : r.offset <ℤ range_end r
  first : q.first ≡ r.offset
  last : q.last ≡ range_end r +64 negsuc 0

ltz_false : (a b : ℤ) → ltz a b ≡ false → b ≤ℤ a
ltz_false a b h = ground arith

ltz_true : (a b : ℤ) → not (ltz a b) ≡ false → a <ℤ b
ltz_true a b h = ground arith

split_or : (a b : Bool) → (a || b) ≡ false → (a ≡ false) × (b ≡ false)
split_or a b h = ground arith

-- A result behind two guards.
behind_guards {ℓ κ} :
    {E : Type ℓ} {A : Type κ} (a b : Bool) (e f : E) (x y : A)
    → (if a then err e else if b then err f else ok x) ≡ ok y
    → (a ≡ false) × (b ≡ false) × (x ≡ y)
behind_guards true b e f x y h = cc
behind_guards false true e f x y h = cc
behind_guards false false e f x y h = (refl, refl, cc)

prepare_request-IsTested :
    (resource : Resource) (r : Reader) (q : RangeRequest)
    → prepare_request resource r ≡ ok q
    → IsTested resource r q
unfolding prepare_request range_request
prepare_request-IsTested resource r q h =
    let (a, b, c) =
      behind_guards
        (ltz r.range_start (pos 0) || ltz r.range_size (pos 0) || ltz resource.size (range_end r))
        (ltz r.offset r.range_start || not (ltz r.offset (range_end r))) invalid_range invalid_range
        (range_request resource r.offset (range_end r +64 negsuc 0)) q h in
    let (a0, a2) =
      split_or (ltz r.range_start (pos 0) || ltz r.range_size (pos 0))
        (ltz resource.size (range_end r)) a in
    let (a1, a3) = split_or (ltz r.range_start (pos 0)) (ltz r.range_size (pos 0)) a0 in
    let (b0, b1) = split_or (ltz r.offset r.range_start) (not (ltz r.offset (range_end r))) b in
    record {
      start = ltz_false r.range_start (pos 0) a1;
      size = ltz_false r.range_size (pos 0) a3;
      within = ltz_false resource.size (range_end r) a2;
      after = ltz_false r.offset r.range_start b0;
      before = ltz_true r.offset (range_end r) b1;
      first = sym (ap (λ (t : RangeRequest). t.first) c);
      last = sym (ap (λ (t : RangeRequest). t.last) c);
    }

one_part : (a : ℤ) → pos 0 <ℤ a → neg_part a ≡ 0
one_part (pos n) h = refl
one_part (negsuc n) h = absurd (omega arith)

-- Every request that a reader with numbers of type int64 makes asks for a range that begins at
-- its offset and lies inside its own range and inside the resource, and whose end is the exact
-- sum of the start and the size, without wrap-around.
pub prepare_request-IsInRange :
    (resource : Resource) (r : Reader) (q : RangeRequest)
    → IsTyped r
    → prepare_request resource r ≡ ok q
    → IsInRange resource r q
prepare_request-IsInRange resource r q t h =
    let g = prepare_request-IsTested resource r q h in
    let e = range_end r in
    let positive : pos 0 <ℤ e = omega (arith, g.start, g.after, g.before) in
    let last =
      before_end e (+64-IsInt64 r.range_start r.range_size t.range_start t.range_size) positive in
    let exact =
      +64_nonneg r.range_start r.range_size g.start g.size t.range_start t.range_size
        (omega (arith, positive)) in
    let q_last : q.last ≡ pos (pos_part e - 1) = g.last ∙ last in
    let q_pos : pos_part q.last ≡ pos_part e - 1 = ap pos_part q_last in
    let q_neg : neg_part q.last ≡ 0 = ap neg_part q_last in
    let f_pos : pos_part q.first ≡ pos_part r.offset = ap pos_part g.first in
    let f_neg : neg_part q.first ≡ neg_part r.offset = ap neg_part g.first in
    record {
      begins = g.first;
      starts = g.start;
      follows = omega arith;
      ordered = omega arith;
      ends = omega arith;
      fits = omega (arith, g.within, one_part e positive);
    }
