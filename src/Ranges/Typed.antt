-- ===== src/Ranges/Typed.antt =====
-- internal/httprange/http_reader.go and http_ranged_reader.go: the operations on a reader keep the
-- type of its fields.
use gitlab_pages_mirror.Common.{
  ℕ, zero, suc, Text, Bool, true, false, Option, none, some, [], ◌∷◌, ◌≡◌, refl, subst, ok, err,
  Result, ◌++◌, ◌-◌, length, ◌≤◌, arith, inl, inr, Option-cases, Result-cases, if◌then◌else◌,
}
use gitlab_pages_mirror.Common.Int.{ℤ, pos, IsInt64, ◌+64◌, +64-IsInt64}
use gitlab_pages_mirror.Ranges.Resources.{Resource, RangeError, HttpClient, RangeResponse}
use gitlab_pages_mirror.Ranges.Readers.{
  Reader, Whence, ReadEnd, close, seek, seek_to, recycled, read, read_body, read_full, read_more,
  read_sought, ensure_response, ensure_from, set_response, prepare_request, eqz, seek_start,
  seek_current, seek_end, other_whence, range_end, no_error, eof, unexpected_eof, range_failed,
  amount,
}
use gitlab_pages_mirror.Ranges.Bounds.{IsTyped}

pub close-IsTyped : (r : Reader) → IsTyped r → IsTyped (close r)
unfolding close
close-IsTyped r t = record {
  range_start = t.range_start;
  range_size = t.range_size;
  offset = t.offset;
}

moved-IsTyped :
    (r : Reader) (res : Option Text) (target : ℤ)
    → IsTyped r
    → IsInt64 target
    → IsTyped (record r { res = res; offset = target })
moved-IsTyped r res target t i = record {
  range_start = t.range_start;
  range_size = t.range_size;
  offset = i;
}

recycled-IsTyped :
    (b : Bool) (r : Reader) (target : ℤ)
    → IsTyped r
    → IsInt64 target
    → IsTyped (record (recycled b r) { offset = target })
unfolding close
recycled-IsTyped true r target t i = moved-IsTyped r r.res target t i
recycled-IsTyped false r target t i = moved-IsTyped r none target t i

guarded-IsTyped {ℓ} :
    {E : Type ℓ} (b : Bool) (r s : Reader) (e f : E)
    → IsTyped r
    → IsTyped s
    → IsTyped (if◌then◌else◌ {A = Reader × E} b (r, e) (s, f)).0
guarded-IsTyped true r s e f t u = t
guarded-IsTyped false r s e f t u = u

seek_to-IsTyped :
    (target : ℤ) (r : Reader) → IsTyped r → IsInt64 target → IsTyped (seek_to target r).0
unfolding seek_to
seek_to-IsTyped target r t i =
    guarded-IsTyped _ r (record (recycled (eqz target r.offset) r) { offset = target }) _ _ t
      (recycled-IsTyped (eqz target r.offset) r target t i)

pub seek-IsTyped :
    (offset : ℤ) (whence : Whence) (r : Reader)
    → IsTyped r
    → IsInt64 offset
    → IsTyped (seek offset whence r).0
unfolding seek
seek-IsTyped offset seek_start r t i =
    seek_to-IsTyped _ r t (+64-IsInt64 r.range_start offset t.range_start i)
seek-IsTyped offset seek_current r t i =
    seek_to-IsTyped _ r t (+64-IsInt64 r.offset offset t.offset i)
seek-IsTyped offset seek_end r t i = seek_to-IsTyped _ r t (
    +64-IsInt64 (range_end r) offset
      (+64-IsInt64 r.range_start r.range_size t.range_start t.range_size) i)
seek-IsTyped offset other_whence r t i = t

pos-IsInt64 : (m n : ℕ) → m ≤ n → IsInt64 (pos n) → IsInt64 (pos m)
pos-IsInt64 m n h i = record { lower = omega arith; upper = omega (arith, i.upper) }

amount_le : (choice len : ℕ) (body : Text) → amount choice len body ≤ len
amount_le choice len body = ground arith

read_body-IsTyped :
    (choice len : ℕ) (body : Text) (r : Reader)
    → IsTyped r
    → IsInt64 (pos len)
    → IsTyped (read_body choice len body r).2
unfolding read_body
read_body-IsTyped choice len [] r t i = t
read_body-IsTyped choice len (c ∷ body) r t i =
    let n = amount choice len (c ∷ body) in
    moved-IsTyped r _ (r.offset +64 pos n) t (
      +64-IsInt64 r.offset (pos n) t.offset (pos-IsInt64 n len (amount_le choice len (c ∷ body)) i))

-- A step that fails or leaves a reader with a property.
data Leaves (P : Reader → Type 0) : Resource × Result RangeError Reader → Type 0 where
  fails : (resource : Resource) (e : RangeError) → Leaves P (resource, err e)
  leaves : (resource : Resource) (r : Reader) → P r → Leaves P (resource, ok r)

if-Leaves :
    {P : Reader → Type 0} (b : Bool) (x y : Resource × Result RangeError Reader)
    → Leaves P x
    → Leaves P y
    → Leaves P (if b then x else y)
if-Leaves true x y p q = p
if-Leaves false x y p q = q

set_response-IsTyped :
    (res : RangeResponse) (resource : Resource) (r : Reader)
    → IsTyped r
    → Leaves IsTyped (set_response res resource r)
unfolding set_response
set_response-IsTyped res resource r t =
    let kept : Leaves IsTyped (resource, ok (record r { res = some res.body })) =
      leaves resource _ (moved-IsTyped r (some res.body) r.offset t t.offset) in
    search (if-Leaves, fails, kept)

ensure_from-IsTyped :
    (client : HttpClient) (resource : Resource) (r : Reader) (res : Option Text)
    → IsTyped r
    → Leaves IsTyped (ensure_from client resource r res)
unfolding ensure_from
ensure_from-IsTyped client resource r (some body) t = leaves resource r t
ensure_from-IsTyped client resource r none t = elim (Result-cases (prepare_request resource r)) [
  | inr (e, h) ↦ rw (h, ensure_from) (fails resource e)
  | inl (request, h) ↦ elim (Option-cases (client request)) [
    | inl k ↦ rw (h, k, ensure_from) (fails resource _)
    | inr (res, k) ↦ rw (h, k, ensure_from) (set_response-IsTyped res resource r t)
  ]
]

behind_ensure-IsTyped :
    (client : HttpClient) (choice len : ℕ) (resource : Resource) (r : Reader)
    (x : Resource × Result RangeError Reader)
    → IsTyped r
    → IsInt64 (pos (suc len))
    → ensure_from client resource r r.res ≡ x
    → Leaves IsTyped x
    → IsTyped (read client choice (suc len) resource r).1.2
unfolding read ensure_response
behind_ensure-IsTyped client choice len resource r _ t i h (fails resource' e) =
    rw (h, read, ensure_response) t
behind_ensure-IsTyped client choice len resource r _ t i h (leaves resource' r' u) =
    rw (h, read, ensure_response) (read_body-IsTyped choice (suc len) _ r' u i)

pub read-IsTyped :
    (client : HttpClient) (choice len : ℕ) (resource : Resource) (r : Reader)
    → IsTyped r
    → IsInt64 (pos len)
    → IsTyped (read client choice len resource r).1.2
unfolding read
read-IsTyped client choice zero resource r t i = t
read-IsTyped client choice (suc len) resource r t i =
    behind_ensure-IsTyped client choice len resource r _ t i refl
      (ensure_from-IsTyped client resource r r.res t)

abbrev Outcome : Type 0
Outcome = Resource × (Text × ReadEnd × Reader)

some-IsTyped : (o x : Outcome) → IsTyped o.1.2 → some o ≡ some x → IsTyped x.1.2
some-IsTyped o x t h =
    subst (λ (p : Option Outcome). elim p [ none ↦ Unit {0} | some y ↦ IsTyped y.1.2 ]) h t

read_more-IsTyped :
    (go : ℕ → Text → Resource → Reader → Option Outcome) (len : ℕ) (got : Text) (o x : Outcome)
    → ((n : ℕ) (bytes : Text) (resource' : Resource) (r' : Reader)
        → IsTyped r'
        → IsInt64 (pos n)
        → go n bytes resource' r' ≡ some x
        → IsTyped x.1.2)
    → IsTyped o.1.2
    → IsInt64 (pos len)
    → read_more go len got o ≡ some x
    → IsTyped x.1.2
unfolding read_more
read_more-IsTyped go len got (resource, (bytes, no_error, r)) x on t i h =
    on (len - length bytes) (got ++ bytes) resource r t
      (pos-IsInt64 (len - length bytes) len (omega arith) i) h
read_more-IsTyped go len got (resource, (bytes, eof, r)) x on t i h = some-IsTyped _ x t h
read_more-IsTyped go len got (resource, (bytes, unexpected_eof, r)) x on t i h =
    some-IsTyped _ x t h
read_more-IsTyped go len got (resource, (bytes, range_failed e, r)) x on t i h =
    some-IsTyped _ x t h

read_full-IsTyped :
    (client : HttpClient) (choices : ℕ → ℕ) (fuel len : ℕ) (got : Text) (resource : Resource)
    (r : Reader) (x : Resource × (Text × ReadEnd × Reader))
    → IsTyped r
    → IsInt64 (pos len)
    → read_full client choices fuel len got resource r ≡ some x
    → IsTyped x.1.2
unfolding read_full
read_full-IsTyped client choices fuel zero got resource r x t i h =
    some-IsTyped (resource, (got, no_error, r)) x t h
read_full-IsTyped client choices zero (suc len) got resource r x t i h = cc
read_full-IsTyped client choices (suc fuel) (suc len) got resource r x t i h =
    read_more-IsTyped (read_full client choices fuel) (suc len) got
      (read client (choices fuel) (suc len) resource r) x
      (λ n bytes resource' r' u j k.
        read_full-IsTyped client choices fuel n bytes resource' r' x u j k)
      (read-IsTyped client (choices fuel) (suc len) resource r t i) i h

pub read_sought-IsTyped :
    (client : HttpClient) (choices : ℕ → ℕ) (len : ℕ) (resource : Resource)
    (p : Reader × Result RangeError ℤ) (x : Outcome)
    → IsTyped p.0
    → IsInt64 (pos len)
    → read_sought client choices len resource p ≡ some x
    → IsTyped x.1.2
unfolding read_sought
read_sought-IsTyped client choices len resource (r, err e) x t i h = some-IsTyped _ x t h
read_sought-IsTyped client choices len resource (r, ok n) x t i h =
    read_full-IsTyped client choices len len [] resource r x t i h
