-- ===== src/Zip/Inflating/Pooled.antt =====
-- internal/vfs/zip/deflate_reader.go: what the pool holds, whatever the owners of readers do.
use gitlab_pages_mirror.Common.{
  ℕ, suc, ◌+◌, ◌≤◌, ◌<◌, Text, Bool, true, false, ◌≡◌, refl, sym, ◌∙◌, subst, Option, none, some,
  ◌==◌, ltb, ltb→lt, arith, inl, inr, Bool-cases,
}
use gitlab_pages_mirror.Zip.Inflating.{
  Pool, Inflate, IoError, DeflateReader, Readers, counted, update, store, no_readers, read_cell,
  read_at, read, close_cell, close_at, close, reset, fresh, reuse, with_pooled, new_deflate_reader,
  is_open,
}
use gitlab_pages_mirror.Zip.Inflating.Writes.{
  IsClosed, IsPooled, open_ne, store-IsPooled, pooled, taken-IsPooled, made-IsPooled,
  no_readers-IsPooled,
}

clash : {b : Bool} → b ≡ true → b ≡ false → ⊥
clash h k = cc

module _ {P : Pool} {I : Inflate} where
  open P use {State, put, get, count}

  -- What the owners of readers do, each with any pointer it has ever had.
  pub data Step : Readers P I → Readers P I → Type 0 where
    creates :
        (choice rc : ℕ) {w w' : Readers P I} {a : ℕ}
        → new_deflate_reader P I choice rc w ≡ some (w', a)
        → Step w w'
    reads :
        (a len : ℕ) {w w' : Readers P I} {reply : Text × Option IoError}
        → read P I a len w ≡ some (w', reply)
        → Step w w'
    closes :
        (a : ℕ) {w w' : Readers P I} {e : Option IoError} → close P I a w ≡ some (w', e) → Step w w'

  pub data Reach : Readers P I → Type 0 where
    start : Reach (no_readers P I)
    later : {w w' : Readers P I} → Reach w → Step w w' → Reach w'

  some_first {ℓ} :
      {A : Type ℓ} (x : Readers P I × A) (w' : Readers P I) (y : A)
      → IsPooled x.0
      → some x ≡ some (w', y)
      → IsPooled w'
  some_first {A = A} x w' y i h =
      subst (λ (o : Option (Readers P I × A)). elim o [ none ↦ Unit {0} | some z ↦ IsPooled z.0 ]) h
        i

  read_cell-IsPooled :
      (a len : ℕ) (w : Readers P I) (r : DeflateReader P I) (c : Option ℕ)
      → w.cell a ≡ some r
      → r.closer ≡ c
      → IsPooled w
      → IsPooled (read_cell P I a len w r c).0
  unfolding read_cell
  read_cell-IsPooled a len w r none h k i = i
  read_cell-IsPooled a len w r (some rc) h k i = store-IsPooled w a rc r _ h k i

  read_at-IsPooled :
      (a len : ℕ) (w w' : Readers P I) (reply : Text × Option IoError)
      (o : Option (DeflateReader P I))
      → w.cell a ≡ o
      → IsPooled w
      → read_at P I a len w o ≡ some (w', reply)
      → IsPooled w'
  unfolding read_at
  read_at-IsPooled a len w w' reply none h i e = cc
  read_at-IsPooled a len w w' reply (some r) h i e =
      some_first _ w' reply (read_cell-IsPooled a len w r r.closer h refl i) e

  absent :
      (w : Readers P I) (a b rc : ℕ) (r : DeflateReader P I)
      → w.cell a ≡ some r
      → r.closer ≡ some rc
      → IsPooled w
      → counted a b + count w.pool b ≤ 1
  absent w a b rc r h k i = elim (Bool-cases (a == b)) [
    | inl e ↦ elim (Bool-cases (ltb 0 (count w.pool b))) [
      | inl m ↦
          absurd (clash e (open_ne w a b rc r h k (i.resting b (ltb→lt 0 (count w.pool b) m))))
      | inr m ↦ ground arith
    ]
    | inr e ↦ ground (arith, i.once b)
  ]

  once_put :
      (w : Readers P I) (a b : ℕ)
      → count w.pool b ≤ 1
      → counted a b + count w.pool b ≤ 1
      → count (put a w.pool) b ≤ 1
  once_put w a b h k = omega (arith, P.count-put a b w.pool)

  older :
      (a b : ℕ) (w : Readers P I)
      → (a == b) ≡ false
      → 0 < count (put a w.pool) b
      → 0 < count w.pool b
  older a b w e m = ground (arith, P.count-put a b w.pool)

  -- The pool gains the reader that is closed here, which it did not have.
  close_cell-IsPooled :
      (a : ℕ) (w : Readers P I) (r : DeflateReader P I) (c : Option ℕ)
      → w.cell a ≡ some r
      → r.closer ≡ c
      → IsPooled w
      → IsPooled (close_cell P I a w r c).0
  unfolding close_cell
  close_cell-IsPooled a w r none h k i = i
  close_cell-IsPooled a w r (some rc) h k i =
      let s : DeflateReader P I = record r { closer = none } in
      let stored = store-IsPooled w a rc r s h k i in
      record {
        once = λ b. once_put w a b (i.once b) (absent w a b rc r h k i);
        resting = λ b m. elim (Bool-cases (a == b)) [
          | inl e ↦ record { reader = s; here = rw e refl; closed = refl }
          | inr e ↦
              let c = stored.resting b (older a b w e m) in
              record { reader = c.reader; here = c.here; closed = c.closed }
        ];
        unused = stored.unused;
      }

  close_at-IsPooled :
      (a : ℕ) (w w' : Readers P I) (e : Option IoError) (o : Option (DeflateReader P I))
      → w.cell a ≡ o
      → IsPooled w
      → close_at P I a w o ≡ some (w', e)
      → IsPooled w'
  unfolding close_at
  close_at-IsPooled a w w' e none h i k = cc
  close_at-IsPooled a w w' e (some r) h i k =
      some_first _ w' e (close_cell-IsPooled a w r r.closer h refl i) k

  -- A new reader and the heap around it: the pointer was open for no one, what it leads to now is
  -- what a new allocation holds, and the rest of the heap is as before.
  pub record IsNew (rc : ℕ) (w w' : Readers P I) (a : ℕ) : Type 0 where
    pub unowned : is_open P I w a ≡ false
    pub fresh : w'.cell ≡ update P I w.cell a (fresh P I rc)
    pub undisturbed : w'.closed_streams ≡ w.closed_streams
    pub pooled : IsPooled w'

  reset_lem : (rc : ℕ) (r : DeflateReader P I) → reset P I rc r ≡ fresh P I rc
  unfolding reset
  reset_lem rc r = rw (I.reset_buffered_lem r.reader rc, I.reset_flate_lem r.flate_reader) refl

  is_open-IsClosed : (w : Readers P I) (a : ℕ) → IsClosed w a → is_open P I w a ≡ false
  unfolding is_open
  is_open-IsClosed w a c = rw (c.here, c.closed) refl

  is_open-unused : (w : Readers P I) (a : ℕ) → w.cell a ≡ none → is_open P I w a ≡ false
  unfolding is_open
  is_open-unused w a h = rw h refl

  with_pooled-IsNew :
      (choice rc : ℕ) (w : Readers P I) (g : Option ℕ × State)
      → get choice w.pool ≡ g
      → IsPooled w
      → (w' : Readers P I) × (a : ℕ) × (with_pooled P I rc w g ≡ some (w', a)) × IsNew rc w w' a
  unfolding with_pooled reuse
  with_pooled-IsNew choice rc w (some a, pool) h i =
      let c = i.resting a (pooled choice a w pool h) in
      let s = reset P I rc c.reader in
      (
        store P I a s (record w { pool = pool }),
        a,
        rw c.here refl,
        record {
          unowned = is_open-IsClosed w a c;
          fresh = rw (reset_lem rc c.reader) refl;
          undisturbed = refl;
          pooled = taken-IsPooled choice rc a w pool s h i;
        },
      )
  with_pooled-IsNew choice rc w (none, pool) h i = (
    record (store P I w.next (fresh P I rc) w) { next = suc w.next; pool = pool },
    w.next,
    refl,
    record {
      unowned = is_open-unused w w.next (i.unused w.next (omega arith));
      fresh = refl;
      undisturbed = refl;
      pooled = made-IsPooled choice rc w pool (fresh P I rc) h i;
    },
  )

  Step-IsPooled : {w w' : Readers P I} → Step w w' → IsPooled w → IsPooled w'
  unfolding new_deflate_reader read close
  Step-IsPooled {w} (creates choice rc {w' = w'} {a = a} e) i =
      let (v, b, h, n) = with_pooled-IsNew choice rc w (get choice w.pool) refl i in
      some_first (v, b) w' a n.pooled (sym h ∙ e)
  Step-IsPooled {w} (reads a len {w' = w'} {reply = reply} e) i =
      read_at-IsPooled a len w w' reply (w.cell a) refl i e
  Step-IsPooled {w} (closes a {w' = w'} {e = e} h) i =
      close_at-IsPooled a w w' e (w.cell a) refl i h

  -- Whatever the owners of readers do, also with pointers that they closed before, the pool has
  -- each reader at most once, and only readers that are closed.
  pub Reach-IsPooled : {w : Readers P I} → Reach w → IsPooled w
  Reach-IsPooled start = no_readers-IsPooled
  Reach-IsPooled (later h s) = Step-IsPooled s (Reach-IsPooled h)

  -- In every state that the owners of readers can bring about, newDeflateReader gives a reader that
  -- is open for no one, whether it comes from the pool or not, and that is in the state of a newly
  -- allocated one, and it changes no other reader and closes no stream.
  pub new_deflate_reader-IsNew :
      (choice rc : ℕ) (w : Readers P I)
      → Reach w
      → (w' : Readers P I) × (a : ℕ) × (new_deflate_reader P I choice rc w ≡ some (w', a))
        × IsNew rc w w' a
  unfolding new_deflate_reader
  new_deflate_reader-IsNew choice rc w h =
      with_pooled-IsNew choice rc w (get choice w.pool) refl (Reach-IsPooled h)
