-- ===== src/Zip/Inflating/Writes.antt =====
-- internal/vfs/zip/deflate_reader.go: single writes to the heap of readers, and what the pool holds.
use gitlab_pages_mirror.Common.{
  ℕ, suc, ◌+◌, ◌≤◌, ◌<◌, true, false, ◌≡◌, refl, sym, ◌∙◌, subst, none, some, ◌==◌, ==_iff, ==_refl,
  arith, inl, inr, Bool-cases,
}
use gitlab_pages_mirror.Zip.Inflating.{
  Pool, Inflate, DeflateReader, Readers, counted, store, no_readers,
}

twice : (a b n : ℕ) {k : ℕ} → (a == b) ≡ true → counted a b + n ≤ k → k ≤ 1 → 0 < n → ⊥
twice a b n e h l m = ground arith

below : (a b : ℕ) → suc a ≤ b → (a == b) ≡ false
below a b h = ground arith

at_most : (a b : ℕ) → (a == b) ≡ true → a ≤ b
at_most a b e = ground arith

module _ {P : Pool} {I : Inflate} where
  open P use {State, empty, put, get, count}

  -- A reader that no owner has open.
  pub record IsClosed (w : Readers P I) (a : ℕ) : Type 0 where
    pub reader : DeflateReader P I
    pub here : w.cell a ≡ some reader
    pub closed : reader.closer ≡ none

  -- The pool has each reader at most once, and only readers that are closed.
  pub record IsPooled (w : Readers P I) : Type 0 where
    pub once : (a : ℕ) → count w.pool a ≤ 1
    pub resting : (a : ℕ) → 0 < count w.pool a → IsClosed w a
    pub unused : (a : ℕ) → w.next ≤ a → w.cell a ≡ none

  pub no_readers-IsPooled : IsPooled (no_readers P I)
  no_readers-IsPooled = record {
    once = λ a. omega (arith, P.count-empty a);
    resting = λ a h. absurd (omega (arith, P.count-empty a));
    unused = λ a h. refl;
  }

  no_closer :
      (r s : DeflateReader P I) (rc : ℕ)
      → r.closer ≡ some rc
      → s.closer ≡ none
      → some r ≡ some s
      → ⊥
  no_closer r s rc h k e = cc

  -- A reader that is open is not one that is closed.
  pub open_ne :
      (w : Readers P I) (a b rc : ℕ) (r : DeflateReader P I)
      → w.cell a ≡ some r
      → r.closer ≡ some rc
      → IsClosed w b
      → (a == b) ≡ false
  open_ne w a b rc r h k c = elim (Bool-cases (a == b)) [
    | inl e ↦
        let same : some r ≡ some c.reader =
          sym h ∙ subst (λ x. w.cell x ≡ some c.reader) (sym ((==_iff a b).0 e)) c.here in
        absurd (no_closer r c.reader rc k c.closed same)
    | inr e ↦ e
  ]

  -- A write to another reader leaves a closed one as it is.
  pub store-IsClosed :
      (w : Readers P I) (a b : ℕ) (r : DeflateReader P I)
      → (a == b) ≡ false
      → IsClosed w b
      → IsClosed (store P I a r w) b
  store-IsClosed w a b r h c = record { reader = c.reader; here = rw h c.here; closed = c.closed }

  pub known_used :
      (w : Readers P I) (a b : ℕ) (r : DeflateReader P I)
      → w.cell a ≡ some r
      → IsPooled w
      → w.next ≤ b
      → a ≡ b
      → ⊥
  known_used w a b r h i m e =
      let gone : w.cell a ≡ none = subst (λ x. w.cell x ≡ none) (sym e) (i.unused b m) in cc

  -- A reader that is open is written, while the pool gains nothing.
  pub store-IsPooled :
      (w : Readers P I) (a rc : ℕ) (r s : DeflateReader P I)
      → w.cell a ≡ some r
      → r.closer ≡ some rc
      → IsPooled w
      → IsPooled (store P I a s w)
  store-IsPooled w a rc r s h k i = record {
    once = i.once;
    resting = λ b m. let c = i.resting b m in store-IsClosed w a b s (open_ne w a b rc r h k c) c;
    unused = λ b m. elim (Bool-cases (a == b)) [
      | inl e ↦ absurd (known_used w a b r h i m ((==_iff a b).0 e))
      | inr e ↦ rw e (i.unused b m)
    ];
  }

  pub pooled :
      (choice a : ℕ) (w : Readers P I) (pool : State)
      → get choice w.pool ≡ (some a, pool)
      → 0 < count w.pool a
  pooled choice a w pool h = ground (arith, P.count-get_some choice a a w.pool pool h, ==_refl a)

  left_alone :
      (a b : ℕ) (w : Readers P I) (pool : State) (choice : ℕ)
      → get choice w.pool ≡ (some a, pool)
      → IsPooled w
      → 0 < count pool b
      → (a == b) ≡ false
  left_alone a b w pool choice h i m = elim (Bool-cases (a == b)) [
    | inl e ↦
        absurd (twice a b (count pool b) e (P.count-get_some choice a b w.pool pool h) (i.once b) m)
    | inr e ↦ e
  ]

  -- Taken from the pool, a reader is closed and no longer there.
  pub taken-IsPooled :
      (choice rc a : ℕ) (w : Readers P I) (pool : State) (s : DeflateReader P I)
      → get choice w.pool ≡ (some a, pool)
      → IsPooled w
      → IsPooled (store P I a s (record w { pool = pool }))
  taken-IsPooled choice rc a w pool s h i = record {
    once = λ b. omega (arith, P.count-get_some choice a b w.pool pool h, i.once b);
    resting = λ b m.
        let c = i.resting b (omega (arith, P.count-get_some choice a b w.pool pool h)) in
        let d = store-IsClosed w a b s (left_alone a b w pool choice h i m) c in
        record { reader = d.reader; here = d.here; closed = d.closed };
    unused = λ b m. elim (Bool-cases (a == b)) [
      | inl e ↦
          let c = i.resting a (pooled choice a w pool h) in
          absurd (known_used w a b c.reader c.here i m ((==_iff a b).0 e))
      | inr e ↦ rw e (i.unused b m)
    ];
  }

  next_ne : (w : Readers P I) (b : ℕ) → IsClosed w b → IsPooled w → (w.next == b) ≡ false
  next_ne w b c i = elim (Bool-cases (w.next == b)) [
    | inl e ↦ absurd (known_used w b b c.reader c.here i (at_most w.next b e) refl)
    | inr e ↦ e
  ]

  -- A reader that the heap did not have is closed by no one and not in the pool.
  pub made-IsPooled :
      (choice rc : ℕ) (w : Readers P I) (pool : State) (s : DeflateReader P I)
      → get choice w.pool ≡ (none, pool)
      → IsPooled w
      → IsPooled (record (store P I w.next s w) { next = suc w.next; pool = pool })
  made-IsPooled choice rc w pool s h i = record {
    once = λ b. omega (arith, P.count-get_none choice b w.pool pool h, i.once b);
    resting = λ b m.
        let c = i.resting b (omega (arith, P.count-get_none choice b w.pool pool h)) in
        let d = store-IsClosed w w.next b s (next_ne w b c i) c in
        record { reader = d.reader; here = d.here; closed = d.closed };
    unused = λ b m. rw (below w.next b m) (i.unused b (omega arith));
  }
