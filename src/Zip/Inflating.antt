-- ===== src/Zip/Inflating.antt =====
-- internal/vfs/zip/deflate_reader.go: readers that inflate a stream, which a pool keeps after their
-- Close for the next stream. Readers are shared by pointer: they are addresses into a heap. The
-- pool (sync.Pool), the buffered reader and the inflating reader of the standard library are
-- parameters; a stream is a number.
use gitlab_pages_mirror.Common.{
  ℕ, suc, ◌+◌, ◌≤◌, ◌<◌, Text, Bool, true, false, ◌≡◌, Option, none, some, List, [], ◌∷◌, ◌==◌,
  if◌then◌else◌, is_some,
}
pub mod Writes
pub mod Pooled
pub mod Tests

-- One item more or none.
abbrev pub counted : ℕ → ℕ → ℕ
counted a b = if a == b then 1 else 0

-- sync.Pool: Get gives an arbitrary item and removes it, or nothing, by a choice; items may vanish.
-- `count` says how often an item is in the pool.
pub record Pool : Type 1 where
  pub State : Type 0
  pub empty : State
  pub put : ℕ → State → State
  pub get : ℕ → State → Option ℕ × State
  pub count : State → ℕ → ℕ
  pub count-empty : (b : ℕ) → count empty b ≡ 0
  pub count-put : (a b : ℕ) (s : State) → count (put a s) b ≤ counted a b + count s b
  pub count-get_some :
      (choice a b : ℕ) (s s' : State)
      → get choice s ≡ (some a, s')
      → counted a b + count s' b ≤ count s b
  pub count-get_none :
      (choice b : ℕ) (s s' : State) → get choice s ≡ (none, s') → count s' b ≤ count s b

-- bufio.Reader over a stream and the reader of compress/flate, which reads through it. Both are
-- documented to be like new ones after a Reset.
pub record Inflate : Type 1 where
  pub Buffered : Type 0
  pub new_buffered : ℕ → Buffered
  pub reset_buffered : Buffered → ℕ → Buffered
  pub Flate : Type 0
  pub new_flate : Flate
  pub reset_flate : Flate → Flate
  pub read_flate : ℕ → Buffered → Flate → (Text × Option ℕ) × (Buffered × Flate)
  pub close_flate : Flate → Option ℕ
  pub reset_buffered_lem : (b : Buffered) (rc : ℕ) → reset_buffered b rc ≡ new_buffered rc
  pub reset_flate_lem : (f : Flate) → reset_flate f ≡ new_flate

pub data IoError : Type 0 where
  closed_reader : IoError
  flate_error : ℕ → IoError

abbrev pub flate_result : Option ℕ → Option IoError
flate_result none = none
flate_result (some e) = some (flate_error e)

module _ (P : Pool) (I : Inflate) where
  open P use {State, empty, put, get}
  open I use {
    Buffered, new_buffered, reset_buffered, Flate, new_flate, reset_flate, read_flate, close_flate,
  }

  pub record DeflateReader : Type 0 where
    pub reader : Buffered
    pub closer : Option ℕ
    pub flate_reader : Flate

  -- The heap of the readers, the pool, and the streams that were closed, the latest first.
  pub record Readers : Type 0 where
    pub cell : ℕ → Option DeflateReader
    pub next : ℕ
    pub pool : State
    pub closed_streams : List ℕ

  abbrev pub update : (ℕ → Option DeflateReader) → ℕ → DeflateReader → ℕ → Option DeflateReader
  update f a r b = if a == b then some r else f b

  abbrev pub store : ℕ → DeflateReader → Readers → Readers
  store a r w = record w { cell = update w.cell a r }

  abbrev pub no_readers : Readers
  no_readers = record { cell = λ a. none; next = 0; pool = empty; closed_streams = [] }

  -- Read of the reader at `a`, with the advance of its buffer and its inflating reader.
  unfoldable pub read_cell :
      ℕ → ℕ → Readers → DeflateReader → Option ℕ → Readers × (Text × Option IoError)
  read_cell a len w r none = (w, ([], some closed_reader))
  read_cell a len w r (some rc) =
      let ((bytes, e), (buffered, flate)) = read_flate len r.reader r.flate_reader in
      (store a (record r { reader = buffered; flate_reader = flate }) w, (bytes, flate_result e))

  -- A pointer that the heap does not know is a panic.
  unfoldable pub read_at :
      ℕ → ℕ → Readers → Option DeflateReader → Option (Readers × (Text × Option IoError))
  unfolding read_cell
  read_at a len w none = none
  read_at a len w (some r) = some (read_cell a len w r r.closer)

  unfoldable pub read : ℕ → ℕ → Readers → Option (Readers × (Text × Option IoError))
  unfolding read_at
  read a len w = read_at a len w (w.cell a)

  -- The inflating reader is closed first; then the stream, and the reader goes to the pool.
  unfoldable pub close_cell : ℕ → Readers → DeflateReader → Option ℕ → Readers × Option IoError
  close_cell a w r none = (w, some closed_reader)
  close_cell a w r (some rc) = (
    record (store a (record r { closer = none }) w) {
      pool = put a w.pool;
      closed_streams = rc ∷ w.closed_streams;
    },
    flate_result (close_flate r.flate_reader),
  )

  unfoldable pub close_at : ℕ → Readers → Option DeflateReader → Option (Readers × Option IoError)
  unfolding close_cell
  close_at a w none = none
  close_at a w (some r) = some (close_cell a w r r.closer)

  unfoldable pub close : ℕ → Readers → Option (Readers × Option IoError)
  unfolding close_at
  close a w = close_at a w (w.cell a)

  unfoldable pub reset : ℕ → DeflateReader → DeflateReader
  reset rc r = record {
    reader = reset_buffered r.reader rc;
    closer = some rc;
    flate_reader = reset_flate r.flate_reader;
  }

  abbrev pub fresh : ℕ → DeflateReader
  fresh rc = record { reader = new_buffered rc; closer = some rc; flate_reader = new_flate }

  unfoldable pub reuse : ℕ → ℕ → Readers → Option DeflateReader → Option (Readers × ℕ)
  unfolding reset
  reuse rc a w none = none
  reuse rc a w (some r) = some (store a (reset rc r) w, a)

  unfoldable pub with_pooled : ℕ → Readers → Option ℕ × State → Option (Readers × ℕ)
  unfolding reuse
  with_pooled rc w (some a, pool) = reuse rc a (record w { pool = pool }) (w.cell a)
  with_pooled rc w (none, pool) =
      some (record (store w.next (fresh rc) w) { next = suc w.next; pool = pool }, w.next)

  unfoldable pub new_deflate_reader : ℕ → ℕ → Readers → Option (Readers × ℕ)
  unfolding with_pooled
  new_deflate_reader choice rc w = with_pooled rc w (get choice w.pool)

  abbrev open_cell : Option DeflateReader → Bool
  open_cell none = false
  open_cell (some r) = is_some r.closer

  -- Whether the reader at `a` has a stream, which is what Read and Close test.
  unfoldable pub is_open : Readers → ℕ → Bool
  is_open w a = open_cell (w.cell a)
