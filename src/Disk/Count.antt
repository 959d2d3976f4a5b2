-- ===== src/Disk/Count.antt =====
-- demo/demo-fatfs/src/backend/rw_count.rs: a backend that counts the calls of the one below, in 64 bits.
use unico.Common.{ℕ, ◌+◌, Bool, if◌then◌else◌, ltb, ◌^◌}
use unico.Disk.Io.{Io, done, error, panicked, Op, Bytes, SeekFrom, Backend}

pub record RwCount (B : Type 0) : Type 0 where
  pub backend : B
  pub read_count : ℕ
  pub write_count : ℕ
  pub seek_count : ℕ

unfoldable pub new : {B : Type 0} → B → RwCount B
new backend = record { backend = backend; read_count = 0; write_count = 0; seek_count = 0 }

module _ {ImagePath B : Type 0} (b : Backend ImagePath B) where
  abbrev pub below : {A : Type 0} → Op B A → Op (RwCount B) A
  below m s = let (r, t) = m s.backend in (r, record s { backend = t })

  -- The call of the backend below, after `+= 1` on a count of 64 bits; a count that
  -- overflows panics before that call, as in a build with overflow checks.
  abbrev counted : {A : Type 0} → ℕ → Op B A → RwCount B → Op (RwCount B) A
  counted n m t s = if ltb (n + 1) (2 ^ 64) then below m t else (panicked, s)

  unfoldable pub read : ℕ → Op (RwCount B) Bytes
  read n s = counted s.read_count (b.read n) (record s { read_count = s.read_count + 1 }) s

  unfoldable pub write : Bytes → Op (RwCount B) ℕ
  write buf s = counted s.write_count (b.write buf) (record s { write_count = s.write_count + 1 }) s

  unfoldable pub flush : Op (RwCount B) (Unit {0})
  flush = below b.flush

  unfoldable pub real_flush : Op (RwCount B) (Unit {0})
  real_flush = below b.real_flush

  unfoldable pub seek : SeekFrom → Op (RwCount B) ℕ
  seek pos s = counted s.seek_count (b.seek pos) (record s { seek_count = s.seek_count + 1 }) s

  unfoldable pub stream_position : Op (RwCount B) ℕ
  stream_position = below b.stream_position

  unfoldable pub open_image : ImagePath → Io (RwCount B)
  open_image path = elim (b.open_image path) [
    | done backend ↦ done (new backend)
    | error e ↦ error e
    | panicked ↦ panicked
  ]

  unfoldable pub initialise : Io (B × Bool) → Op (RwCount B) (Unit {0}) → Io (RwCount B)
  initialise (done (backend, init_called)) init =
      let (r, s) = init (new backend) in
      if init_called
      then elim r [ done _ ↦ done s | error e ↦ error e | panicked ↦ panicked ]
      else done (new backend)
  initialise (error e) init = error e
  initialise panicked init = panicked

  unfoldable pub create : ImagePath → ℕ → Op (RwCount B) (Unit {0}) → Io (RwCount B)
  create path size init = initialise (b.create path size) init

  unfoldable pub create_new : ImagePath → ℕ → Op (RwCount B) (Unit {0}) → Io (RwCount B)
  create_new path size init = initialise (b.create_new path size) init
