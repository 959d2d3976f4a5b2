-- ===== src/Disk/Io.antt =====
-- Input and output over a state: results as values, and the interface that the demo's backends share.
use unico.Common.{ℕ, ◌+◌, ◌-◌, Bool, ◌&&◌, leb, ◌==◌, ltb, if◌then◌else◌}

pub data Io (A : Type 0) : Type 0 where
  done : A → Io A
  error : ℕ → Io A
  panicked : Io A

-- An operation on `&mut self`: what it changed stays changed when it fails.
abbrev pub Op : Type 0 → Type 0 → Type 0
Op S A = S → Io A × S

module _ {S : Type 0} where
  abbrev pub pure : {A : Type 0} → A → Op S A
  pure a s = (done a, s)

  abbrev pub panic : {A : Type 0} → Op S A
  panic s = (panicked, s)

  abbrev pub and_then : {A B : Type 0} → Io A × S → (A → Op S B) → Io B × S
  and_then (done a, s) f = f a s
  and_then (error e, s) f = (error e, s)
  and_then (panicked, s) f = (panicked, s)

  infixl 5 ◌>>=◌ ◌>>◌
  abbrev pub ◌>>=◌ : {A B : Type 0} → Op S A → (A → Op S B) → Op S B
  (m >>= f) s = and_then (m s) f

  abbrev pub ◌>>◌ : {A B : Type 0} → Op S A → Op S B → Op S B
  (m >> n) s = and_then (m s) (λ _. n)

  abbrev pub get : Op S S
  get s = (done s, s)

  abbrev pub modify : (S → S) → Op S (Unit {0})
  modify f s = (done tt, f s)

-- A byte slice.
pub record Bytes : Type 0 where
  pub len : ℕ
  pub at : ℕ → ℕ

-- `&src[first..first + n]`: out of range is a panic.
abbrev pub slice : {S : Type 0} → Bytes → ℕ → ℕ → Op S Bytes
slice src first n =
    if leb (first + n) src.len
    then pure (record { len = n; at = λ i. src.at (first + i) })
    else panic

-- `&src[first..]`
abbrev pub slice_from : {S : Type 0} → Bytes → ℕ → Op S Bytes
slice_from src first =
    if leb first src.len
    then pure (record { len = src.len - first; at = λ i. src.at (first + i) })
    else panic

abbrev pub paste : Bytes → ℕ → Bytes → Bytes
paste dst first src = record dst {
  at = λ i. if leb first i && ltb i (first + src.len) then src.at (i - first) else dst.at i;
}

-- `dst[first..first + n].copy_from_slice(src)`: a length other than `n` is a panic.
abbrev pub copy_from_slice : {S : Type 0} → Bytes → ℕ → ℕ → Bytes → Op S Bytes
copy_from_slice dst first n src =
    if leb (first + n) dst.len && src.len == n then pure (paste dst first src) else panic

-- The offset of `End` and `Current` is an `i64`, given by its bits.
pub data SeekFrom : Type 0 where
  start : ℕ → SeekFrom
  end : ℕ → SeekFrom
  current : ℕ → SeekFrom

-- `Backend` with `Read`, `Write` and `Seek`. The initialiser given to `create` only notes that it was
-- called; the flag of the result says whether it was.
pub record Backend (ImagePath B : Type 0) : Type 0 where
  pub open_image : ImagePath → Io B
  pub create : ImagePath → ℕ → Io (B × Bool)
  pub create_new : ImagePath → ℕ → Io (B × Bool)
  pub real_flush : Op B (Unit {0})
  pub read : ℕ → Op B Bytes
  pub read_exact : ℕ → Op B Bytes
  pub write : Bytes → Op B ℕ
  pub write_all : Bytes → Op B (Unit {0})
  pub flush : Op B (Unit {0})
  pub seek : SeekFrom → Op B ℕ
  pub stream_position : Op B ℕ
