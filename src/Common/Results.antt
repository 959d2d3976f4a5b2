-- ===== src/Common/Results.antt =====
-- Results of allocating code: a value, `AllocError`, or a panic; where a definition
-- says so, the panic stands for undefined behaviour too.
use mathlib.Core.Option.{Option, none, some}

pub data Fallible {ℓ} (A : Type ℓ) : Type ℓ where
  ok : A → Fallible A
  alloc_error : Fallible A
  panicked : Fallible A

infixl 5 ◌>>=◌
abbrev pub ◌>>=◌ {ℓ κ} : {A : Type ℓ} {B : Type κ} → Fallible A → (A → Fallible B) → Fallible B
ok a >>= f = f a
alloc_error >>= f = alloc_error
panicked >>= f = panicked

-- `.ok_or(AllocError)?`
abbrev pub or_alloc_error {ℓ} : {A : Type ℓ} → Option A → Fallible A
or_alloc_error none = alloc_error
or_alloc_error (some a) = ok a

-- `.unwrap()`
abbrev pub unwrap {ℓ} : {A : Type ℓ} → Option A → Fallible A
unwrap none = panicked
unwrap (some a) = ok a
