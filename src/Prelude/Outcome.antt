-- ===== src/Prelude/Outcome.antt =====
-- The outcome of a Go function that returns an error or that can panic.
use mathlib.Core.Bool.{Bool, true, false}

-- The error values of the program.
pub data Error : Type 0 where
  corrupt_record : Error
  wal_truncated_header wal_truncated_payload wal_truncated_checksum : Error
  wal_corrupt_record wal_closed : Error
  filter_too_small footer_too_small footer_corrupt : Error
  read_eof read_unexpected_eof varint_overflow : Error
  empty_key_or_value batch_empty_key batch_nil_value : Error

-- `panic` is a run-time panic, such as a slice index out of range.
pub data Result {ℓ} (A : Type ℓ) : Type ℓ where
  ok : A → Result A
  err : Error → Result A
  panic : Result A

infixl 5 ◌>>=◌ ◌>>◌
abbrev pub ◌>>=◌ {ℓ κ} : {A : Type ℓ} {B : Type κ} → Result A → (A → Result B) → Result B
ok a >>= f = f a
err e >>= f = err e
panic >>= f = panic

abbrev pub ◌>>◌ {ℓ} : {B : Type ℓ} → Result (Unit {0}) → Result B → Result B
m >> k = m >>= λ _. k

-- `if bad { return e }`
abbrev pub reject : Bool → Error → Result (Unit {0})
reject true e = err e
reject false e = ok tt

-- A run-time check of the language: it panics unless the test holds.
abbrev pub demand : Bool → Result (Unit {0})
demand true = ok tt
demand false = panic
