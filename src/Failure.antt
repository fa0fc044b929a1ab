-- ===== src/Failure.antt =====
-- The error codes of zupt-5.2.10/include/zupt.h (zupt_error_t) and the results of what may fail.

pub data ZuptError : Type 0 where
  io : ZuptError
  corrupt : ZuptError
  bad_magic : ZuptError
  bad_version : ZuptError
  bad_checksum : ZuptError
  nomem : ZuptError
  overflow : ZuptError
  invalid : ZuptError
  not_found : ZuptError
  unsupported : ZuptError
  auth_fail : ZuptError

-- ZUPT_OK with what the routine stores, or an error code.
pub data Result {ℓ} (A : Type ℓ) : Type ℓ where
  ok : A → Result A
  err : ZuptError → Result A

infixl 5 ◌>>=◌
abbrev pub ◌>>=◌ {ℓ κ} : {A : Type ℓ} {B : Type κ} → Result A → (A → Result B) → Result B
ok a >>= f = f a
err e >>= f = err e
