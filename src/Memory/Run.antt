-- ===== src/Memory/Run.antt =====
-- A call on the volatile buffer: it returns, it panics, its behaviour is undefined, or it runs on.
use ring_buffer.Prelude.{Option, none, some}

-- `undefined` is a raw pointer that leaves the data section. `unfinished` is no value of the program:
-- a loop was given too little fuel.
pub data Run {ℓ} (A : Type ℓ) : Type ℓ where
  returns : A → Run A
  panic : Run A
  undefined : Run A
  unfinished : Run A

infixl 5 ◌>>=◌
abbrev pub ◌>>=◌ {ℓ κ} : {A : Type ℓ} {B : Type κ} → Run A → (A → Run B) → Run B
returns a >>= f = f a
panic >>= f = panic
undefined >>= f = undefined
unfinished >>= f = unfinished

-- An index in bounds, or the panic of one that is not.
abbrev pub or_panic {ℓ} : {A : Type ℓ} → Option A → Run A
or_panic none = panic
or_panic (some a) = returns a

-- A raw read inside the data section, or the undefined behaviour of one that leaves it.
abbrev pub or_undefined {ℓ} : {A : Type ℓ} → Option A → Run A
or_undefined none = undefined
or_undefined (some a) = returns a
