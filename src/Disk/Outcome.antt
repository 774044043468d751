-- ===== src/Disk/Outcome.antt =====
-- `Result<T, PersistentError>` of src/disk/persistent.rs, with the ways in which a call may fail
-- to return one.
use ring_buffer.Prelude.{ℕ, Option, none, some}

-- An `io::Error` is the number of its kind.
pub data PersistentError : Type 0 where
  io_error : ℕ → PersistentError
  invalid_buffer : PersistentError
  invalid_record : PersistentError

-- `panic` is an unwinding thread: it poisons the locks that it holds, and every later call panics
-- on them. `undefined` is the behaviour of a call of `read` of the volatile buffer with a raw
-- pointer that leaves its data section. `unfinished` is no value of the program: a loop was given too
-- little fuel.
pub data Outcome {ℓ} (A : Type ℓ) : Type ℓ where
  ok : A → Outcome A
  err : PersistentError → Outcome A
  panic : Outcome A
  undefined : Outcome A
  unfinished : Outcome A

infixl 5 ◌>>=◌ ◌>>◌
abbrev pub ◌>>=◌ {ℓ κ} : {A : Type ℓ} {B : Type κ} → Outcome A → (A → Outcome B) → Outcome B
ok a >>= f = f a
err e >>= f = err e
panic >>= f = panic
undefined >>= f = undefined
unfinished >>= f = unfinished

abbrev pub ◌>>◌ {ℓ} : {B : Type ℓ} → Outcome (Unit {0}) → Outcome B → Outcome B
m >> k = m >>= λ _. k

-- An access in bounds, or the panic of one that is not.
abbrev pub or_panic {ℓ} : {A : Type ℓ} → Option A → Outcome A
or_panic none = panic
or_panic (some a) = ok a

-- What the operating system answers to a call: success, or an error, which `?` passes on.
abbrev pub io_result : Option ℕ → Outcome (Unit {0})
io_result none = ok tt
io_result (some e) = err (io_error e)

-- The call returned a `Result`: it neither panicked nor ran on.
abbrev pub Returns {ℓ} : {A : Type ℓ} → Outcome A → Type 0
Returns (ok a) = Unit {0}
Returns (err e) = Unit {0}
Returns panic = ⊥
Returns undefined = ⊥
Returns unfinished = ⊥

pub io_result-Returns {ℓ} :
    {A : Type ℓ} (io : Option ℕ) (a : A) → Returns (io_result io >>= λ _. ok a)
io_result-Returns none a = tt
io_result-Returns (some e) a = tt
