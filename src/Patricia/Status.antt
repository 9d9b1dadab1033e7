-- ===== src/Patricia/Status.antt =====
-- src/minpatricia/include/minpatricia/status.h: what an operation of the index returns.
use mathlib.Core.Path.{◌≡◌}
use mathlib.Core.Logic.{◌≢◌}
use mathlib.Core.Option.{Option, none, some}

-- `StatusCode` without `kOk`, which is `Result.ok` here.
pub data StatusCode : Type 0 where
  equal_keys key_too_large unsorted_keys missing_key position_tag : StatusCode
  position_mismatch duplicate_key corrupt_layout nil_record_store nil_node_store : StatusCode

-- `Result<T>`; a `Status` alone is a `Result Unit`. `stuck` is no C++ value: the code read past an
-- array or through a null pointer, or its loop did not end within the rounds given.
pub data Result {ℓ} (A : Type ℓ) : Type ℓ where
  ok : A → Result A
  err : StatusCode → Result A
  stuck : Result A

infixl 5 ◌>>=◌ ◌>>◌
abbrev pub ◌>>=◌ {ℓ κ} : {A : Type ℓ} {B : Type κ} → Result A → (A → Result B) → Result B
ok a >>= f = f a
err e >>= f = err e
stuck >>= f = stuck

abbrev pub ◌>>◌ {ℓ} : {B : Type ℓ} → Result (Unit {0}) → Result B → Result B
m >> k = m >>= λ _. k

pub ok-injective {ℓ} : {A : Type ℓ} {a b : A} → ok a ≡ ok b → a ≡ b
ok-injective e = cc

pub err-ne-ok {ℓ} : {A : Type ℓ} {a : A} {e : StatusCode} → err e ≢ ok a
err-ne-ok h = cc

-- A read of an array, or through a pointer.
abbrev pub deref {ℓ} : {A : Type ℓ} → Option A → Result A
deref none = stuck
deref (some a) = ok a
