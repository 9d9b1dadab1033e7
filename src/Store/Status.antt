-- ===== src/Store/Status.antt =====
-- src/minweight_store/include/minweight_store/status.h. Messages are not modelled.
use minweight_store_cpp.Base.{◌≡◌}

-- `StatusCode` without `kOk`, which is `Result.ok` here.
pub data StatusCode : Type 0 where
  invalid_argument closed wal_full corrupt_wal corrupt_manifest corrupt_snapshot : StatusCode
  corrupt_index io_error runtime_error fatal : StatusCode

-- `Result<T>`; a `Status` alone is a `Result Unit`. `stuck` is no C++ value: a loop did not end
-- within the rounds given.
pub data Result {ℓ} (A : Type ℓ) : Type ℓ where
  ok : A → Result A
  err : StatusCode → Result A
  stuck : Result A

infixl 5 ◌>>=◌ ◌>>◌
abbrev pub ◌>>=◌ {ℓ κ} : {A : Type ℓ} {B : Type κ} → Result A → (A → Result B) → Result B
ok a >>= f = f a
err e >>= f = err e
stuck >>= f = stuck

abbrev pub ◌>>◌ {ℓ} : {B : Type ℓ} → Result (Unit {0}) → Result B → Result B
m >> k = m >>= λ _. k

pub ok-injective {ℓ} : {A : Type ℓ} {a b : A} → ok a ≡ ok b → a ≡ b
ok-injective e = cc
