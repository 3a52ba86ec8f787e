-- ===== src/Base/Result.antt =====
-- C++ exceptions, and undefined behaviour, as results.
use Prim.Native.String.{String}
use mathlib.Core.Path.{◌≡◌}

pub data Exception : Type 0 where
  runtime_error : String → Exception
  system_error : Exception
  spdlog_ex : Exception

-- `fault` is a dereference of a pointer to no object.
pub data Result {ℓ} (A : Type ℓ) : Type ℓ where
  ok : A → Result A
  throws : Exception → Result A
  fault : Result A

infixl 5 ◌>>=◌
abbrev pub ◌>>=◌ {ℓ κ} : {A : Type ℓ} {B : Type κ} → Result A → (A → Result B) → Result B
ok a >>= f = f a
throws e >>= f = throws e
fault >>= f = fault

pub ok_injective : {A : Type 0} {a b : A} → ok a ≡ ok b → a ≡ b
ok_injective e = cc
