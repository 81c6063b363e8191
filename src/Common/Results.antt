-- ===== src/Common/Results.antt =====
-- The exceptions that the driver throws, results that carry one, and the bytes of a buffer.
use Prim.Native.Nat.{ℕ, ◌<◌}
use mathlib.Core.Path.{◌≡◌, refl}
use mathlib.Core.Logic.{◌⊎◌, inl, inr}
use mathlib.Core.Bool.{Bool, true, false}
use mathlib.Core.List.{List}

-- One constructor for each class of include/CQLDriver/Common/Exceptions that the models throw.
pub data Error : Type 0 where
  decode_exception encode_exception logic_exception not_implemented_exception format_exception :
      Error
  network_exception response_error_exception connection_not_available_exception : Error
  uuid_conflict_exception retry_exception : Error
  authenticate_exception connection_initialize_exception : Error
  -- `std::out_of_range` of `vector::at`; it also stands for an index that `operator[]` does not check.
  out_of_range : Error
  -- An access to an object that was destroyed while it was in use, which the language leaves undefined.
  destroyed_object : Error

-- What a call leaves: its value, or the exception that it threw.
pub data Result {ℓ} (A : Type ℓ) : Type ℓ where
  err : Error → Result A
  ok : A → Result A

module _ {ℓ κ} {A : Type ℓ} {B : Type κ} where
  infixl 5 ◌>>=◌
  abbrev pub ◌>>=◌ : Result A → (A → Result B) → Result B
  err thrown >>= next = err thrown
  ok value >>= next = next value

-- `if (!test) throw e`
abbrev pub require : Bool → Error → Result (Unit {0})
require false e = err e
require true e = ok tt

infixl 5 ◌>>◌
abbrev pub ◌>>◌ {ℓ} : {B : Type ℓ} → Result (Unit {0}) → Result B → Result B
first >> second = first >>= λ done. second

pub Result-cases {ℓ} :
    {A : Type ℓ} (r : Result A) → ((a : A) × (r ≡ ok a)) ⊎ ((e : Error) × (r ≡ err e))
Result-cases (ok a) = inl (a, refl)
Result-cases (err e) = inr (e, refl)

abbrev pub IsByte : ℕ → Type 0
IsByte b = b < 256

abbrev pub Bytes : Type 0
Bytes = List ℕ
