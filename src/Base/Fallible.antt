-- ===== src/Base/Fallible.antt =====
-- A Go call that returns a value or an error. An error is the message that its `Error()` gives.
use Prim.Native.String.{String}
use mathlib.Core.Path.{◌≡◌, refl}
use mathlib.Core.Logic.{◌⊎◌, inl, inr}

abbrev pub Error : Type 0
Error = String

pub data Result {κ} (B : Type κ) : Type κ where
  err : (error : Error) → Result B
  ok : (value : B) → Result B

module _ {κ} {B : Type κ} where
  -- One property where a value was returned, another where an error was.
  abbrev pub ByResult {ℓ} : (B → Type ℓ) → Type ℓ → Result B → Type ℓ
  ByResult OnValue OnError (ok value) = OnValue value
  ByResult OnValue OnError (err error) = OnError

  pub Result-cases :
      (r : Result B) → ((value : B) × (r ≡ ok value)) ⊎ ((error : Error) × (r ≡ err error))
  Result-cases (err error) = inr (error, refl)
  Result-cases (ok value) = inl (value, refl)

  pub ok_injective : {x y : B} → ok x ≡ ok y → x ≡ y
  ok_injective same = cc

  pub err-ne-ok : {error : Error} {value : B} → err error ≡ ok value → ⊥
  err-ne-ok same = cc

  module _ {ℓ} {C : Type ℓ} where
    -- Go's test of the error, after which the value is used.
    infixl 4 ◌>>=◌
    abbrev pub ◌>>=◌ : Result B → (B → Result C) → Result C
    err error >>= next = err error
    ok value >>= next = next value

    -- A chain that returned a value returned one at its first call.
    pub >>=-eq-ok :
        (r : Result B) (next : B → Result C) {result : C}
        → (r >>= next) ≡ ok result
        → (value : B) × (r ≡ ok value) × (next value ≡ ok result)
    >>=-eq-ok (ok value) next chain = (value, refl, chain)
    >>=-eq-ok (err error) next chain = absurd (cc)
