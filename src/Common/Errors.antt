-- ===== src/Common/Errors.antt =====
-- What a call returns or throws: a `TypeError` of the language, or an `Error` with a message.
use Prim.Native.String.{String}
use mathlib.Core.Path.{◌≡◌, refl}
use mathlib.Core.List.{List, [], ◌∷◌, ◌++◌}

-- What the program throws: the language's own `TypeError`, or `new Error(message)`.
pub data Error : Type 0 where
  type_error : Error
  thrown : String → Error

-- A call that throws comes to `err`, one that returns to `ok`.
pub data Result {ℓ} (A : Type ℓ) : Type ℓ where
  err : Error → Result A
  ok : A → Result A

pub ok_injective {ℓ} : {A : Type ℓ} {a b : A} → ok a ≡ ok b → a ≡ b
ok_injective p = cc

-- The statements after a call are run with its value, unless it throws.
module _ {ℓ κ} {A : Type ℓ} {B : Type κ} where
  infixl 5 ◌>>=◌
  abbrev pub ◌>>=◌ : Result A → (A → Result B) → Result B
  err thrown_error >>= rest = err thrown_error
  ok value >>= rest = rest value

  -- Statements that return a value have got past the call.
  pub >>=-eq-ok :
      (call : Result A) (rest : A → Result B) {result : B}
      → (call >>= rest) ≡ ok result
      → (value : A) × (call ≡ ok value) × (rest value ≡ ok result)
  >>=-eq-ok (err thrown_error) rest returns = cc
  >>=-eq-ok (ok value) rest returns = (value, refl, returns)

-- `for (const x of xs) response = response.concat(f(x))`, which stops at the first throw.
module _ {ℓ κ} {A : Type ℓ} {B : Type κ} where
  unfoldable pub for_each : List A → (A → Result (List B)) → Result (List B)
  for_each [] f = ok []
  for_each (x ∷ xs) f = do here ← f x; rest ← for_each xs f; ok (here ++ rest)
