-- ===== src/Common/Results.antt =====
-- Go's `error` results, and methods that mutate a receiver and may fail.
use mathlib.Core.Path.{◌≡◌, refl, ap}
use mathlib.Core.Logic.{◌⊎◌, inl, inr}

-- The error values that the program itself returns. `external` is an error that code outside the
-- repository made up.
pub data Error : Type 0 where
  not_found device_exists duplicate_user : Error
  weak_password invalid_credentials invalid_token : Error
  external : Error

pub data Result {ℓ} (A : Type ℓ) : Type ℓ where
  ok : A → Result A
  err : Error → Result A

-- A method that mutates `S`. What it wrote before an error stays written.
abbrev pub Exec {ℓ} : Type ℓ → Type ℓ → Type ℓ
Exec S A = S → Result A × S

module _ {ℓ} {S A : Type ℓ} where
  abbrev pub pure : A → Exec S A
  pure a s = (ok a, s)

  abbrev pub raise : Error → Exec S A
  raise e s = (err e, s)

  -- A computed result, with no effect.
  abbrev pub lift : Result A → Exec S A
  lift r s = (r, s)

  -- A method that only reads the receiver.
  abbrev pub reads : (S → Result A) → Exec S A
  reads f s = (f s, s)

module _ {ℓ} {S A B : Type ℓ} where
  -- `if err != nil { return …, err }`, and on with the result otherwise.
  abbrev pub then_on : Result A × S → (A → Exec S B) → Result B × S
  then_on (ok a, s) f = f a s
  then_on (err e, s) f = (err e, s)

  infixl 5 ◌>>=◌ ◌>>◌
  abbrev pub ◌>>=◌ : Exec S A → (A → Exec S B) → Exec S B
  ◌>>=◌ m f s = then_on (m s) f

  abbrev pub ◌>>◌ : Exec S A → Exec S B → Exec S B
  m >> k = m >>= λ _. k

  -- `_ = m()`: the call is made and its error dropped.
  abbrev pub ignoring : Exec S A → Exec S B → Exec S B
  ignoring m k s = k (m s).1

pub Result-cases {ℓ} :
    {A : Type ℓ} (r : Result A) → ((a : A) × (r ≡ ok a)) ⊎ ((e : Error) × (r ≡ err e))
Result-cases (ok a) = inl (a, refl)
Result-cases (err e) = inr (e, refl)

abbrev or_value {ℓ} : {A : Type ℓ} → A → Result A → A
or_value a (ok b) = b
or_value a (err e) = a

pub ok-injective {ℓ} : {A : Type ℓ} (a b : A) → ok a ≡ ok b → a ≡ b
ok-injective a b e = ap (or_value a) e
