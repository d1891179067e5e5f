-- ===== src/Base/Result.antt =====
-- A value or an error, for the functions that return `(T, error)`.
use mathlib.Core.Path.{◌≡◌, refl}
use mathlib.Core.Bool.{Bool, true, false}

pub data Result {ℓ} (E A : Type ℓ) : Type ℓ where
  ok : A → Result E A
  err : E → Result E A

infixl 5 ◌>>=◌ ◌>>◌
abbrev pub ◌>>=◌ {ℓ} : {E A B : Type ℓ} → Result E A → (A → Result E B) → Result E B
err problem >>= next = err problem
ok value >>= next = next value

abbrev pub ◌>>◌ : {E B : Type 0} → Result E (Unit {0}) → Result E B → Result E B
first >> next = first >>= λ done. next

-- `if bad { return err }`
abbrev pub refuse_if : {E : Type 0} → Bool → E → Result E (Unit {0})
refuse_if true e = err e
refuse_if false e = ok tt

-- A chain that succeeds has a first step that does.
pub >>=-eq-ok {ℓ} :
    {E A B : Type ℓ} (first : Result E A) (next : A → Result E B) {b : B}
    → (first >>= next) ≡ ok b
    → (value : A) × ((next value ≡ ok b) × (first ≡ ok value))
>>=-eq-ok (err problem) next h = cc
>>=-eq-ok (ok value) next h = (value, (h, refl))

-- A guard that is passed.
pub refuse_if-eq-ok :
    {E B : Type 0} (bad : Bool) (problem : E) (next : Result E B) {b : B}
    → (refuse_if bad problem >> next) ≡ ok b
    → (bad ≡ false) × (next ≡ ok b)
refuse_if-eq-ok true problem next h = cc
refuse_if-eq-ok false problem next h = (refl, h)

pub ok-injective {ℓ} : {E A : Type ℓ} {a b : A} → ◌≡◌ {A = Result E A} (ok a) (ok b) → a ≡ b
ok-injective h = cc h
