-- ===== src/Prelude/Outcome.antt =====
-- What a Go call does: it returns, it panics, or (of a loop on fuel, and of no Go program) it is
-- cut off because the fuel ran out.
use mathlib.Core.Path.{◌≡◌, refl}
use mathlib.Core.Option.{Option, none, some}

pub data Outcome {ℓ} (A : Type ℓ) : Type ℓ where
  ok : A → Outcome A
  panic : Outcome A
  stuck : Outcome A

infixl 5 ◌>>=◌
abbrev pub ◌>>=◌ {ℓ κ} : {A : Type ℓ} {B : Type κ} → Outcome A → (A → Outcome B) → Outcome B
ok a >>= f = f a
panic >>= f = panic
stuck >>= f = stuck

-- A read that Go checks at run time.
abbrev pub or_panic {ℓ} : {A : Type ℓ} → Option A → Outcome A
or_panic none = panic
or_panic (some a) = ok a

pub >>=-ok {ℓ} : {A : Type ℓ} (m : Outcome A) → (m >>= ok) ≡ m
>>=-ok (ok a) = refl
>>=-ok panic = refl
>>=-ok stuck = refl

pub >>=_assoc {ℓ κ μ} :
    {A : Type ℓ} {B : Type κ} {C : Type μ} (m : Outcome A) (f : A → Outcome B) (g : B → Outcome C)
    → (m >>= f >>= g) ≡ (m >>= λ a. f a >>= g)
>>=_assoc (ok a) f g = refl
>>=_assoc panic f g = refl
>>=_assoc stuck f g = refl

-- Inversion of a call that returns.
pub >>=-eq-ok {ℓ κ} :
    {A : Type ℓ} {B : Type κ} (o : Outcome A) (next : A → Outcome B) {y : B}
    → (o >>= next) ≡ ok y
    → (x : A) × (ok x ≡ o) × (next x ≡ ok y)
>>=-eq-ok (ok x) next e = (x, refl, e)
>>=-eq-ok panic next e = cc
>>=-eq-ok stuck next e = cc

-- A call that returns only what satisfies `P`, and is never cut off.
abbrev pub Ends : {A : Type 0} → (A → Type 0) → Outcome A → Type 0
Ends P (ok a) = P a
Ends P panic = Unit {0}
Ends P stuck = ⊥

pub Ends-bind :
    {A B : Type 0} (P : A → Type 0) (Q : B → Type 0) (o : Outcome A) (f : A → Outcome B)
    → Ends P o
    → ((a : A) → P a → Ends Q (f a))
    → Ends Q (o >>= f)
Ends-bind P Q (ok a) f h k = k a h
Ends-bind P Q panic f h k = h
Ends-bind P Q stuck f h k = h

abbrev pub Any : {A : Type 0} → A → Type 0
Any a = Unit {0}

pub or_panic-Ends : {A : Type 0} (o : Option A) → Ends Any (or_panic o)
or_panic-Ends none = tt
or_panic-Ends (some a) = tt

pub Ends-weaken :
    {A : Type 0} (P Q : A → Type 0) (o : Outcome A) → ((a : A) → P a → Q a) → Ends P o → Ends Q o
Ends-weaken P Q (ok a) f h = f a h
Ends-weaken P Q panic f h = h
Ends-weaken P Q stuck f h = h
