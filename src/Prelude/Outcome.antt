-- ===== src/Prelude/Outcome.antt =====
-- What a reader of a file comes to: a result, the stop at a failed CHECK, or neither, where a read
-- lies outside of a buffer or the fuel of a loop has run out.
use mathlib.Core.Path.{◌≡◌, refl}
use mathlib.Core.Logic.{◌≢◌}
use mathlib.Core.Bool.{Bool, true, false}
use mathlib.Core.Option.{Option, none, some}

pub data Outcome {ℓ} (A : Type ℓ) : Type ℓ where
  done : A → Outcome A
  check_failed : Outcome A
  stuck : Outcome A

infixl 5 ◌>>=◌
abbrev pub ◌>>=◌ {ℓ κ} : {A : Type ℓ} {B : Type κ} → Outcome A → (A → Outcome B) → Outcome B
done a >>= f = f a
check_failed >>= f = check_failed
stuck >>= f = stuck

-- A step that only a read outside of a buffer can stop.
abbrev pub run {ℓ} : {A : Type ℓ} → Option A → Outcome A
run none = stuck
run (some a) = done a

-- A step that stops at a failed CHECK.
abbrev pub check {ℓ} : {A : Type ℓ} → Option A → Outcome A
check none = check_failed
check (some a) = done a

-- A result with a property, or a failed CHECK; never `stuck`.
pub data Ends {A : Type 0} (P : A → Type 0) : Outcome A → Type 0 where
  ended : {a : A} → P a → Ends P (done a)
  failed : Ends P check_failed

pub Ends-bind :
    {A B : Type 0} {P : A → Type 0} {Q : B → Type 0} {r : Outcome A} {k : A → Outcome B}
    → Ends P r
    → ((a : A) → P a → Ends Q (k a))
    → Ends Q (r >>= k)
Ends-bind (ended {a} h) next = next a h
Ends-bind failed next = failed

pub Ends-check :
    {A B : Type 0} {Q : B → Type 0} (o : Option A) {k : A → Outcome B}
    → ((a : A) → o ≡ some a → Ends Q (k a))
    → Ends Q (check o >>= k)
Ends-check none next = failed
Ends-check (some a) next = next a refl

pub Ends-test :
    {A : Type 0} {Q : A → Type 0} (b : Bool) {x y : Outcome A}
    → (b ≡ true → Ends Q x)
    → (b ≡ false → Ends Q y)
    → Ends Q (elim b [ true ↦ x | false ↦ y ])
Ends-test true h h' = h refl
Ends-test false h h' = h' refl

pub Ends-implied :
    {A : Type 0} {P Q : A → Type 0} {r : Outcome A} → Ends P r → ((a : A) → P a → Q a) → Ends Q r
Ends-implied (ended {a} h) implied = ended (implied a h)
Ends-implied failed implied = failed

pub Ends-ne-stuck : {A : Type 0} {P : A → Type 0} {r : Outcome A} → Ends P r → r ≢ stuck
Ends-ne-stuck (ended h) e = cc
Ends-ne-stuck failed e = cc
