-- ===== src/Prelude/Result.antt =====
-- What a Go call yields: a value, an error value, a run-time panic, or (in the model only) a loop
-- that has used up the fuel it was given.
use mathlib.Core.Path.{◌≡◌, refl, ap, subst}
use mathlib.Core.Bool.{Bool, true, false}
use goeth_self_training.Prelude.Tests.{if◌then◌else◌}
use mathlib.Core.Option.{Option, none, some}

pub data Result {κ} (X : Type κ) : Type κ where
  panic out_of_fuel : Result X
  ok : X → Result X

infixl 5 ◌>>=◌
abbrev pub ◌>>=◌ {κ ℓ} : {X : Type κ} {Y : Type ℓ} → Result X → (X → Result Y) → Result Y
out_of_fuel >>= next = out_of_fuel
panic >>= next = panic
ok x >>= next = next x

-- An index or a slice that is out of range panics.
abbrev pub or_panic {ℓ} : {A : Type ℓ} → Option A → Result A
or_panic none = panic
or_panic (some a) = ok a

-- Whatever the call yields, its value satisfies `P`, and the fuel was enough.
abbrev pub Safe {ℓ} : {A : Type ℓ} → (A → Type 0) → Result A → Type 0
Safe P (ok a) = P a
Safe P panic = Unit
Safe P out_of_fuel = ⊥

pub Safe-bind {ℓ ℓ'} :
    {A : Type ℓ} {B : Type ℓ'} (P : A → Type 0) (Q : B → Type 0) (m : Result A) (f : A → Result B)
    → Safe P m
    → ((a : A) → P a → Safe Q (f a))
    → Safe Q (m >>= f)
Safe-bind P Q (ok a) f h k = k a h
Safe-bind P Q panic f h k = tt
Safe-bind P Q out_of_fuel f h k = absurd h

-- Where a chain yields a value, so does its first call, and the rest yields the chain's.
abbrev pub Yields {κ ℓ} : {X : Type κ} {Y : Type ℓ} → Result X → (X → Result Y) → Y → Type (κ ⊔ ℓ)
Yields {X = X} r next y = (x : X) × (r ≡ ok x) × (next x ≡ ok y)

pub >>=-Yields {κ ℓ} :
    {X : Type κ} {Y : Type ℓ} (r : Result X) (next : X → Result Y) {y : Y}
    → (r >>= next) ≡ ok y
    → Yields r next y
>>=-Yields out_of_fuel next e = cc
>>=-Yields panic next e = cc
>>=-Yields (ok x) next e = (x, refl, e)

pub ok-injective {ℓ} : {A : Type ℓ} {a b : A} → ok a ≡ ok b → a ≡ b
ok-injective h = cc

pub or_panic-ok {ℓ} : {A : Type ℓ} (o : Option A) (a : A) → or_panic o ≡ ok a → o ≡ some a
or_panic-ok none a h = cc
or_panic-ok (some b) a h = ap some (ok-injective h)

-- The call yields a value, and it satisfies `P`.
abbrev pub Returns {ℓ} : {A : Type ℓ} → (A → Type 0) → Result A → Type 0
Returns P (ok a) = P a
Returns P panic = ⊥
Returns P out_of_fuel = ⊥

pub Returns-bind {ℓ ℓ'} :
    {A : Type ℓ} {B : Type ℓ'} (P : A → Type 0) (Q : B → Type 0) (m : Result A) (f : A → Result B)
    → Returns P m
    → ((a : A) → P a → Returns Q (f a))
    → Returns Q (m >>= f)
Returns-bind P Q (ok a) f h k = k a h
Returns-bind P Q panic f h k = absurd h
Returns-bind P Q out_of_fuel f h k = absurd h

pub Returns-map {ℓ} :
    {A : Type ℓ} (P Q : A → Type 0) (m : Result A)
    → ((a : A) → P a → Q a)
    → Returns P m
    → Returns Q m
Returns-map P Q (ok a) f h = f a h
Returns-map P Q panic f h = h
Returns-map P Q out_of_fuel f h = h

pub Returns-ok {ℓ} :
    {A : Type ℓ} (P : A → Type 0) (m : Result A) → Returns P m → (a : A) × (m ≡ ok a)
Returns-ok P (ok a) h = (a, refl)
Returns-ok P panic h = absurd h
Returns-ok P out_of_fuel h = absurd h

-- If the call yields a value, it satisfies `P`.
unfoldable pub Holds {ℓ} : {A : Type ℓ} → (A → Type 0) → Result A → Type 0
Holds P (ok a) = P a
Holds P panic = Unit
Holds P out_of_fuel = Unit

pub Holds-intro {ℓ} : {A : Type ℓ} (P : A → Type 0) (a : A) → P a → Holds P (ok a)
unfolding Holds
Holds-intro P a h = h

pub Holds-panic {ℓ} : {A : Type ℓ} (P : A → Type 0) → Holds P panic
unfolding Holds
Holds-panic P = tt

pub Holds-out_of_fuel {ℓ} : {A : Type ℓ} (P : A → Type 0) → Holds P out_of_fuel
unfolding Holds
Holds-out_of_fuel P = tt

pub Holds-bind {ℓ ℓ'} :
    {A : Type ℓ} {B : Type ℓ'} (Q : B → Type 0) (m : Result A) (f : A → Result B)
    → ((a : A) → Holds Q (f a))
    → Holds Q (m >>= f)
unfolding Holds
Holds-bind Q (ok a) f k = k a
Holds-bind Q panic f k = tt
Holds-bind Q out_of_fuel f k = tt

pub Holds-then {ℓ ℓ'} :
    {A : Type ℓ} {B : Type ℓ'} (P : A → Type 0) (Q : B → Type 0) (m : Result A) (f : A → Result B)
    → Holds P m
    → ((a : A) → P a → Holds Q (f a))
    → Holds Q (m >>= f)
unfolding Holds
Holds-then P Q (ok a) f h k = k a h
Holds-then P Q panic f h k = tt
Holds-then P Q out_of_fuel f h k = tt

pub Holds-ok {ℓ} : {A : Type ℓ} (P : A → Type 0) (m : Result A) {a : A} → Holds P m → m ≡ ok a → P a
unfolding Holds
Holds-ok P (ok b) h e = subst P (ok-injective e) h
Holds-ok P panic h e = cc
Holds-ok P out_of_fuel h e = cc

pub Holds-elim {ℓ ℓ'} :
    {A : Type ℓ} {B : Type ℓ'} (Q : B → Type 0) (o : Option A) (r : Result B) (f : A → Result B)
    → Holds Q r
    → ((a : A) → Holds Q (f a))
    → Holds Q (elim o [ none ↦ r | some a ↦ f a ])
Holds-elim Q none r f h k = h
Holds-elim Q (some a) r f h k = k a

pub Holds-here {ℓ ℓ'} :
    {A : Type ℓ} {B : Type ℓ'} (Q : B → Type 0) (m : Result A) (f : A → Result B)
    → ((a : A) → m ≡ ok a → Holds Q (f a))
    → Holds Q (m >>= f)
unfolding Holds
Holds-here Q (ok a) f k = k a refl
Holds-here Q panic f k = tt
Holds-here Q out_of_fuel f k = tt

pub Holds-map {ℓ} :
    {A : Type ℓ} (P Q : A → Type 0) (m : Result A) → ((a : A) → P a → Q a) → Holds P m → Holds Q m
unfolding Holds
Holds-map P Q (ok a) f h = f a h
Holds-map P Q panic f h = h
Holds-map P Q out_of_fuel f h = h

-- The cases of a test, each with what it says of the test.
pub Holds-cases {ℓ} :
    {A : Type ℓ} (P : A → Type 0) (b : Bool) (r r' : Result A)
    → (b ≡ true → Holds P r)
    → (b ≡ false → Holds P r')
    → Holds P (if b then r else r')
Holds-cases P true r r' h k = h refl
Holds-cases P false r r' h k = k refl
