-- ===== src/Prelude/Results.antt =====
-- Code that may throw, fail an assertion, or touch memory that it does not own.
use mathlib.Core.Path.{◌≡◌, refl}
use mathlib.Core.Bool.{Bool, true, false}
use mathlib.Core.Option.{Option, none, some}
use mathlib.Core.List.{List, [], ◌∷◌}
use wisent.Prelude.Tests.{if◌then◌else◌}

-- `out_of_bounds`: undefined behaviour, as an access outside an array, a vector or the mapping, or
-- through a dangling reference. The others: a failed `assert`, and the exceptions that the code throws
-- or lets through.
pub data Fault : Type 0 where
  out_of_bounds assertion_failed runtime_error invalid_argument out_of_range : Fault
  bad_array_new_length bad_alloc : Fault

-- What a run yields: the fault that it stops with, or a value.
pub data Result {ℓ} (A : Type ℓ) : Type ℓ where
  err : Fault → Result A
  ok : A → Result A

abbrev pub or_fail {ℓ} : {A : Type ℓ} → Option A → Fault → Result A
or_fail none fault = err fault
or_fail (some a) fault = ok a

-- A check that the code makes before it goes on.
abbrev pub guard : (holds : Bool) → Fault → Result (Unit {0})
guard holds fault = or_fail (if holds then some tt else none) fault

-- One step after another; a fault ends the run.
infixl 5 ◌>>=◌
abbrev pub ◌>>=◌ {ℓ κ} : {A : Type ℓ} {B : Type κ} → Result A → (A → Result B) → Result B
err fault >>= next = err fault
ok a >>= next = next a

infixl 5 ◌>>◌
abbrev pub ◌>>◌ {ℓ} : {B : Type ℓ} → Result (Unit {0}) → Result B → Result B
check >> rest = check >>= λ done. rest

-- `std::vector::back`, the head of the list that stands for the vector.
abbrev pub back {ℓ} : {A : Type ℓ} → List A → Result A
back [] = err out_of_bounds
back (x ∷ xs) = ok x

-- `std::vector::pop_back`.
abbrev pub pop_back {ℓ} : {A : Type ℓ} → List A → Result (List A)
pop_back [] = err out_of_bounds
pop_back (x ∷ xs) = ok xs

pub ok_inj {ℓ} : {A : Type ℓ} {a b : A} → ok a ≡ ok b → a ≡ b
ok_inj p = cc

pub some_inj {ℓ} : {A : Type ℓ} {a b : A} → some a ≡ some b → a ≡ b
some_inj p = cc

-- Inversion of a successful bind.
pub >>=-eq-ok {ℓ κ} :
    {A : Type ℓ} {B : Type κ} (run : Result A) (next : A → Result B) {b : B}
    → (run >>= next) ≡ ok b
    → (a : A) × (run ≡ ok a) × (next a ≡ ok b)
>>=-eq-ok (err fault) next h = cc
>>=-eq-ok (ok a) next h = (a, refl, h)

pub bind_assoc {ℓ κ μ} :
    {A : Type ℓ} {B : Type κ} {C : Type μ} (m : Result A) (f : A → Result B) (g : B → Result C)
    → ((m >>= f) >>= g) ≡ (m >>= λ a. f a >>= g)
bind_assoc (ok a) f g = refl
bind_assoc (err e) f g = refl

-- Two continuations that agree on the result.
pub bind_congr {ℓ κ} :
    {A : Type ℓ} {B : Type κ} (m : Result A) (f g : A → Result B)
    → ((a : A) → m ≡ ok a → f a ≡ g a)
    → (m >>= f) ≡ (m >>= g)
bind_congr (ok a) f g same = same a refl
bind_congr (err e) f g same = refl

-- A check that was passed.
pub guard-then {ℓ} :
    {B : Type ℓ} (holds : Bool) (fault : Fault) (rest : Result B) {b : B}
    → (guard holds fault >> rest) ≡ ok b
    → (holds ≡ true) × (rest ≡ ok b)
guard-then true fault rest h = (refl, h)
guard-then false fault rest h = cc
