-- ===== src/Prelude/Results.antt =====
-- Python's exceptions as values, and transactions. An error keeps the exception's class and the
-- constant part of its message.
use mathlib.Core.Path.{◌≡◌, refl}
use mathlib.Core.Logic.{◌⊎◌, inl, inr}
use mathlib.Core.Bool.{Bool, true, false}
use mathlib.Core.Option.{Option, none, some}
use Prim.Native.String.{String}

pub data Error : Type 0 where
  key_error value_error runtime_error permission_error type_error overflow_error : String → Error

pub data Result {ℓ} (A : Type ℓ) : Type ℓ where
  ok : A → Result A
  err : Error → Result A

abbrev pub bind {ℓ κ} : {A : Type ℓ} {B : Type κ} → Result A → (A → Result B) → Result B
bind (ok a) f = f a
bind (err e) f = err e

infixl 10 ◌>>=◌ ◌>>◌
abbrev pub ◌>>=◌ {ℓ κ} : {A : Type ℓ} {B : Type κ} → Result A → (A → Result B) → Result B
value >>= rest = bind value rest

abbrev pub ◌>>◌ {ℓ} : {B : Type ℓ} → Result (Unit {0}) → Result B → Result B
act >> rest = bind act (λ done. rest)

-- `if test: raise e`
abbrev pub raise_if : Bool → Error → Result (Unit {0})
raise_if true e = err e
raise_if false e = ok tt

-- `if value is None: raise e`
abbrev pub or_raise {ℓ} : {A : Type ℓ} → Option A → Error → Result A
or_raise none e = err e
or_raise (some a) e = ok a

pub Result-cases {ℓ} :
    {A : Type ℓ} (r : Result A) → ((e : Error) × (r ≡ err e)) ⊎ ((a : A) × (r ≡ ok a))
Result-cases (ok a) = inr (a, refl)
Result-cases (err e) = inl (e, refl)

-- Where a chain returns, its first part has returned a value, and the rest returns from it.
pub bind-eq-ok {ℓ κ} :
    {X : Type ℓ} {Y : Type κ} {y : Y} (first : Result X) (rest : X → Result Y)
    → bind first rest ≡ ok y
    → (x : X) × (first ≡ ok x) × (rest x ≡ ok y)
bind-eq-ok (err e) rest raised = cc
bind-eq-ok (ok x) rest returned = (x, refl, returned)

-- A `with persistence.transaction()` block: the body works on a fork of the state `s`, and the
-- fork replaces `s` only if the body returns and the check of `commit` passes.
abbrev pub checked {ℓ} : {S : Type 0} {A : Type ℓ} → S → A → S → Result (Unit {0}) → Result A × S
checked s a forked (ok _) = (ok a, forked)
checked s a forked (err e) = (err e, s)

abbrev pub finish {ℓ} :
    {S : Type 0} {A : Type ℓ} → (S → Result (Unit {0})) → S → Result (A × S) → Result A × S
finish check s (err e) = (err e, s)
finish check s (ok (a, forked)) = checked s a forked (check forked)

abbrev pub transaction {ℓ} :
    {S : Type 0} {A : Type ℓ} → (S → Result (Unit {0})) → (S → Result (A × S)) → S → Result A × S
transaction check body s = finish check s (body s)

module _ {ℓ κ} {S : Type 0} {A : Type ℓ} (P : Result A × S → Type κ) (check : S → Result (Unit {0}))
    (s : S) where
  checked_cases :
      (a : A) (forked : S) (r : Result (Unit {0}))
      → check forked ≡ r
      → ((e : Error) → P (err e, s))
      → (check forked ≡ ok tt → P (ok a, forked))
      → P (checked s a forked r)
  checked_cases a forked (ok u) e raised returned = returned e
  checked_cases a forked (err x) e raised returned = raised x

  finish_cases :
      (r : Result (A × S))
      → ((e : Error) → P (err e, s))
      → ((a : A) (forked : S) → r ≡ ok (a, forked) → check forked ≡ ok tt → P (ok a, forked))
      → P (finish check s r)
  finish_cases (err x) raised returned = raised x
  finish_cases (ok (a, forked)) raised returned =
      checked_cases a forked (check forked) refl raised (returned a forked refl)

  -- A transaction raises and changes nothing, or its body returns and the check passes.
  pub transaction_cases :
      (body : S → Result (A × S))
      → ((e : Error) → P (err e, s))
      → ((a : A) (forked : S) → body s ≡ ok (a, forked) → check forked ≡ ok tt → P (ok a, forked))
      → P (transaction check body s)
  transaction_cases body raised returned = finish_cases (body s) raised returned

-- A method that plans on what it has read, and then acts.
pub plan_cases {ℓ κ ι} :
    {A : Type ℓ} {B : Type κ} (P : B → Type ι) (r : Result A) (raised : Error → B) (act : A → B)
    → ((e : Error) → P (raised e))
    → ((a : A) → r ≡ ok a → P (act a))
    → P (elim r [ ok a ↦ act a | err e ↦ raised e ])
plan_cases P (ok a) raised act h g = g a refl
plan_cases P (err e) raised act h g = h e
