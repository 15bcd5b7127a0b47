-- ===== src/Prelude/Tests.antt =====
-- Boolean tests on numbers and texts, the conditional, and Python's `==` by a decision.
use Prim.Native.Nat.{ℕ, compare, Ordering}
use Prim.Native.String.{String, compare as compare_texts}
use mathlib.Core.Path.{◌≡◌, refl}
use mathlib.Core.Logic.{◌↔◌, ◌⊎◌, inl, inr}
use mathlib.Core.Bool.{Bool, true, false, not}
use mathlib.Core.Option.{Option, none, some}
use native.Mathlib.Decide.{ℕ_discrete}
use text.Mathlib.Text.{◌==◌ as str_eq}
use text.Mathlib.TextEquality.{eq_iff}

abbrev pub ltb : ℕ → ℕ → Bool
ltb a b = elim (compare a b) [ Ordering.lt ↦ true | _ ↦ false ]

abbrev pub leb : ℕ → ℕ → Bool
leb a b = elim (compare a b) [ Ordering.gt ↦ false | _ ↦ true ]

infix 50 ◌==◌
abbrev pub ◌==◌ : ℕ → ℕ → Bool
a == b = elim (compare a b) [ Ordering.eq ↦ true | _ ↦ false ]

infix 1 if◌then◌else◌
abbrev pub if◌then◌else◌ {ℓ} : {A : Type ℓ} → Bool → A → A → A
if true then x else y = x
if false then x else y = y

-- To split on a computed value and keep the equation.
pub Bool-cases : (b : Bool) → (b ≡ true) ⊎ (b ≡ false)
Bool-cases true = inl refl
Bool-cases false = inr refl

pub Option-cases {ℓ} : {A : Type ℓ} (o : Option A) → (o ≡ none) ⊎ ((a : A) × (o ≡ some a))
Option-cases none = inl refl
Option-cases (some a) = inr (a, refl)

decide_string : (s t : String) (b : Bool) → (b ≡ true) ↔ (s ≡ t) → Dec (s ≡ t)
decide_string s t true e = yes (e.0 refl)
decide_string s t false e = no (λ p. cc (e.1 p))

-- Equality of texts is decided by the native comparison.
unfoldable pub String-discrete : Discrete String
unfolding decide_string
String-discrete s t = decide_string s t (str_eq s t) (eq_iff s t)

abbrev pub decided {ℓ} : {P : Type ℓ} → Dec P → Bool
decided (yes _) = true
decided (no _) = false

pub decided→eq {ℓ} : {P : Type ℓ} (d : Dec P) → decided d ≡ true → P
decided→eq (yes p) h = p
decided→eq (no _) h = cc

pub decided_self {ℓ} : {P : Type ℓ} (d : Dec P) → P → decided d ≡ true
decided_self (yes _) p = refl
decided_self (no n) p = absurd (n p)

pub ruleset discrete_fields = (String-discrete, ℕ_discrete)

-- Python's `a <= b` on texts: by code points.
abbrev pub str_leb : String → String → Bool
str_leb s t = elim (compare_texts s t) [ Ordering.gt ↦ false | _ ↦ true ]

-- `(n, s) <= (m, t)` on pairs of a number and a text
abbrev pub pair_leb : ℕ → String → ℕ → String → Bool
pair_leb n s m t = elim (compare n m) [
  | Ordering.lt ↦ true
  | Ordering.eq ↦ str_leb s t
  | Ordering.gt ↦ false
]

-- `stored == a`, where `stored` is a row or `None`
unfoldable pub same {ℓ} : {A : Type ℓ} → Discrete A → Option A → A → Bool
same d none a = false
same d (some b) a = decided (d b a)

pub same→eq {ℓ} :
    {A : Type ℓ} (d : Discrete A) (o : Option A) (a : A) → same d o a ≡ true → o ≡ some a
unfolding same
same→eq d none a h = cc
same→eq d (some b) a h = from (d b a) h
  where
    from : (e : Dec (b ≡ a)) → decided e ≡ true → some b ≡ some a
    from (yes p) h = cc
    from (no _) h = cc

pub same_self {ℓ} : {A : Type ℓ} (d : Discrete A) (a : A) → same d (some a) a ≡ true
unfolding same
same_self d a = from (d a a)
  where
    from : (e : Dec (a ≡ a)) → decided e ≡ true
    from (yes p) = refl
    from (no n) = absurd (n refl)

-- `stored is not None and stored != a`
unfoldable pub differs {ℓ} : {A : Type ℓ} → Discrete A → Option A → A → Bool
differs d none a = false
differs d (some b) a = not (decided (d b a))

pub differs→eq {ℓ} :
    {A : Type ℓ} (d : Discrete A) (o : Option A) (a b : A)
    → differs d o a ≡ false
    → o ≡ some b
    → b ≡ a
unfolding differs
differs→eq d none a b h e = cc
differs→eq d (some x) a b h e = from (d x a) h
  where
    from : (q : Dec (x ≡ a)) → not (decided q) ≡ false → b ≡ a
    from (yes p) h = cc
    from (no _) h = cc
