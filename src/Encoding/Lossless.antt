-- ===== src/Encoding/Lossless.antt =====
-- The conversions of core/encoding.py lose nothing: a scalar can be told from its kind and its
-- payload.
use Prim.Native.Nat.pow
use mathlib.Core.Option.{some-injective}
use sose.Prelude.{
  negsuc, pos, ℤ, Bool-cases, List, Option, [], Result, ap, arith, bind-eq-ok, inl, inr, length,
  ltb, subst, length-append, ok, refl, some, suc, sym, zero, ℕ, ◌%◌, ◌*◌, ◌++◌, ◌+◌, ◌-◌, ◌/◌, ◌<◌,
  ◌≤◌, ◌^◌, ◌∙◌, ◌∷◌, ◌≡◌,
}
use sose.Encoding.Scalars.{
  Bytes, Conversions, Date, Datetime, Scalar, Text, day, decimal, digits, identity, int_text,
  integer, kind_of, moment, payload_of, raw, real, text, utf8, utf8_char,
}

-- What the documentation says of the standard library's texts: `float.fromhex(x.hex())` and
-- `fromisoformat(t.isoformat())` give the value back.
pub record Documented (std : Conversions) : Type 0 where
  pub fromhex : Bytes → Option ℕ
  pub datetime_fromisoformat : Bytes → Option Datetime
  pub date_fromisoformat : Bytes → Option Date
  pub fromhex_hex : (x : ℕ) → fromhex (std.hex x) ≡ some x
  pub datetime_back : (t : Datetime) → datetime_fromisoformat (std.datetime_isoformat t) ≡ some t
  pub date_back : (d : Date) → date_fromisoformat (std.date_isoformat d) ≡ some d

-- Two texts that start with parts of the same length agree on the parts and on what follows.
pub append-cancel {ℓ} :
    {A : Type ℓ} (xs ys : List A) {r s : List A}
    → length xs ≡ length ys
    → xs ++ r ≡ ys ++ s
    → (xs ≡ ys) × (r ≡ s)
append-cancel [] [] n e = (refl, e)
append-cancel [] (y ∷ ys) n e = absurd (omega (arith, n))
append-cancel (x ∷ xs) [] n e = absurd (omega (arith, n))
append-cancel (x ∷ xs) (y ∷ ys) {r} {s} n e =
    let rest : xs ++ r ≡ ys ++ s = cc in
    let equal : (xs ≡ ys) × (r ≡ s) = append-cancel xs ys (omega (arith, n)) rest in
    let tails : xs ≡ ys = equal.0 in (ground (arith, tails, e), equal.1)

pub length-digits : (k n : ℕ) → length (digits k n) ≡ k
unfolding digits
length-digits zero n = refl
length-digits (suc k) n =
    omega (arith, length-append (digits k (n / 256)) (n % 256 ∷ []), length-digits k (n / 256))

pub digits-injective : (k n m : ℕ) → n < 256 ^ k → m < 256 ^ k → digits k n ≡ digits k m → n ≡ m
unfolding digits
digits-injective zero n m small small' e = omega (arith, small, small')
digits-injective (suc k) n m small small' e =
    let (high, low) =
      append-cancel (digits k (n / 256)) (digits k (m / 256))
        (length-digits k (n / 256) ∙ sym (length-digits k (m / 256))) e in
    let low' : n % 256 ≡ m % 256 = cc in
    let high' =
      digits-injective k (n / 256) (m / 256) (omega (arith, small, pow.suc 256 k))
        (omega (arith, small', pow.suc 256 k)) high in
    omega (arith, low', high')

-- The number that decimal digits stand for, after `acc`.
number : ℕ → Bytes → ℕ
number acc [] = acc
number acc (x ∷ xs) = number (acc * 10 + (x - 48)) xs

number-append :
    (acc : ℕ) (xs : Bytes) (y : ℕ) → number acc (xs ++ y ∷ []) ≡ number acc xs * 10 + (y - 48)
unfolding number
number-append acc [] y = refl
number-append acc (x ∷ xs) y = number-append (acc * 10 + (x - 48)) xs y

number-decimal : (turns n : ℕ) → n < turns → number 0 (decimal turns n) ≡ n
unfolding decimal number
number-decimal zero n h = elim h [ ]
number-decimal (suc turns) n h =
    ground
      (arith, number-decimal turns (n / 10), number-append 0 (decimal turns (n / 10)) (48 + n % 10))

-- No decimal text begins with a minus sign.
StartsWithDigit : Bytes → Type 0
StartsWithDigit [] = ⊥
StartsWithDigit (x ∷ xs) = 48 ≤ x

append-StartsWithDigit : (xs ys : Bytes) → StartsWithDigit xs → StartsWithDigit (xs ++ ys)
unfolding StartsWithDigit
append-StartsWithDigit [] ys h = absurd h
append-StartsWithDigit (x ∷ xs) ys h = h

decimal-StartsWithDigit : (turns n : ℕ) → n < turns → StartsWithDigit (decimal turns n)
unfolding decimal StartsWithDigit
decimal-StartsWithDigit zero n h = elim h [ ]
decimal-StartsWithDigit (suc turns) n h = elim (Bool-cases (ltb n 10)) [
  | inl small ↦ rw small (omega arith)
  | inr large ↦ rw large (
      append-StartsWithDigit (decimal turns (n / 10)) _
        (decimal-StartsWithDigit turns (n / 10) (ground (arith, large, h))))
]

minus-decimal : (n : ℕ) (xs : Bytes) → decimal (suc n) n ≡ 45 ∷ xs → ⊥
unfolding StartsWithDigit
minus-decimal n xs e =
    let starts : StartsWithDigit (45 ∷ xs) =
      subst StartsWithDigit e (decimal-StartsWithDigit (suc n) n (omega arith)) in
    absurd (omega (arith, starts))

int_text-injective : (a b : ℤ) → int_text a ≡ int_text b → a ≡ b
unfolding int_text
int_text-injective (pos n) (pos m) e = ap pos (
    sym (number-decimal (suc n) n (omega arith))
    ∙ ap (number 0) e
    ∙ number-decimal (suc m) m (omega arith))
int_text-injective (pos n) (negsuc m) e = absurd (minus-decimal n _ e)
int_text-injective (negsuc n) (pos m) e = absurd (minus-decimal m _ (sym e))
int_text-injective (negsuc n) (negsuc m) e =
    let tails : decimal (suc (suc n)) (suc n) ≡ decimal (suc (suc m)) (suc m) = cc in
    let same : suc n ≡ suc m =
      sym (number-decimal (suc (suc n)) (suc n) (omega arith))
      ∙ ap (number 0) tails
      ∙ number-decimal (suc (suc m)) (suc m) (omega arith) in
    ap negsuc (omega (arith, same))

-- Code points are read off from the front.
utf8_char-cancel :
    (c d : ℕ) (a b r s : Bytes)
    → utf8_char c ≡ ok a
    → utf8_char d ≡ ok b
    → a ++ r ≡ b ++ s
    → (c ≡ d) × (r ≡ s)
unfolding utf8_char
utf8_char-cancel c d a b r s h g e = ground (arith, h, g, e)

utf8_char-starts : (c : ℕ) (a r : Bytes) → utf8_char c ≡ ok a → a ++ r ≡ [] → ⊥
unfolding utf8_char
utf8_char-starts c a r h e = ground (arith, h, e)

pub utf8-injective : (s t : Text) (a : Bytes) → utf8 s ≡ ok a → utf8 t ≡ ok a → s ≡ t
unfolding utf8
utf8-injective [] [] a h g = refl
utf8-injective [] (d ∷ t) a h g =
    let (first, one, more) = bind-eq-ok (utf8_char d) _ g in
    let (rest, others, is) = bind-eq-ok (utf8 t) _ more in
    absurd (utf8_char-starts d first rest one cc)
utf8-injective (c ∷ s) [] a h g =
    let (first, one, more) = bind-eq-ok (utf8_char c) _ h in
    let (rest, others, is) = bind-eq-ok (utf8 s) _ more in
    absurd (utf8_char-starts c first rest one cc)
utf8-injective (c ∷ s) (d ∷ t) a h g =
    let (first, one, more) = bind-eq-ok (utf8_char c) _ h in
    let (rest, others, is) = bind-eq-ok (utf8 s) _ more in
    let (first', one', more') = bind-eq-ok (utf8_char d) _ g in
    let (rest', others', is') = bind-eq-ok (utf8 t) _ more' in
    let (same, tails) = utf8_char-cancel c d first first' rest rest' one one' cc in
    let equal = utf8-injective s t rest others (others' ∙ ap ok (sym tails)) in cc

-- A UUID has 128 bits.
abbrev pub FitsUuid : Scalar → Type 0
FitsUuid (identity u) = u < 256 ^ 16
FitsUuid (integer n) = Unit
FitsUuid (real x) = Unit
FitsUuid (text s) = Unit
FitsUuid (raw b) = Unit
FitsUuid (moment t) = Unit
FitsUuid (day d) = Unit

payloads : {x y p : Bytes} → ◌≡◌ {A = Result Bytes} (ok x) (ok p) → ok y ≡ ok p → x ≡ y
payloads h g = cc

-- What can be read back can be told apart.
back :
    {A : Type 0} (write : A → Bytes) (read : Bytes → Option A)
    → ((x : A) → read (write x) ≡ some x)
    → (a b : A) → write a ≡ write b
    → a ≡ b
back write read again a b e = some-injective _ _ (sym (again a) ∙ ap read e ∙ again b)

pub payload_of-injective :
    (std : Conversions) (doc : Documented std) (s t : Scalar) (p : Bytes)
    → FitsUuid s
    → FitsUuid t
    → payload_of std s ≡ ok p
    → payload_of std t ≡ ok p
    → kind_of s ≡ kind_of t
    → s ≡ t
unfolding payload_of kind_of
payload_of-injective std doc (integer a) (integer b) p f f' h g kinds =
    ap integer (int_text-injective a b (payloads h g))
payload_of-injective std doc (integer a) (real b) p f f' h g kinds = cc
payload_of-injective std doc (integer a) (text b) p f f' h g kinds = cc
payload_of-injective std doc (integer a) (raw b) p f f' h g kinds = cc
payload_of-injective std doc (integer a) (identity b) p f f' h g kinds = cc
payload_of-injective std doc (integer a) (moment b) p f f' h g kinds = cc
payload_of-injective std doc (integer a) (day b) p f f' h g kinds = cc
payload_of-injective std doc (real a) (integer b) p f f' h g kinds = cc
payload_of-injective std doc (real a) (real b) p f f' h g kinds =
    ap real (back std.hex doc.fromhex doc.fromhex_hex a b (payloads h g))
payload_of-injective std doc (real a) (text b) p f f' h g kinds = cc
payload_of-injective std doc (real a) (raw b) p f f' h g kinds = cc
payload_of-injective std doc (real a) (identity b) p f f' h g kinds = cc
payload_of-injective std doc (real a) (moment b) p f f' h g kinds = cc
payload_of-injective std doc (real a) (day b) p f f' h g kinds = cc
payload_of-injective std doc (text a) (integer b) p f f' h g kinds = cc
payload_of-injective std doc (text a) (real b) p f f' h g kinds = cc
payload_of-injective std doc (text a) (text b) p f f' h g kinds = ap text (utf8-injective a b p h g)
payload_of-injective std doc (text a) (raw b) p f f' h g kinds = cc
payload_of-injective std doc (text a) (identity b) p f f' h g kinds = cc
payload_of-injective std doc (text a) (moment b) p f f' h g kinds = cc
payload_of-injective std doc (text a) (day b) p f f' h g kinds = cc
payload_of-injective std doc (raw a) (integer b) p f f' h g kinds = cc
payload_of-injective std doc (raw a) (real b) p f f' h g kinds = cc
payload_of-injective std doc (raw a) (text b) p f f' h g kinds = cc
payload_of-injective std doc (raw a) (raw b) p f f' h g kinds = ap raw (payloads h g)
payload_of-injective std doc (raw a) (identity b) p f f' h g kinds = cc
payload_of-injective std doc (raw a) (moment b) p f f' h g kinds = cc
payload_of-injective std doc (raw a) (day b) p f f' h g kinds = cc
payload_of-injective std doc (identity a) (integer b) p f f' h g kinds = cc
payload_of-injective std doc (identity a) (real b) p f f' h g kinds = cc
payload_of-injective std doc (identity a) (text b) p f f' h g kinds = cc
payload_of-injective std doc (identity a) (raw b) p f f' h g kinds = cc
payload_of-injective std doc (identity a) (identity b) p f f' h g kinds =
    ap identity (digits-injective 16 a b f f' (payloads h g))
payload_of-injective std doc (identity a) (moment b) p f f' h g kinds = cc
payload_of-injective std doc (identity a) (day b) p f f' h g kinds = cc
payload_of-injective std doc (moment a) (integer b) p f f' h g kinds = cc
payload_of-injective std doc (moment a) (real b) p f f' h g kinds = cc
payload_of-injective std doc (moment a) (text b) p f f' h g kinds = cc
payload_of-injective std doc (moment a) (raw b) p f f' h g kinds = cc
payload_of-injective std doc (moment a) (identity b) p f f' h g kinds = cc
payload_of-injective std doc (moment a) (moment b) p f f' h g kinds =
    ap moment
      (back std.datetime_isoformat doc.datetime_fromisoformat doc.datetime_back a b (payloads h g))
payload_of-injective std doc (moment a) (day b) p f f' h g kinds = cc
payload_of-injective std doc (day a) (integer b) p f f' h g kinds = cc
payload_of-injective std doc (day a) (real b) p f f' h g kinds = cc
payload_of-injective std doc (day a) (text b) p f f' h g kinds = cc
payload_of-injective std doc (day a) (raw b) p f f' h g kinds = cc
payload_of-injective std doc (day a) (identity b) p f f' h g kinds = cc
payload_of-injective std doc (day a) (moment b) p f f' h g kinds = cc
payload_of-injective std doc (day a) (day b) p f f' h g kinds =
    ap day (back std.date_isoformat doc.date_fromisoformat doc.date_back a b (payloads h g))
