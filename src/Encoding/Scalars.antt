-- ===== src/Encoding/Scalars.antt =====
-- core/encoding.py: the scalars, and the conversions of `_SCALAR_ENCODERS`. A byte is a number, a
-- `str` is the list of its code points, and a `float` its number as a 64-bit pattern, where `nan` is
-- one. The texts that `float.hex` and `isoformat` give are parameters; the decimal text of an
-- integer, UTF-8 and the bytes of a UUID are computed.
use sose.Prelude.{
  List, Option, Result, [], err, if◌then◌else◌, leb, ltb, negsuc, ok, pos, suc, value_error, zero,
  ℕ, ℤ, ◌%◌, ◌&&◌, ◌++◌, ◌+◌, ◌/◌, ◌>>=◌, ◌∷◌,
}

abbrev pub Bytes : Type 0
Bytes = List ℕ

abbrev pub Text : Type 0
Text = List ℕ

pub record Date : Type 0 where
  pub year : ℕ
  pub month : ℕ
  pub day : ℕ

-- `offset` is that of the zone from UTC, in seconds.
pub record Datetime : Type 0 where
  pub of_day : Date
  pub hour : ℕ
  pub minute : ℕ
  pub second : ℕ
  pub microsecond : ℕ
  pub offset : Option ℤ

pub data Kind : Type 0 where
  int float str bytes uuid datetime date : Kind

-- The instances of `int`, `float`, `str`, `bytes`, `UUID`, `datetime` and `date`.
pub data Scalar : Type 0 where
  integer : ℤ → Scalar
  real : ℕ → Scalar
  text : Text → Scalar
  raw : Bytes → Scalar
  identity : ℕ → Scalar
  moment : Datetime → Scalar
  day : Date → Scalar

-- What the code takes from the standard library's types.
pub record Conversions : Type 0 where
  pub hex : ℕ → Bytes
  pub datetime_isoformat : Datetime → Bytes
  pub date_isoformat : Date → Bytes

-- `n.to_bytes(k, "big")` for an `n` that fits
unfoldable pub digits : ℕ → ℕ → Bytes
digits zero n = []
digits (suc k) n = digits k (n / 256) ++ n % 256 ∷ []

-- The decimal digits of `n`, in ASCII; `suc n` turns are enough.
unfoldable pub decimal : ℕ → ℕ → Bytes
decimal zero n = []
decimal (suc turns) n =
    let rest = decimal turns (n / 10) in
    if ltb n 10 then (48 + n) ∷ [] else rest ++ (48 + n % 10) ∷ []

-- `str(n).encode("ascii")`
unfoldable pub int_text : ℤ → Bytes
unfolding decimal
int_text (pos n) = decimal (suc n) n
int_text (negsuc n) = 45 ∷ decimal (suc (suc n)) (suc n)

-- The bytes of a code point; a surrogate raises `UnicodeEncodeError`.
unfoldable pub utf8_char : ℕ → Result Bytes
utf8_char c =
    if ltb c 128
    then ok (c ∷ [])
    else if ltb c 2048
    then ok ((192 + c / 64) ∷ (128 + c % 64) ∷ [])
    else if leb 55296 c && ltb c 57344
    then err (value_error "surrogates not allowed")
    else if ltb c 65536
    then ok ((224 + c / 4096) ∷ (128 + c / 64 % 64) ∷ (128 + c % 64) ∷ [])
    else ok ((240 + c / 262144) ∷ (128 + c / 4096 % 64) ∷ (128 + c / 64 % 64) ∷ (128 + c % 64) ∷ [])

-- `s.encode("utf-8")`
unfoldable pub utf8 : Text → Result Bytes
unfolding utf8_char
utf8 [] = ok []
utf8 (c ∷ s) = do first ← utf8_char c; rest ← utf8 s; ok (first ++ rest)

unfoldable pub kind_of : Scalar → Kind
kind_of (integer n) = int
kind_of (real x) = float
kind_of (text s) = str
kind_of (raw b) = bytes
kind_of (identity u) = uuid
kind_of (moment t) = datetime
kind_of (day d) = date

-- The payload of `_encode_scalar`.
unfoldable pub payload_of : Conversions → Scalar → Result Bytes
unfolding int_text utf8 digits
payload_of std (integer n) = ok (int_text n)
payload_of std (real x) = ok (std.hex x)
payload_of std (text s) = utf8 s
payload_of std (raw b) = ok b
payload_of std (identity u) = ok (digits 16 u)
payload_of std (moment t) = ok (std.datetime_isoformat t)
payload_of std (day d) = ok (std.date_isoformat d)
