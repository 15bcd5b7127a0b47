-- ===== src/Encoding/Bytes.antt =====
-- Byte strings that are read from the front: a prefix of known length, and a number of known width.
use sose.Prelude.{
  Result, ap, append_assoc, arith, err, if◌then◌else◌, length, ok, refl, sym, ℕ, ◌++◌, ◌<◌, ◌==◌,
  ◌^◌, ◌∙◌, ◌∷◌, ◌≡◌,
}
use sose.Encoding.Scalars.{Bytes, Kind, bytes, date, datetime, digits, float, int, str, uuid}
use sose.Encoding.Lossless.{append-cancel, digits-injective, length-digits}
use sose.Encoding.Value.{
  Tag, framed, length_bytes, letter, of_bool, of_enum, of_list, of_mapping, of_null, of_scalar,
  of_tuple,
}

-- The tag of a letter.
untag : ℕ → Tag
untag n =
    if n == 110
    then of_null
    else if n == 101
    then of_enum
    else if n == 98
    then of_bool
    else if n == 116
    then of_tuple
    else if n == 108
    then of_list
    else if n == 109
    then of_mapping
    else if n == 105
    then of_scalar Kind.int
    else if n == 102
    then of_scalar Kind.float
    else if n == 115
    then of_scalar Kind.str
    else if n == 121
    then of_scalar Kind.bytes
    else if n == 117
    then of_scalar Kind.uuid
    else if n == 100
    then of_scalar Kind.datetime
    else of_scalar Kind.date

untag-letter : (t : Tag) → untag (letter t) ≡ t
unfolding untag letter
untag-letter of_null = refl
untag-letter of_enum = refl
untag-letter of_bool = refl
untag-letter of_tuple = refl
untag-letter of_list = refl
untag-letter of_mapping = refl
untag-letter (of_scalar int) = refl
untag-letter (of_scalar float) = refl
untag-letter (of_scalar str) = refl
untag-letter (of_scalar bytes) = refl
untag-letter (of_scalar uuid) = refl
untag-letter (of_scalar datetime) = refl
untag-letter (of_scalar date) = refl

letter-injective : (t u : Tag) → letter t ≡ letter u → t ≡ u
letter-injective t u e = sym (untag-letter t) ∙ ap untag e ∙ untag-letter u

-- What a frame is made of, where there is one.
pub framed-ok :
    (o : Result (Tag × Bytes)) (a : Bytes)
    → framed o ≡ ok a
    → (t : Tag) × (p : Bytes) × (o ≡ ok (t, p))
      × (length p < 256 ^ 8)
      × (a ≡ letter t ∷ digits 8 (length p) ++ p)
unfolding framed length_bytes
framed-ok (err e) a h = cc
framed-ok (ok (t, p)) a h = (t, p, refl, ground arith, ground arith)

-- Frames are read off from the front: two texts that start with a frame start with the same one.
pub framed-cancel :
    (o o' : Result (Tag × Bytes)) {a b r s : Bytes}
    → framed o ≡ ok a
    → framed o' ≡ ok b
    → a ++ r ≡ b ++ s
    → (o ≡ o') × (r ≡ s)
framed-cancel o o' {r = r} {s = s} h h' e =
    let (t, p, is, fits, parts) = framed-ok o _ h in
    let (t', p', is', fits', parts') = framed-ok o' _ h' in
    let tails : (digits 8 (length p) ++ p) ++ r ≡ (digits 8 (length p') ++ p') ++ s = cc in
    let (prefixes, payloads) =
      append-cancel (digits 8 (length p)) (digits 8 (length p'))
        (length-digits 8 (length p) ∙ sym (length-digits 8 (length p')))
        (sym (append_assoc _ p r) ∙ tails ∙ append_assoc _ p' s) in
    let (same_payload, rests) =
      append-cancel p p' (digits-injective 8 (length p) (length p') fits fits' prefixes) payloads in
    let same_tag = letter-injective t t' cc in (cc, rests)
