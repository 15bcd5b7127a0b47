-- ===== src/Encoding/Tests.antt =====
-- Encodings at concrete inputs, and the theorems at inputs that meet their hypotheses.
use sose.Prelude.{
  negsuc, pos, ℤ, Option, String, [], err, if◌then◌else◌, none, ok, refl, some, value_error, ℕ,
  ◌==◌, ◌∷◌, ◌≡◌, ◌≢◌, ◌⊎◌,
}
use sose.Encoding.Scalars.{
  Bytes, Conversions, Date, Datetime, Text, decimal, digits, int_text, integer, kind_of, payload_of,
  text, utf8, utf8_char,
}
use sose.Encoding.Lossless.{Documented}
use sose.Encoding.Value.{
  Values, cons, encode, encode_deterministic_parts, framed, frames_of, join, length_bytes, letter,
  nil, scalar, sequence_payload, tuple,
}
use sose.Encoding.Injective.{ArePlain, IsPlain, encode_deterministic_parts-injective}
use sose.Encoding.Identity.{
  deterministic_id, deterministic_id-injective, hex_digit, hexadecimal, sose_namespace,
}

-- Texts that can be read back: the numbers themselves, one after the other.
abbrev zone : Option ℤ → Bytes
zone none = []
zone (some (pos n)) = 43 ∷ n ∷ []
zone (some (negsuc n)) = 45 ∷ n ∷ []

abbrev read_zone : Bytes → Option ℤ
read_zone [] = none
read_zone (_ ∷ []) = none
read_zone (sign ∷ n ∷ _) = if sign == 43 then some (pos n) else some (negsuc n)

abbrev first_number : Bytes → Option ℕ
first_number [] = none
first_number (n ∷ _) = some n

abbrev read_date : Bytes → Option Date
read_date (y ∷ m ∷ d ∷ _) = some (record { year = y; month = m; day = d })
read_date _ = none

abbrev read_datetime : Bytes → Option Datetime
read_datetime (y ∷ m ∷ d ∷ h ∷ i ∷ s ∷ u ∷ rest) = some (record {
  of_day = record { year = y; month = m; day = d };
  hour = h;
  minute = i;
  second = s;
  microsecond = u;
  offset = read_zone rest;
})
read_datetime _ = none

abbrev plain_texts : Conversions
plain_texts = record {
  hex = λ x. x ∷ [];
  datetime_isoformat = λ t.
      t.of_day.year
      ∷ t.of_day.month
      ∷ t.of_day.day
      ∷ t.hour
      ∷ t.minute
      ∷ t.second
      ∷ t.microsecond
      ∷ zone t.offset;
  date_isoformat = λ d. d.year ∷ d.month ∷ d.day ∷ [];
}

zone_back : (o : Option ℤ) → read_zone (zone o) ≡ o
zone_back none = refl
zone_back (some (pos n)) = refl
zone_back (some (negsuc n)) = refl

plain_texts-Documented : Documented plain_texts
plain_texts-Documented = record {
  fromhex = first_number;
  datetime_fromisoformat = read_datetime;
  date_fromisoformat = read_date;
  fromhex_hex = λ x. refl;
  datetime_back = λ t. rw (zone_back t.offset) refl;
  date_back = λ d. refl;
}

-- "a", and -12
abbrev parts : Values
parts = cons (scalar (text (97 ∷ []))) (cons (scalar (integer (negsuc 11))) (cons (tuple nil) nil))

abbrev key : Bytes
key =
    115 ∷ 0 ∷ 0 ∷ 0 ∷ 0 ∷ 0 ∷ 0 ∷ 0 ∷ 1 ∷ 97 ∷ 105 ∷ 0 ∷ 0 ∷ 0 ∷ 0 ∷ 0 ∷ 0 ∷ 0 ∷ 3 ∷ 45 ∷ 49 ∷ 50
    ∷ 116 ∷ 0 ∷ 0 ∷ 0 ∷ 0 ∷ 0 ∷ 0 ∷ 0 ∷ 8 ∷ 0 ∷ 0 ∷ 0 ∷ 0 ∷ 0 ∷ 0 ∷ 0 ∷ 0 ∷ []

-- U+20AC is the euro sign; U+D800 is a surrogate.
euro : utf8 (0x20AC ∷ []) ≡ ok (0xE2 ∷ 0x82 ∷ 0xAC ∷ [])
unfolding utf8 utf8_char
euro = refl

surrogate : utf8 (97 ∷ 0xD800 ∷ []) ≡ err (value_error "surrogates not allowed")
unfolding utf8 utf8_char
surrogate = refl

abbrev kind_s : Text
kind_s = 115 ∷ []

abbrev kind_t : Text
kind_t = 116 ∷ []

two_parts : encode_deterministic_parts plain_texts parts ≡ ok key
unfolding encode_deterministic_parts encode frames_of framed length_bytes digits letter join
    sequence_payload kind_of payload_of int_text decimal utf8 utf8_char
two_parts = refl

encode_deterministic_parts-injective_example : parts ≡ parts
unfolding ArePlain IsPlain
encode_deterministic_parts-injective_example =
    encode_deterministic_parts-injective plain_texts plain_texts-Documented parts parts key
      (tt, (tt, (tt, tt))) (tt, (tt, (tt, tt))) two_parts two_parts

deterministic_id-injective_example :
    ((kind_s ≡ kind_t) × (parts ≡ nil))
    ⊎ ((k : Bytes) × (k' : Bytes) × (k ≢ k') × (◌≡◌ {A = String} "one" "one"))
unfolding deterministic_id encode_deterministic_parts encode frames_of framed length_bytes digits
    letter join sequence_payload kind_of payload_of int_text decimal utf8 utf8_char hexadecimal
    hex_digit ArePlain IsPlain
deterministic_id-injective_example =
    deterministic_id-injective plain_texts plain_texts-Documented (λ n k. "one") sose_namespace
      kind_s kind_t parts nil "one" (tt, (tt, (tt, tt))) tt refl refl
