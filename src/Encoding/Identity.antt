-- ===== src/Encoding/Identity.antt =====
-- core/identity.py: an identity is the text of a version 5 UUID of the encoding, in hexadecimal.
-- `uuid5` stands for `str(uuid5(namespace, name))` of the standard library.
use sose.Prelude.{
  Result, String, [], ap, arith, bind-eq-ok, if◌then◌else◌, inl, inr, ltb, ok, refl, sym, ℕ,
  ℕ_discrete, ◌%◌, ◌+◌, ◌/◌, ◌>>=◌, ◌≡◌, ◌≢◌, ◌⊎◌, ◌∙◌, ◌∷◌,
}
use sose.Encoding.Scalars.{Bytes, Conversions, Text, text}
use sose.Encoding.Lossless.{Documented}
use sose.Encoding.Value.{Values, cons, encode_deterministic_parts, scalar}
use sose.Encoding.Injective.{ArePlain, IsPlain, encode_deterministic_parts-injective}

-- A hexadecimal digit, in ASCII.
unfoldable pub hex_digit : ℕ → ℕ
hex_digit d = if ltb d 10 then 48 + d else 87 + d

-- `key.hex()`
unfoldable pub hexadecimal : Bytes → Bytes
unfolding hex_digit
hexadecimal [] = []
hexadecimal (b ∷ key) = hex_digit (b / 16) ∷ hex_digit (b % 16) ∷ hexadecimal key

-- `SOSE_NAMESPACE`, the default of `namespace`
abbrev pub sose_namespace : String
sose_namespace = "942319d8-a85f-5c79-a828-982f97dcbe56"

abbrev pub scope : Text → Values → Values
scope kind parts = cons (scalar (text kind)) parts

unfoldable pub deterministic_id :
    Conversions → (String → Bytes → String) → String → Text → Values → Result String
unfolding hexadecimal
deterministic_id std uuid5 namespace kind parts = do
  key ← encode_deterministic_parts std (scope kind parts)
  ok (uuid5 namespace (hexadecimal key))

hex_digit-injective : (a b : ℕ) → hex_digit a ≡ hex_digit b → a ≡ b
unfolding hex_digit
hex_digit-injective a b e = ground (arith, e)

hexadecimal-injective : (a b : Bytes) → hexadecimal a ≡ hexadecimal b → a ≡ b
unfolding hexadecimal
hexadecimal-injective [] [] e = refl
hexadecimal-injective [] (y ∷ b) e = cc
hexadecimal-injective (x ∷ a) [] e = cc
hexadecimal-injective (x ∷ a) (y ∷ b) e =
    let high = hex_digit-injective (x / 16) (y / 16) cc in
    let low = hex_digit-injective (x % 16) (y % 16) cc in
    let same : x ≡ y = omega (arith, high, low) in let rest = hexadecimal-injective a b cc in cc

Bytes-discrete : Discrete Bytes
Bytes-discrete = hlevel (ℕ_discrete)

-- Where the texts of floats and dates can be read back, as documented: identities of one namespace
-- collide only where `uuid5` does. When two kinds, with parts that hold no mapping and no UUID past
-- 128 bits, have the same identity, then the kinds and the parts are the same, or `uuid5` gives one
-- text for two different names.
pub deterministic_id-injective :
    (std : Conversions) (doc : Documented std) (uuid5 : String → Bytes → String)
    (namespace : String) (kind kind' : Text) (ps qs : Values) (id : String)
    → ArePlain ps
    → ArePlain qs
    → deterministic_id std uuid5 namespace kind ps ≡ ok id
    → deterministic_id std uuid5 namespace kind' qs ≡ ok id
    → ((kind ≡ kind') × (ps ≡ qs))
      ⊎ ((key : Bytes) × (key' : Bytes) × (key ≢ key')
          × (uuid5 namespace key ≡ uuid5 namespace key'))
unfolding deterministic_id IsPlain
deterministic_id-injective std doc uuid5 namespace kind kind' ps qs id p q h g =
    let (key, made, same) = bind-eq-ok (encode_deterministic_parts std (scope kind ps)) _ h in
    let (key', made', same') = bind-eq-ok (encode_deterministic_parts std (scope kind' qs)) _ g in
    elim (Bytes-discrete (hexadecimal key) (hexadecimal key')) [
      | yes e ↦
          let scopes =
            encode_deterministic_parts-injective std doc (scope kind ps) (scope kind' qs) key
              (tt, p) (tt, q) made (made' ∙ ap ok (sym (hexadecimal-injective key key' e))) in
          inl (cc, cc)
      | no e ↦ inr (hexadecimal key, hexadecimal key', e, cc)
    ]
