-- ===== src/Encoding/Injective.antt =====
-- The encoding of core/encoding.py has no collisions: the parts can be told from their encoding.
use sose.Prelude.{List, ap, arith, bind-eq-ok, ok, refl, same, sym, ◌∙◌, ◌≡◌}
use sose.Encoding.Value.{
  Tag, Value, Values, bool, cons, encode, encode_deterministic_parts, enum, frames_of, join, list,
  mapping, nil, null, of_list, of_scalar, of_tuple, scalar, tuple, unsupported,
}
use sose.Encoding.Scalars.{Bytes, Conversions, kind_of, payload_of}
use sose.Encoding.Lossless.{Documented, FitsUuid, append-cancel, payload_of-injective}
use sose.Encoding.Parts.{cons-ok, enum-same, first_frame, join-cons, sequence-ok, tag_of, tagged-ok}

-- No mapping inside, and UUIDs of 128 bits.
unfoldable mutual
  pub IsPlain : Value → Type 0
  IsPlain null = Unit
  IsPlain (bool b) = Unit
  IsPlain (scalar s) = FitsUuid s
  IsPlain (enum module_name qualname value) = IsPlain value
  IsPlain (tuple values) = ArePlain values
  IsPlain (list values) = ArePlain values
  IsPlain (mapping fields) = ⊥
  IsPlain unsupported = Unit

  pub ArePlain : Values → Type 0
  ArePlain nil = Unit
  ArePlain (cons value values) = IsPlain value × ArePlain values

mutual
  unfolding encode frames_of IsPlain tag_of join

  encode-injective :
      (std : Conversions) (doc : Documented std) (v w : Value) (o : Tag × Bytes)
      → IsPlain v
      → IsPlain w
      → encode std v ≡ ok o
      → encode std w ≡ ok o
      → tag_of v ≡ tag_of w
      → v ≡ w
  encode-injective std doc null null o p q h g tags = refl
  encode-injective std doc null (bool b') o p q h g tags = cc
  encode-injective std doc null (scalar a') o p q h g tags = cc
  encode-injective std doc null (enum m' u' w) o p q h g tags = cc
  encode-injective std doc null (tuple ws) o p q h g tags = cc
  encode-injective std doc null (list ws) o p q h g tags = cc
  encode-injective std doc null (mapping f') o p q h g tags = absurd q
  encode-injective std doc null unsupported o p q h g tags = cc
  encode-injective std doc (bool b) null o p q h g tags = cc
  encode-injective std doc (bool b) (bool b') o p q h g tags = ground (arith, h, g)
  encode-injective std doc (bool b) (scalar a') o p q h g tags = cc
  encode-injective std doc (bool b) (enum m' u' w) o p q h g tags = cc
  encode-injective std doc (bool b) (tuple ws) o p q h g tags = cc
  encode-injective std doc (bool b) (list ws) o p q h g tags = cc
  encode-injective std doc (bool b) (mapping f') o p q h g tags = absurd q
  encode-injective std doc (bool b) unsupported o p q h g tags = cc
  encode-injective std doc (scalar a) null o p q h g tags = cc
  encode-injective std doc (scalar a) (bool b') o p q h g tags = cc
  encode-injective std doc (scalar a) (scalar a') o p q h g tags =
      let (x, made, is) = tagged-ok (of_scalar (kind_of a)) (payload_of std a) o h in
      let (y, made', is') = tagged-ok (of_scalar (kind_of a')) (payload_of std a') o g in
      let same : y ≡ x = ap (λ (t : Tag × Bytes). t.1) (sym is' ∙ is) in
      ap scalar (payload_of-injective std doc a a' x p q made (made' ∙ ap ok same) cc)
  encode-injective std doc (scalar a) (enum m' u' w) o p q h g tags = cc
  encode-injective std doc (scalar a) (tuple ws) o p q h g tags = cc
  encode-injective std doc (scalar a) (list ws) o p q h g tags = cc
  encode-injective std doc (scalar a) (mapping f') o p q h g tags = absurd q
  encode-injective std doc (scalar a) unsupported o p q h g tags = cc
  encode-injective std doc (enum m u v) null o p q h g tags = cc
  encode-injective std doc (enum m u v) (bool b') o p q h g tags = cc
  encode-injective std doc (enum m u v) (scalar a') o p q h g tags = cc
  encode-injective std doc (enum m u v) (enum m' u' w) o p q h g tags =
      let (m_same, u_same, o', hv, gw, same_tags) = enum-same std m m' u u' v w o h g in
      let same = encode-injective std doc v w o' p q hv gw same_tags in
      ground (arith, m_same, u_same, same)
  encode-injective std doc (enum m u v) (tuple ws) o p q h g tags = cc
  encode-injective std doc (enum m u v) (list ws) o p q h g tags = cc
  encode-injective std doc (enum m u v) (mapping f') o p q h g tags = absurd q
  encode-injective std doc (enum m u v) unsupported o p q h g tags = cc
  encode-injective std doc (tuple vs) null o p q h g tags = cc
  encode-injective std doc (tuple vs) (bool b') o p q h g tags = cc
  encode-injective std doc (tuple vs) (scalar a') o p q h g tags = cc
  encode-injective std doc (tuple vs) (enum m' u' w) o p q h g tags = cc
  encode-injective std doc (tuple vs) (tuple ws) o p q h g tags =
      let (fs, first, made, eight, parts) = sequence-ok std of_tuple vs o h in
      let (gs, first', made', eight', parts') = sequence-ok std of_tuple ws o g in
      let same = append-cancel first first' (eight ∙ sym eight') cc in
      ap tuple (frames-injective std doc vs ws fs gs p q made made' same.1)
  encode-injective std doc (tuple vs) (list ws) o p q h g tags = cc
  encode-injective std doc (tuple vs) (mapping f') o p q h g tags = absurd q
  encode-injective std doc (tuple vs) unsupported o p q h g tags = cc
  encode-injective std doc (list vs) null o p q h g tags = cc
  encode-injective std doc (list vs) (bool b') o p q h g tags = cc
  encode-injective std doc (list vs) (scalar a') o p q h g tags = cc
  encode-injective std doc (list vs) (enum m' u' w) o p q h g tags = cc
  encode-injective std doc (list vs) (tuple ws) o p q h g tags = cc
  encode-injective std doc (list vs) (list ws) o p q h g tags =
      let (fs, first, made, eight, parts) = sequence-ok std of_list vs o h in
      let (gs, first', made', eight', parts') = sequence-ok std of_list ws o g in
      let same = append-cancel first first' (eight ∙ sym eight') cc in
      ap list (frames-injective std doc vs ws fs gs p q made made' same.1)
  encode-injective std doc (list vs) (mapping f') o p q h g tags = absurd q
  encode-injective std doc (list vs) unsupported o p q h g tags = cc
  encode-injective std doc (mapping f) w o p q h g tags = absurd p
  encode-injective std doc unsupported w o p q h g tags = cc

  frames-injective :
      (std : Conversions) (doc : Documented std) (vs ws : Values) (fs gs : List Bytes)
      → ArePlain vs
      → ArePlain ws
      → frames_of std vs ≡ ok fs
      → frames_of std ws ≡ ok gs
      → join fs ≡ join gs
      → vs ≡ ws
  frames-injective std doc nil nil fs gs p q h g e = refl
  frames-injective std doc nil (cons w ws) fs gs p q h g e = absurd (join-cons std w ws gs g cc)
  frames-injective std doc (cons v vs) nil fs gs p q h g e = absurd (join-cons std v vs fs h cc)
  frames-injective std doc (cons v vs) (cons w ws) fs gs p q h g e =
      let (a, rest, first, others, is) = cons-ok std v vs fs h in
      let (b, rest', first', others', is') = cons-ok std w ws gs g in
      let (o, hv, gw, same_tags, joins) = first_frame std v w first first' cc in
      let heads = encode-injective std doc v w o p.0 q.0 hv gw same_tags in
      let tails = frames-injective std doc vs ws rest rest' p.1 q.1 others others' joins in cc

-- Where the texts of floats and dates can be read back, as documented: the parts of a scope can be
-- told from its encoding. Parts that hold no mapping and no UUID past 128 bits, and that are encoded
-- and have the same encoding, are the same, whatever their number, their kinds and their nesting.
pub encode_deterministic_parts-injective :
    (std : Conversions) (doc : Documented std) (ps qs : Values) (k : Bytes)
    → ArePlain ps
    → ArePlain qs
    → encode_deterministic_parts std ps ≡ ok k
    → encode_deterministic_parts std qs ≡ ok k
    → ps ≡ qs
unfolding encode_deterministic_parts
encode_deterministic_parts-injective std doc ps qs k p q h g =
    let (fs, made, same) = bind-eq-ok (frames_of std ps) _ h in
    let (gs, made', same') = bind-eq-ok (frames_of std qs) _ g in
    frames-injective std doc ps qs fs gs p q made made' cc
