-- ===== src/Encoding/Parts.antt =====
-- What an encoding is made of, where there is one.
use sose.Prelude.{
  List, Result, [], ap, append_assoc, arith, bind-eq-ok, err, length, ok, refl, same, sym, ◌++◌,
  ◌>>=◌, ◌∙◌, ◌∷◌, ◌≡◌, ◌≢◌,
}
use sose.Encoding.Value.{
  Tag, Value, Values, bool, cons, encode, encode_text, enum, framed, frames_of, join, length_bytes,
  list, mapping, null, of_bool, of_enum, of_list, of_mapping, of_null, of_scalar, of_tuple, scalar,
  sequence_payload, tagged, tuple, unsupported,
}
use sose.Encoding.Scalars.{Bytes, Conversions, Kind, Text, digits, kind_of, payload_of, utf8}
use sose.Encoding.Lossless.{length-digits, utf8-injective}
use sose.Encoding.Bytes.{framed-cancel, framed-ok}

pub tagged-ok :
    (t : Tag) (r : Result Bytes) (o : Tag × Bytes)
    → tagged t r ≡ ok o
    → (payload : Bytes) × (r ≡ ok payload) × (o ≡ (t, payload))
tagged-ok t (ok payload) o h = (payload, refl, cc)
tagged-ok t (err e) o h = cc

sequence_payload-ok :
    (frames : List Bytes) (payload : Bytes)
    → sequence_payload frames ≡ ok payload
    → payload ≡ digits 8 (length frames) ++ join frames
unfolding sequence_payload length_bytes
sequence_payload-ok frames payload h = ground arith

-- What the payload of a sequence is made of, where there is one.
pub sequence-ok :
    (std : Conversions) (t : Tag) (vs : Values) (o : Tag × Bytes)
    → tagged t (do frames ← frames_of std vs; sequence_payload frames) ≡ ok o
    → (frames : List Bytes) × (prefix : Bytes) × (frames_of std vs ≡ ok frames)
      × (length prefix ≡ 8)
      × (o ≡ (t, prefix ++ join frames))
sequence-ok std t vs o h =
    let (payload, made, is) = tagged-ok t _ o h in
    let (frames, frames_made, rest) = bind-eq-ok (frames_of std vs) sequence_payload made in
    (
      frames,
      digits 8 (length frames),
      frames_made,
      length-digits 8 (length frames),
      is ∙ ap (λ bytes. (t, bytes)) (sequence_payload-ok frames payload rest),
    )

unfoldable pub tag_of : Value → Tag
tag_of null = of_null
tag_of (bool b) = of_bool
tag_of (scalar s) = of_scalar (kind_of s)
tag_of (enum module_name qualname value) = of_enum
tag_of (tuple values) = of_tuple
tag_of (list values) = of_list
tag_of (mapping fields) = of_mapping
tag_of unsupported = of_null

encode-tag :
    (std : Conversions) (v : Value) (o : Tag × Bytes) → encode std v ≡ ok o → o.0 ≡ tag_of v
unfolding encode tag_of
encode-tag std null o h = cc
encode-tag std (bool b) o h = cc
encode-tag std (scalar s) o h =
    let (p, e, is) = tagged-ok (of_scalar (kind_of s)) (payload_of std s) o h in cc
encode-tag std (enum module_name qualname value) o h =
    let (p, e, is) = tagged-ok of_enum _ o h in cc
encode-tag std (tuple values) o h = let (p, e, is) = tagged-ok of_tuple _ o h in cc
encode-tag std (list values) o h = let (p, e, is) = tagged-ok of_list _ o h in cc
encode-tag std (mapping fields) o h = let (p, e, is) = tagged-ok of_mapping _ o h in cc
encode-tag std unsupported o h = cc

-- What the payload of an enumeration's value is made of, where there is one.
pub enum-ok :
    (std : Conversions) (m u : Text) (v : Value) (o : Tag × Bytes)
    → encode std (enum m u v) ≡ ok o
    → (a : Bytes) × (b : Bytes) × (c : Bytes) × (framed (encode_text m) ≡ ok a)
      × (framed (encode_text u) ≡ ok b)
      × (framed (encode std v) ≡ ok c)
      × (o ≡ (of_enum, a ++ b ++ c))
unfolding encode
enum-ok std m u v o h =
    let (payload, made, is) = tagged-ok of_enum _ o h in
    let (a, first, rest) = bind-eq-ok (framed (encode_text m)) _ made in
    let (b, second, more) = bind-eq-ok (framed (encode_text u)) _ rest in
    let (c, third, done) = bind-eq-ok (framed (encode std v)) _ more in
    (a, b, c, first, second, third, cc)

-- The frames of some values begin with the frame of the first.
pub cons-ok :
    (std : Conversions) (v : Value) (vs : Values) (fs : List Bytes)
    → frames_of std (cons v vs) ≡ ok fs
    → (a : Bytes) × (rest : List Bytes) × (framed (encode std v) ≡ ok a)
      × (frames_of std vs ≡ ok rest)
      × (fs ≡ a ∷ rest)
unfolding frames_of
cons-ok std v vs fs h =
    let (a, first, more) = bind-eq-ok (framed (encode std v)) _ h in
    let (rest, others, done) = bind-eq-ok (frames_of std vs) _ more in (a, rest, first, others, cc)

-- A frame is not empty.
pub join-cons :
    (std : Conversions) (v : Value) (vs : Values) (fs : List Bytes)
    → frames_of std (cons v vs) ≡ ok fs
    → join fs ≢ []
unfolding join
join-cons std v vs fs h e =
    let (a, rest, first, others, is) = cons-ok std v vs fs h in
    let (t, p, made, fits, parts) = framed-ok (encode std v) a first in cc

-- Equal encodings of values have equal tags, and equal texts of frames begin with equal ones.
pub first_frame :
    (std : Conversions) (v w : Value) {a b r s : Bytes}
    → framed (encode std v) ≡ ok a
    → framed (encode std w) ≡ ok b
    → a ++ r ≡ b ++ s
    → (o : Tag × Bytes) × (encode std v ≡ ok o)
      × (encode std w ≡ ok o)
      × (tag_of v ≡ tag_of w)
      × (r ≡ s)
first_frame std v w {a} {b} {r} {s} h g e =
    let (same, rests) = framed-cancel (encode std v) (encode std w) h g e in
    let (t, p, made, fits, parts) = framed-ok (encode std v) a h in
    let made' = sym same ∙ made in
    ((t, p), made, made', sym (encode-tag std v (t, p) made) ∙ encode-tag std w (t, p) made', rests)

encode_text-same :
    (s t : Text) (a : Bytes) → framed (encode_text s) ≡ ok a → encode_text s ≡ encode_text t → s ≡ t
unfolding encode_text
encode_text-same s t a h same =
    let (tag, p, made, fits, parts) = framed-ok (encode_text s) a h in
    let (x, one, is) = tagged-ok (of_scalar Kind.str) (utf8 s) (tag, p) made in
    let (y, two, is') = tagged-ok (of_scalar Kind.str) (utf8 t) (tag, p) (sym same ∙ made) in
    utf8-injective s t x one (two ∙ ap (λ (o : Tag × Bytes). ok o.1) (sym is' ∙ is))

pub enum-same :
    (std : Conversions) (m m' u u' : Text) (v w : Value) (o : Tag × Bytes)
    → encode std (enum m u v) ≡ ok o
    → encode std (enum m' u' w) ≡ ok o
    → (m ≡ m')
      × (u ≡ u')
      × (o' : Tag × Bytes) × (encode std v ≡ ok o')
      × (encode std w ≡ ok o')
      × (tag_of v ≡ tag_of w)
enum-same std m m' u u' v w o h g =
    let (a, b, c, h1, h2, h3, made) = enum-ok std m u v o h in
    let (a', b', c', g1, g2, g3, made') = enum-ok std m' u' w o g in
    let all : a ++ (b ++ c) ≡ a' ++ (b' ++ c') =
      sym (append_assoc a b c) ∙ ap (λ x. x.1) (sym made ∙ made') ∙ append_assoc a' b' c' in
    let (m_same, more) = framed-cancel (encode_text m) (encode_text m') h1 g1 all in
    let (u_same, last) = framed-cancel (encode_text u) (encode_text u') h2 g2 more in
    let (o', hv, gw, same_tags, _) = first_frame std v w h3 g3 (ap (λ x. x ++ []) last) in
    (encode_text-same m m' a h1 m_same, encode_text-same u u' b h2 u_same, o', hv, gw, same_tags)
