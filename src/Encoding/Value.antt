-- ===== src/Encoding/Value.antt =====
-- core/encoding.py: the values that a scope may hold, and their encoding.
use sose.Prelude.{
  Bool, List, Result, [], err, if◌then◌else◌, length, ltb, ok, overflow_error, sorted, true,
  type_error, ℕ, ◌++◌, ◌>>=◌, ◌^◌, ◌∷◌,
}
use sose.Encoding.Scalars.{
  Bytes, Conversions, Kind, Scalar, Text, bytes, date, datetime, digits, float, int, kind_of,
  payload_of, str, utf8, uuid,
}

mutual
  pub data Value : Type 0 where
    null : Value
    bool : Bool → Value
    scalar : Scalar → Value
    enum : Text → Text → Value → Value
    tuple list : Values → Value
    mapping : Fields → Value
    unsupported : Value

  pub data Values : Type 0 where
    nil : Values
    cons : Value → Values → Values

  pub data Fields : Type 0 where
    end : Fields
    field : Value → Value → Fields → Fields

pub data Tag : Type 0 where
  of_null of_enum of_bool of_tuple of_list of_mapping : Tag
  of_scalar : Kind → Tag

-- The letter of a tag, in ASCII.
unfoldable pub letter : Tag → ℕ
letter of_null = 110
letter of_enum = 101
letter of_bool = 98
letter of_tuple = 116
letter of_list = 108
letter of_mapping = 109
letter (of_scalar int) = 105
letter (of_scalar float) = 102
letter (of_scalar str) = 115
letter (of_scalar bytes) = 121
letter (of_scalar uuid) = 117
letter (of_scalar datetime) = 100
letter (of_scalar date) = 68

-- `n.to_bytes(_LENGTH_BYTES, "big")`
unfoldable pub length_bytes : ℕ → Result Bytes
length_bytes n =
    if ltb n (256 ^ 8) then ok (digits 8 n) else err (overflow_error "int too big to convert")

-- `_frame`, of what `_encode` returns
unfoldable pub framed : Result (Tag × Bytes) → Result Bytes
framed (err e) = err e
framed (ok (tag, payload)) = do
  prefix ← length_bytes (length payload)
  ok (letter tag ∷ prefix ++ payload)

unfoldable pub join : List Bytes → Bytes
join [] = []
join (x ∷ xs) = x ++ join xs

-- The order of `bytes`.
unfoldable pub bytes_leb : Bytes → Bytes → Bool
bytes_leb [] ys = true
bytes_leb (x ∷ xs) [] = Bool.false
bytes_leb (x ∷ xs) (y ∷ ys) =
    let rest = bytes_leb xs ys in if ltb x y then true else if ltb y x then Bool.false else rest

-- The payload of `_encode_sequence`, of the frames of its items.
unfoldable pub sequence_payload : List Bytes → Result Bytes
sequence_payload frames = do prefix ← length_bytes (length frames); ok (prefix ++ join frames)

join_pairs : List (Bytes × Bytes) → Bytes
join_pairs [] = []
join_pairs ((key, item) ∷ pairs) = key ++ item ++ join_pairs pairs

-- The payload of `_encode_mapping`: pairs in the order of the encoded keys.
unfoldable pub mapping_payload : List (Bytes × Bytes) → Result Bytes
unfolding join_pairs
mapping_payload pairs = do
  prefix ← length_bytes (length pairs)
  ok (prefix ++ join_pairs (sorted (λ a b. bytes_leb a.0 b.0) pairs))

abbrev pub tagged : Tag → Result Bytes → Result (Tag × Bytes)
tagged tag payload = do p ← payload; ok (tag, p)

-- `_encode` of a `str`
unfoldable pub encode_text : Text → Result (Tag × Bytes)
encode_text s = tagged (of_scalar str) (utf8 s)

module _ (std : Conversions) where
  -- `_encode`
  unfoldable mutual
    unfolding encode_text

    pub encode : Value → Result (Tag × Bytes)
    encode null = ok (of_null, [])
    encode (bool b) = ok (of_bool, (if b then 49 else 48) ∷ [])
    encode (scalar s) = tagged (of_scalar (kind_of s)) (payload_of std s)
    encode (enum module_name qualname value) = tagged of_enum (do
      a ← framed (encode_text module_name)
      b ← framed (encode_text qualname)
      c ← framed (encode value)
      ok (a ++ b ++ c))
    encode (tuple values) = tagged of_tuple (do frames ← frames_of values; sequence_payload frames)
    encode (list values) = tagged of_list (do frames ← frames_of values; sequence_payload frames)
    encode (mapping fields) = tagged of_mapping (do pairs ← pairs_of fields; mapping_payload pairs)
    encode unsupported =
        err (type_error "deterministic scope parts must use supported stable types")

    pub frames_of : Values → Result (List Bytes)
    frames_of nil = ok []
    frames_of (cons value values) = do
      first ← framed (encode value)
      rest ← frames_of values
      ok (first ∷ rest)

    pub pairs_of : Fields → Result (List (Bytes × Bytes))
    pairs_of end = ok []
    pairs_of (field name value fields) = do
      key ← framed (encode name)
      item ← framed (encode value)
      rest ← pairs_of fields
      ok ((key, item) ∷ rest)

  unfoldable pub encode_deterministic_parts : Values → Result Bytes
  unfolding frames_of
  encode_deterministic_parts parts = do frames ← frames_of parts; ok (join frames)
