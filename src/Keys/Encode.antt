-- ===== src/Keys/Encode.antt =====
-- canonicalKey, canonicalArgs and encodeKeyValue of packages/core/src/keys/key.ts. JSON.stringify on
-- a text and on a finite number, and the text of an index, are the runtime's: the record `Json`.
use frond.Shared.{ℕ, suc, Bool, true, false, List, [], ◌∷◌, ◌++◌, if◌then◌else◌, length, leb, ltb}
use frond.Shared.Sort.{sort_by}
use frond.Keys.Value.{
  Text, KeyNumber, KeyInput, KeyItems, KeyFields, KeyResult, ok, err, bind, is_plain, nan, infinite,
  finite, undefined, null, other, string, boolean, number, array, object, no_items, item, hole,
  no_fields, field, non_finite_number, too_long, unsupported_json_value,
}

abbrev pub max_canonical_key_length : ℕ
max_canonical_key_length = 2048

pub record Json : Type 0 where
  pub of_string : Text → Text
  pub of_number : ℕ → Text
  pub of_index : ℕ → Text

-- "undefined", "null", "true", "false", "v1:" and "$".
abbrev pub undefined_text : Text
undefined_text = 117 ∷ 110 ∷ 100 ∷ 101 ∷ 102 ∷ 105 ∷ 110 ∷ 101 ∷ 100 ∷ []

abbrev pub null_text : Text
null_text = 110 ∷ 117 ∷ 108 ∷ 108 ∷ []

abbrev pub boolean_text : Bool → Text
boolean_text true = 116 ∷ 114 ∷ 117 ∷ 101 ∷ []
boolean_text false = 102 ∷ 97 ∷ 108 ∷ 115 ∷ 101 ∷ []

abbrev pub version : Text
version = 118 ∷ 49 ∷ 58 ∷ []

abbrev pub root : Text
root = 36 ∷ []

-- `texts.join(",")`, the part before which a text stands already, and the whole.
abbrev pub joined : List Text → Text
joined [] = []
joined (t ∷ ts) = 44 ∷ t ++ joined ts

abbrev pub join : List Text → Text
join [] = []
join (t ∷ ts) = t ++ joined ts

-- The order of `sort()` without a comparison: by code units.
unfoldable pub text_at_most : Text → Text → Bool
text_at_most [] u = true
text_at_most (a ∷ t) [] = false
text_at_most (a ∷ t) (b ∷ u) =
    let rest = text_at_most t u in if ltb a b then true else if ltb b a then false else rest

unfoldable pub by_key {ℓ} : {A : Type ℓ} → Text × A → Text × A → Bool
unfolding text_at_most
by_key (k, v) (j, w) = text_at_most k j

-- What an array's path and a field's path add.
abbrev pub item_path : Json → Text → ℕ → Text
item_path json path index = path ++ 91 ∷ json.of_index index ++ 93 ∷ []

abbrev pub field_path : Text → Text → Text
field_path path key = path ++ 46 ∷ key

-- `JSON.stringify(key):text`.
abbrev pub field_text : Json → Text → Text → Text
field_text json key text = json.of_string key ++ 58 ∷ text

-- The first error in order, or all the texts.
unfoldable pub all_fields : Json → List (Text × KeyResult Text) → KeyResult (List Text)
all_fields json [] = ok []
all_fields json ((key, r) ∷ rs) =
    let rest = all_fields json rs in
    bind r (λ text. bind rest (λ texts. ok (field_text json key text ∷ texts)))

abbrev pub bracketed : List Text → Text
bracketed texts = 91 ∷ join texts ++ 93 ∷ []

abbrev pub braced : List Text → Text
braced texts = 123 ∷ join texts ++ 125 ∷ []

abbrev pub assert_finite_number : KeyNumber → Text → KeyResult ℕ
assert_finite_number nan path = err (non_finite_number path nan)
assert_finite_number (infinite negative) path = err (non_finite_number path (infinite negative))
assert_finite_number (finite bits) path = ok bits

-- encodeKeyValue, encodeArray from an index on, and the fields of encodeObject, each with its own
-- result, for the sort to order.
unfoldable mutual
  unfolding by_key sort_by all_fields

  pub encode_key_value : Json → KeyInput → Text → KeyResult Text
  encode_key_value json undefined path = ok undefined_text
  encode_key_value json null path = ok null_text
  encode_key_value json other path = err (unsupported_json_value path)
  encode_key_value json (string t) path = ok (json.of_string t)
  encode_key_value json (boolean b) path = ok (boolean_text b)
  encode_key_value json (number n) path =
      bind (assert_finite_number n path) (λ bits. ok (json.of_number bits))
  encode_key_value json (array items) path =
      bind (encode_items json items path 0) (λ texts. ok (bracketed texts))
  encode_key_value json (object prototype fields) path =
      let texts = all_fields json (sort_by by_key (encode_fields json fields path)) in
      if is_plain prototype
      then bind texts (λ body. ok (braced body))
      else err (unsupported_json_value path)

  pub encode_items : Json → KeyItems → Text → ℕ → KeyResult (List Text)
  encode_items json no_items path index = ok []
  encode_items json (item v vs) path index =
      let first = encode_key_value json v (item_path json path index) in
      let rest = encode_items json vs path (suc index) in
      bind first (λ text. bind rest (λ texts. ok (text ∷ texts)))
  encode_items json (hole vs) path index =
      bind (encode_items json vs path (suc index)) (λ texts. ok (undefined_text ∷ texts))

  pub encode_fields : Json → KeyFields → Text → List (Text × KeyResult Text)
  encode_fields json no_fields path = []
  encode_fields json (field key v vs) path =
      (key, encode_key_value json v (field_path path key)) ∷ encode_fields json vs path

unfoldable pub canonicalize_key_input : Json → KeyInput → KeyResult Text
unfolding encode_key_value
canonicalize_key_input json v = bind (encode_key_value json v root) (λ text. ok (version ++ text))

unfoldable pub canonical_args : Json → KeyInput → KeyResult Text
unfolding canonicalize_key_input
canonical_args json args = canonicalize_key_input json args

abbrev pub assert_canonical_length : Text → KeyResult Text
assert_canonical_length text =
    if leb (length text) max_canonical_key_length
    then ok text
    else err (too_long max_canonical_key_length (length text))

unfoldable pub canonical_key : Json → KeyInput → KeyResult Text
unfolding canonicalize_key_input
canonical_key json input = bind (canonicalize_key_input json input) assert_canonical_length
