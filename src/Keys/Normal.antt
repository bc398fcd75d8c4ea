-- ===== src/Keys/Normal.antt =====
-- The canonical form behind the texts of packages/core/src/keys/key.ts: a hole is `undefined`, a
-- number is its text, and the fields of an object are sorted.
use frond.Shared.{
  ℕ, suc, ◌≡◌, refl, ap, ◌∙◌, ◌==◌, nat_eq, Bool, true, false, List, [], ◌∷◌, if◌then◌else◌, arith,
}
use frond.Shared.Sort.{sort_by, insert_by}
use frond.Keys.Value.{
  Text, KeyInput, KeyItems, KeyFields, KeyResult, ok, err, bind, map_ok, is_plain, nan, infinite,
  finite, undefined, null, other, string, boolean, number, array, object, no_items, item, hole,
  no_fields, field, unsupported_json_value,
}
use frond.Keys.Encode.{
  Json, encode_key_value, encode_items, encode_fields, by_key, all_fields, item_path, field_path,
  field_text, undefined_text, null_text, boolean_text, bracketed, braced, assert_finite_number,
}

pub data Word : Type 0 where
  word_undefined word_null : Word
  word_boolean : Bool → Word

mutual
  pub data Canonical : Type 0 where
    word : Word → Canonical
    digits : ℕ → Canonical
    quoted : Text → Canonical
    listed : Canonicals → Canonical
    keyed : Entries → Canonical

  pub data Canonicals : Type 0 where
    end : Canonicals
    more : Canonical → Canonicals → Canonicals

  pub data Entries : Type 0 where
    last : Entries
    entry : Text → Canonical → Entries → Entries

abbrev pub minus_zero : ℕ
minus_zero = 9223372036854775808

-- Both zeros have the text "0".
abbrev pub unsigned_zero : ℕ → ℕ
unsigned_zero bits = if bits == minus_zero then 0 else bits

abbrev pub word_text : Word → Text
word_text word_undefined = undefined_text
word_text word_null = null_text
word_text (word_boolean b) = boolean_text b

pub all_entries : List (Text × KeyResult Canonical) → KeyResult Entries
all_entries [] = ok last
all_entries ((key, r) ∷ rs) =
    let rest = all_entries rs in bind r (λ c. bind rest (λ es. ok (entry key c es)))

-- The form with one zero.
unfoldable mutual
  pub merged : Canonical → Canonical
  merged (word w) = word w
  merged (digits bits) = digits (unsigned_zero bits)
  merged (quoted t) = quoted t
  merged (listed cs) = listed (merged_each cs)
  merged (keyed es) = keyed (merged_entries es)

  pub merged_each : Canonicals → Canonicals
  merged_each end = end
  merged_each (more c cs) = more (merged c) (merged_each cs)

  pub merged_entries : Entries → Entries
  merged_entries last = last
  merged_entries (entry key c es) = entry key (merged c) (merged_entries es)

unfoldable mutual
  unfolding by_key sort_by all_entries

  pub canonical : KeyInput → Text → Json → KeyResult Canonical
  canonical undefined path json = ok (word word_undefined)
  canonical null path json = ok (word word_null)
  canonical other path json = err (unsupported_json_value path)
  canonical (string t) path json = ok (quoted t)
  canonical (boolean b) path json = ok (word (word_boolean b))
  canonical (number n) path json = bind (assert_finite_number n path) (λ bits. ok (digits bits))
  canonical (array items) path json =
      bind (canonical_items items path 0 json) (λ cs. ok (listed cs))
  canonical (object prototype fields) path json =
      let entries = all_entries (sort_by by_key (canonical_fields fields path json)) in
      if is_plain prototype
      then bind entries (λ es. ok (keyed es))
      else err (unsupported_json_value path)

  pub canonical_items : KeyItems → Text → ℕ → Json → KeyResult Canonicals
  canonical_items no_items path index json = ok end
  canonical_items (item v vs) path index json =
      let first = canonical v (item_path json path index) json in
      let rest = canonical_items vs path (suc index) json in
      bind first (λ c. bind rest (λ cs. ok (more c cs)))
  canonical_items (hole vs) path index json =
      bind (canonical_items vs path (suc index) json) (λ cs. ok (more (word word_undefined) cs))

  pub canonical_fields : KeyFields → Text → Json → List (Text × KeyResult Canonical)
  canonical_fields no_fields path json = []
  canonical_fields (field key v vs) path json =
      (key, canonical v (field_path path key) json) ∷ canonical_fields vs path json

module _ (json : Json) where
  unfoldable mutual
    pub print : Canonical → Text
    print (word w) = word_text w
    print (digits bits) = json.of_number bits
    print (quoted t) = json.of_string t
    print (listed cs) = bracketed (print_each cs)
    print (keyed es) = braced (print_entries es)

    pub print_each : Canonicals → List Text
    print_each end = []
    print_each (more c cs) = print c ∷ print_each cs

    pub print_entries : Entries → List Text
    print_entries last = []
    print_entries (entry key c es) = field_text json key (print c) ∷ print_entries es

  abbrev printed : List (Text × KeyResult Canonical) → List (Text × KeyResult Text)
  printed [] = []
  printed ((key, r) ∷ rs) = (key, map_ok print r) ∷ printed rs

  insert_by-printed :
      (key : Text) (r : KeyResult Canonical) (rs : List (Text × KeyResult Canonical))
      → insert_by by_key (key, map_ok print r) (printed rs) ≡ printed (insert_by by_key (key, r) rs)
  unfolding insert_by by_key
  insert_by-printed key r [] = refl
  insert_by-printed key r ((j, s) ∷ rs) = ground (arith, insert_by-printed key r rs)

  sort_by-printed :
      (rs : List (Text × KeyResult Canonical))
      → sort_by by_key (printed rs) ≡ printed (sort_by by_key rs)
  unfolding sort_by
  sort_by-printed [] = refl
  sort_by-printed ((key, r) ∷ rs) =
      ap (insert_by by_key (key, map_ok print r)) (sort_by-printed rs)
      ∙ insert_by-printed key r (sort_by by_key rs)

  all_fields-printed :
      (rs : List (Text × KeyResult Canonical))
      → all_fields json (printed rs) ≡ map_ok print_entries (all_entries rs)
  unfolding all_fields all_entries print
  all_fields-printed [] = refl
  all_fields-printed ((key, r) ∷ rs) = ground (arith, all_fields-printed rs)

  mutual
    unfolding encode_key_value canonical print

    pub encode_key_value-eq-print :
        (v : KeyInput) (path : Text)
        → encode_key_value json v path ≡ map_ok print (canonical v path json)
    encode_key_value-eq-print undefined path = refl
    encode_key_value-eq-print null path = refl
    encode_key_value-eq-print other path = refl
    encode_key_value-eq-print (string t) path = refl
    encode_key_value-eq-print (boolean true) path = refl
    encode_key_value-eq-print (boolean false) path = refl
    encode_key_value-eq-print (number nan) path = refl
    encode_key_value-eq-print (number (infinite b)) path = refl
    encode_key_value-eq-print (number (finite bits)) path = refl
    encode_key_value-eq-print (array items) path =
        ground (arith, encode_items-eq-print items path 0)
    encode_key_value-eq-print (object prototype fields) path =
        let table = canonical_fields fields path json in
        ground (
          arith,
          encode_fields-eq-print fields path,
          sort_by-printed table,
          all_fields-printed (sort_by by_key table),
        )

    encode_items-eq-print :
        (vs : KeyItems) (path : Text) (index : ℕ)
        → encode_items json vs path index ≡ map_ok print_each (canonical_items vs path index json)
    encode_items-eq-print no_items path index = refl
    encode_items-eq-print (item v vs) path index = ground (
      arith,
      encode_key_value-eq-print v (item_path json path index),
      encode_items-eq-print vs path (suc index),
    )
    encode_items-eq-print (hole vs) path index =
        ground (arith, encode_items-eq-print vs path (suc index))

    encode_fields-eq-print :
        (vs : KeyFields) (path : Text)
        → encode_fields json vs path ≡ printed (canonical_fields vs path json)
    encode_fields-eq-print no_fields path = refl
    encode_fields-eq-print (field key v vs) path =
        ground
          (arith, encode_key_value-eq-print v (field_path path key), encode_fields-eq-print vs path)
