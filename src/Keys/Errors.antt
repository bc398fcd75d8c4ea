-- ===== src/Keys/Errors.antt =====
-- Which inputs of packages/core/src/keys/key.ts have a text, and the errors of the others.
use frond.Shared.{ℕ, suc, ◌≡◌, refl, Bool, true, false, ◌&&◌, List, [], ◌∷◌, arith}
use frond.Shared.Sort.{sort_by, insert_by}
use frond.Keys.Value.{
  Text, KeyNumber, KeyInput, KeyItems, KeyFields, KeyResult, ok, err, is_plain, finite, undefined,
  null, other, string, boolean, number, array, object, no_items, item, hole, no_fields, field,
  too_long,
}
use frond.Keys.Encode.{
  Json, encode_key_value, encode_items, encode_fields, by_key, all_fields, canonical_args,
  item_path, field_path, root,
}

abbrev pub is_finite : KeyNumber → Bool
is_finite (finite bits) = true
is_finite _ = false

-- JSON-shaped: every number finite, every object plain, and nothing else in it.
unfoldable mutual
  pub is_supported : KeyInput → Bool
  is_supported undefined = true
  is_supported null = true
  is_supported other = false
  is_supported (string t) = true
  is_supported (boolean b) = true
  is_supported (number n) = is_finite n
  is_supported (array items) = are_supported items
  is_supported (object prototype fields) = is_plain prototype && have_supported fields

  pub are_supported : KeyItems → Bool
  are_supported no_items = true
  are_supported (item v vs) = is_supported v && are_supported vs
  are_supported (hole vs) = are_supported vs

  pub have_supported : KeyFields → Bool
  have_supported no_fields = true
  have_supported (field key v vs) = is_supported v && have_supported vs

module _ {ℓ} {A : Type ℓ} where
  abbrev pub is_ok : KeyResult A → Bool
  is_ok (ok a) = true
  is_ok (err e) = false

  abbrev pub is_too_long : KeyResult A → Bool
  is_too_long (err (too_long most actual)) = true
  is_too_long _ = false

-- What holds of the results of all the fields.
abbrev all_by : (KeyResult Text → Bool) → List (Text × KeyResult Text) → Bool
all_by test [] = true
all_by test ((key, r) ∷ rs) = test r && all_by test rs

all_by-insert_by :
    (test : KeyResult Text → Bool) (key : Text) (r : KeyResult Text)
    (rs : List (Text × KeyResult Text))
    → all_by test (insert_by by_key (key, r) rs) ≡ (test r && all_by test rs)
unfolding insert_by
all_by-insert_by test key r [] = refl
all_by-insert_by test key r ((j, s) ∷ rs) = ground (arith, all_by-insert_by test key r rs)

all_by-sort_by :
    (test : KeyResult Text → Bool) (rs : List (Text × KeyResult Text))
    → all_by test (sort_by by_key rs) ≡ all_by test rs
unfolding sort_by
all_by-sort_by test [] = refl
all_by-sort_by test ((key, r) ∷ rs) =
    ground (arith, all_by-insert_by test key r (sort_by by_key rs), all_by-sort_by test rs)

is_ok-all_fields :
    (json : Json) (rs : List (Text × KeyResult Text)) → is_ok (all_fields json rs) ≡ all_by is_ok rs
unfolding all_fields
is_ok-all_fields json [] = refl
is_ok-all_fields json ((key, r) ∷ rs) = ground (arith, is_ok-all_fields json rs)

abbrev short : KeyResult Text → Bool
short (err (too_long most actual)) = false
short _ = true

is_too_long-all_fields :
    (json : Json) (rs : List (Text × KeyResult Text))
    → all_by short rs ≡ true
    → is_too_long (all_fields json rs) ≡ false
unfolding all_fields
is_too_long-all_fields json [] h = refl
is_too_long-all_fields json ((key, r) ∷ rs) h = ground (arith, is_too_long-all_fields json rs)

module _ (json : Json) where
  mutual
    unfolding encode_key_value is_supported

    is_ok-encode_key_value :
        (v : KeyInput) (path : Text) → is_ok (encode_key_value json v path) ≡ is_supported v
    is_ok-encode_key_value undefined path = refl
    is_ok-encode_key_value null path = refl
    is_ok-encode_key_value other path = refl
    is_ok-encode_key_value (string t) path = refl
    is_ok-encode_key_value (boolean b) path = refl
    is_ok-encode_key_value (number n) path = ground arith
    is_ok-encode_key_value (array items) path = ground (arith, is_ok-encode_items items path 0)
    is_ok-encode_key_value (object prototype fields) path =
        let table = encode_fields json fields path in
        ground (
          arith,
          is_ok-all_fields json (sort_by by_key table),
          all_by-sort_by is_ok table,
          is_ok-encode_fields fields path,
        )

    is_ok-encode_items :
        (vs : KeyItems) (path : Text) (index : ℕ)
        → is_ok (encode_items json vs path index) ≡ are_supported vs
    is_ok-encode_items no_items path index = refl
    is_ok-encode_items (item v vs) path index = ground (
      arith,
      is_ok-encode_key_value v (item_path json path index),
      is_ok-encode_items vs path (suc index),
    )
    is_ok-encode_items (hole vs) path index = ground (arith, is_ok-encode_items vs path (suc index))

    is_ok-encode_fields :
        (vs : KeyFields) (path : Text)
        → all_by is_ok (encode_fields json vs path) ≡ have_supported vs
    is_ok-encode_fields no_fields path = refl
    is_ok-encode_fields (field key v vs) path =
        ground (arith, is_ok-encode_key_value v (field_path path key), is_ok-encode_fields vs path)

  mutual
    unfolding encode_key_value

    short-encode_key_value :
        (v : KeyInput) (path : Text) → is_too_long (encode_key_value json v path) ≡ false
    short-encode_key_value undefined path = refl
    short-encode_key_value null path = refl
    short-encode_key_value other path = refl
    short-encode_key_value (string t) path = refl
    short-encode_key_value (boolean b) path = refl
    short-encode_key_value (number n) path = ground arith
    short-encode_key_value (array items) path = ground (arith, short-encode_items items path 0)
    short-encode_key_value (object prototype fields) path =
        let table = encode_fields json fields path in
        ground (
          arith,
          is_too_long-all_fields json (sort_by by_key table),
          all_by-sort_by short table,
          short-encode_fields fields path,
        )

    short-encode_items :
        (vs : KeyItems) (path : Text) (index : ℕ)
        → is_too_long (encode_items json vs path index) ≡ false
    short-encode_items no_items path index = refl
    short-encode_items (item v vs) path index = ground (
      arith,
      short-encode_key_value v (item_path json path index),
      short-encode_items vs path (suc index),
    )
    short-encode_items (hole vs) path index = ground (arith, short-encode_items vs path (suc index))

    short-encode_fields :
        (vs : KeyFields) (path : Text) → all_by short (encode_fields json vs path) ≡ true
    short-encode_fields no_fields path = refl
    short-encode_fields (field key v vs) path =
        ground (arith, short-encode_key_value v (field_path path key), short-encode_fields vs path)

  -- Args have a text exactly if they are JSON-shaped, all through, and no args are too long.
  pub canonical_args_lem :
      (args : KeyInput)
      → (is_ok (canonical_args json args) ≡ is_supported args)
        × (is_too_long (canonical_args json args) ≡ false)
  unfolding canonical_args
  canonical_args_lem args =
      ground (arith, is_ok-encode_key_value args root, short-encode_key_value args root)
