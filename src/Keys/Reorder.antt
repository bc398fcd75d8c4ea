-- ===== src/Keys/Reorder.antt =====
-- The fields of an object in another order, for packages/core/src/keys/key.ts.
use frond.Shared.{◌≡◌, ◌≢◌, refl, ap, ◌∙◌, true, false, List, [], ◌∷◌, arith}
use frond.Shared.Sort.{sort_by, insert_by}
use frond.Keys.Value.{Text, KeyInput, KeyFields, KeyResult, object, field, Prototype}
use frond.Keys.Encode.{
  Json, encode_key_value, encode_fields, by_key, text_at_most, field_path, canonical_key,
  canonical_args, root,
}

-- One order of fields after the other; the fields that change places have different keys.
pub data Reordered : KeyFields → KeyFields → Type 0 where
  same : {fs : KeyFields} → Reordered fs fs
  below :
      {k : Text} {v : KeyInput} {fs gs : KeyFields}
      → Reordered fs gs
      → Reordered (field k v fs) (field k v gs)
  swap :
      {k j : Text} {v w : KeyInput} {fs : KeyFields}
      → k ≢ j
      → Reordered (field k v (field j w fs)) (field j w (field k v fs))
  both : {fs gs hs : KeyFields} → Reordered fs gs → Reordered gs hs → Reordered fs hs

text_at_most-total : (t u : Text) → text_at_most t u ≡ false → text_at_most u t ≡ true
unfolding text_at_most
text_at_most-total [] u h = cc
text_at_most-total (a ∷ t) [] h = refl
text_at_most-total (a ∷ t) (b ∷ u) h = ground (arith, text_at_most-total t u)

text_at_most-antisym : (t u : Text) → text_at_most t u ≡ true → text_at_most u t ≡ true → t ≡ u
unfolding text_at_most
text_at_most-antisym [] [] h k = refl
text_at_most-antisym [] (b ∷ u) h k = cc
text_at_most-antisym (a ∷ t) [] h k = cc
text_at_most-antisym (a ∷ t) (b ∷ u) h k = ground (arith, text_at_most-antisym t u)

text_at_most_trans :
    (t u w : Text) → text_at_most t u ≡ true → text_at_most u w ≡ true → text_at_most t w ≡ true
unfolding text_at_most
text_at_most_trans [] u w h k = refl
text_at_most_trans (a ∷ t) [] w h k = cc
text_at_most_trans (a ∷ t) (b ∷ u) [] h k = cc
text_at_most_trans (a ∷ t) (b ∷ u) (c ∷ w) h k = ground (arith, text_at_most_trans t u w)

insert_by-swap :
    (k j : Text) (r s : KeyResult Text) (rs : List (Text × KeyResult Text))
    → k ≢ j
    → insert_by by_key (k, r) (insert_by by_key (j, s) rs)
      ≡ insert_by by_key (j, s) (insert_by by_key (k, r) rs)
unfolding insert_by by_key
insert_by-swap k j r s [] ne = ground (arith, text_at_most-total k j, text_at_most-antisym k j)
insert_by-swap k j r s ((i, q) ∷ rs) ne = ground (
  arith,
  text_at_most-total k j,
  text_at_most-antisym k j,
  text_at_most_trans k i j,
  text_at_most_trans j i k,
  text_at_most_trans k j i,
  text_at_most_trans j k i,
  insert_by-swap k j r s rs ne,
)

module _ (json : Json) where
  encode_fields-Reordered :
      (fs gs : KeyFields) (path : Text)
      → Reordered fs gs
      → sort_by by_key (encode_fields json fs path) ≡ sort_by by_key (encode_fields json gs path)
  unfolding sort_by encode_key_value
  encode_fields-Reordered _ _ path same = refl
  encode_fields-Reordered _ _ path (below {k} {v} {fs} {gs} p) =
      ap (insert_by by_key (k, encode_key_value json v (field_path path k)))
        (encode_fields-Reordered fs gs path p)
  encode_fields-Reordered _ _ path (swap {k} {j} {v} {w} {fs} ne) =
      insert_by-swap k j _ _ (sort_by by_key (encode_fields json fs path)) ne
  encode_fields-Reordered _ _ path (both {fs} {gs} {hs} p q) =
      encode_fields-Reordered fs gs path p ∙ encode_fields-Reordered gs hs path q

  -- The order in which the fields of an object stand does not matter, where they have different keys:
  -- as a key and as args it has the same text, or the same error.
  pub canonical_key-Reordered :
      (prototype : Prototype) (fs gs : KeyFields)
      → Reordered fs gs
      → (canonical_key json (object prototype fs) ≡ canonical_key json (object prototype gs))
        × (canonical_args json (object prototype fs) ≡ canonical_args json (object prototype gs))
  unfolding canonical_key canonical_args encode_key_value
  canonical_key-Reordered prototype fs gs p = rw (encode_fields-Reordered fs gs root p) (refl, refl)
