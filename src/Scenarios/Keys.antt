-- ===== src/Scenarios/Keys.antt =====
-- Keys over a JSON.stringify that escapes quotes and backslashes and counts in unary.
use frond.Shared.{
  ℕ, zero, suc, ◌≡◌, ◌↔◌, refl, sym, ◌∙◌, true, false, [], ◌∷◌, ◌++◌, append_assoc, if◌then◌else◌,
  ◌==◌, nat_eq, arith,
}
use frond.Keys.Value.{
  Text, KeyFields, ok, undefined, null, number, array, object, no_items, item, hole, no_fields,
  field, finite, nan, object_prototype,
}
use frond.Keys.Encode.{Json, canonical_args, canonical_key, root}
use frond.Keys.Normal.{
  unsigned_zero, minus_zero, canonical, merged, Canonical, keyed, entry, last, listed, more, end,
  digits, word, word_undefined,
}
use frond.Keys.Print.{Laws, is_number_text}
use frond.Keys.Errors.{is_ok, is_supported, is_too_long, canonical_args_lem}
use frond.Keys.Identity.{canonical_args_identity}
use frond.Keys.Reorder.{swap, canonical_key-Reordered}

pub ones : ℕ → Text
ones zero = []
ones (suc n) = 49 ∷ ones n

escaped : Text → Text
escaped [] = []
escaped (u ∷ t) =
    let rest = escaped t in
    if u == 34 then 92 ∷ 34 ∷ rest else if u == 92 then 92 ∷ 92 ∷ rest else u ∷ rest

pub string_text : Text → Text
unfolding escaped
string_text t = 34 ∷ (escaped t ++ 34 ∷ [])

pub number_text : ℕ → Text
unfolding ones
number_text bits = 49 ∷ ones (unsigned_zero bits)

abbrev pub json : Json
json = record { of_string = string_text; of_number = number_text; of_index = ones }

ones-units : (n : ℕ) → is_number_text (ones n) ≡ true
unfolding ones
ones-units zero = refl
ones-units (suc n) = ones-units n

ones-injective : (m n : ℕ) → ones m ≡ ones n → m ≡ n
unfolding ones
ones-injective zero zero h = refl
ones-injective zero (suc n) h = cc
ones-injective (suc m) zero h = cc
ones-injective (suc m) (suc n) h = ground (arith, h, ones-injective m n)

escaped-ends : (t u r s : Text) → escaped t ++ 34 ∷ r ≡ escaped u ++ 34 ∷ s → (t ≡ u) × (r ≡ s)
unfolding escaped
escaped-ends [] [] r s h = (refl, ground (arith, h))
escaped-ends [] (b ∷ u) r s h = ground (arith, h)
escaped-ends (a ∷ t) [] r s h = ground (arith, h)
escaped-ends (a ∷ t) (b ∷ u) r s h = ground (arith, h, escaped-ends t u r s)

string_text-ends : (t u r s : Text) → string_text t ++ r ≡ string_text u ++ s → (t ≡ u) × (r ≡ s)
unfolding string_text
string_text-ends t u r s h = escaped-ends t u r s (
    sym (append_assoc (escaped t) (34 ∷ []) r)
    ∙ ground (arith, h)
    ∙ append_assoc (escaped u) (34 ∷ []) s)

json-Laws : Laws json
unfolding number_text string_text
json-Laws = record {
  zeros = refl;
  number_begins = λ bits. (49, ones (unsigned_zero bits), refl);
  number_units = λ bits. ones-units (unsigned_zero bits);
  number_same = λ m n h. ones-injective _ _ (ground (arith, h));
  string_begins = λ t. (_, refl);
  string_ends = string_text-ends;
}

-- { b: -0, a: [hole] } and { a: [undefined], b: 0 }.
abbrev sparse : KeyFields
sparse =
    field (98 ∷ []) (number (finite minus_zero)) (field (97 ∷ []) (array (hole no_items)) no_fields)

abbrev sparse_sorted : KeyFields
sparse_sorted =
    field (97 ∷ []) (array (hole no_items)) (field (98 ∷ []) (number (finite minus_zero)) no_fields)

abbrev dense : KeyFields
dense =
    field (97 ∷ []) (array (item undefined no_items))
      (field (98 ∷ []) (number (finite 0)) no_fields)

abbrev form : ℕ → Canonical
form bits =
    keyed (
      entry (97 ∷ []) (listed (more (word word_undefined) end))
        (entry (98 ∷ []) (digits bits) last))

sparse-form : canonical (object object_prototype sparse) root json ≡ ok (form minus_zero)
unfolding canonical
sparse-form = refl

dense-form : canonical (object object_prototype dense) root json ≡ ok (form 0)
unfolding canonical
dense-form = refl

canonical_args_identity_example :
    (canonical_args json (object object_prototype sparse)
      ≡ canonical_args json (object object_prototype dense))
    ↔ (merged (form minus_zero) ≡ merged (form 0))
canonical_args_identity_example =
    canonical_args_identity json json-Laws (object object_prototype sparse)
      (object object_prototype dense) (form minus_zero) (form 0) sparse-form dense-form

canonical_key-Reordered_example :
    (canonical_key json (object object_prototype sparse)
      ≡ canonical_key json (object object_prototype sparse_sorted))
    × (canonical_args json (object object_prototype sparse)
        ≡ canonical_args json (object object_prototype sparse_sorted))
canonical_key-Reordered_example =
    canonical_key-Reordered json object_prototype sparse sparse_sorted
      (swap (λ h. ground (arith, h)))

canonical_args_lem_example :
    (is_ok (canonical_args json (array (item null (item (number nan) no_items))))
      ≡ is_supported (array (item null (item (number nan) no_items))))
    × (is_too_long (canonical_args json (array (item null (item (number nan) no_items)))) ≡ false)
canonical_args_lem_example =
    canonical_args_lem json (array (item null (item (number nan) no_items)))
