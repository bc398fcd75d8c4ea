-- ===== src/Keys/Print.antt =====
-- Reading the texts of packages/core/src/keys/key.ts back: what their first unit says, and where
-- they end. What JSON.stringify is relied on for is the record `Laws`.
pub mod Ends
use frond.Shared.{
  ℕ, ◌+◌, ◌≤◌, ◌≡◌, ◌≢◌, ◌↔◌, refl, sym, ap, ◌∙◌, Bool, true, false, not, ◌&&◌, ◌||◌, List, [], ◌∷◌,
  ◌++◌, append_assoc, if◌then◌else◌, leb, ◌==◌, nat_eq, arith,
}
use frond.Keys.Value.{Text, KeyInput, KeyResult, ok, err, bind, map_ok}
use frond.Keys.Encode.{
  Json, canonical_args, joined, join, bracketed, braced, field_text, version, root,
}
use frond.Keys.Normal.{
  Word, word_undefined, word_null, word_boolean, Canonical, Canonicals, Entries, word, digits,
  quoted, listed, keyed, end, more, last, entry, minus_zero, unsigned_zero, word_text, merged,
  merged_each, merged_entries, canonical, print, print_each, print_entries,
  encode_key_value-eq-print,
}

-- A digit, a plus, a minus, a point or an `e`.
abbrev pub is_number_unit : ℕ → Bool
is_number_unit u = (leb 48 u && leb u 57) || u == 43 || u == 45 || u == 46 || u == 101

abbrev pub is_number_text : Text → Bool
is_number_text [] = true
is_number_text (u ∷ t) = is_number_unit u && is_number_text t

-- The text of a number has a unit, and none but number units; but for the zeros, numbers with one
-- text are one. The text of a string opens with a quote, and no two of them agree up to the quote
-- that closes one.
pub record Laws (json : Json) : Type 0 where
  pub zeros : json.of_number minus_zero ≡ json.of_number 0
  pub number_begins : (bits : ℕ) → (u : ℕ) × (t : Text) × (json.of_number bits ≡ u ∷ t)
  pub number_units : (bits : ℕ) → is_number_text (json.of_number bits) ≡ true
  pub number_same :
      (m n : ℕ) → json.of_number m ≡ json.of_number n → unsigned_zero m ≡ unsigned_zero n
  pub string_begins : (t : Text) → (b : Text) × (json.of_string t ≡ 34 ∷ b)
  pub string_ends :
      (t u r s : Text) → json.of_string t ++ r ≡ json.of_string u ++ s → (t ≡ u) × (r ≡ s)

-- What can stand after a number.
abbrev pub is_outside : Text → Bool
is_outside [] = true
is_outside (u ∷ t) = not (is_number_unit u)

pub number_text_ends :
    (t u r s : Text)
    → is_number_text t ≡ true
    → is_number_text u ≡ true
    → is_outside r ≡ true
    → is_outside s ≡ true
    → t ++ r ≡ u ++ s
    → (t ≡ u) × (r ≡ s)
number_text_ends [] [] r s ht hu hr hs h = (refl, h)
number_text_ends [] (b ∷ u) [] s ht hu hr hs h = cc
number_text_ends [] (b ∷ u) (c ∷ r) s ht hu hr hs h = ground arith
number_text_ends (a ∷ t) [] r [] ht hu hr hs h = cc
number_text_ends (a ∷ t) [] r (c ∷ s) ht hu hr hs h = ground arith
number_text_ends (a ∷ t) (b ∷ u) r s ht hu hr hs h = ground (arith, number_text_ends t u r s)

-- What the first unit says of a text.
abbrev pub class_of : Text → ℕ
class_of [] = 0
class_of (u ∷ t) =
    if is_number_unit u
    then 2
    else if u == 34
    then 3
    else if u == 91
    then 4
    else if u == 123
    then 5
    else u

abbrev pub class : Canonical → ℕ
class (word word_undefined) = 117
class (word word_null) = 110
class (word (word_boolean true)) = 116
class (word (word_boolean false)) = 102
class (digits bits) = 2
class (quoted t) = 3
class (listed cs) = 4
class (keyed es) = 5

module _ (json : Json) (laws : Laws json) where
  pub class-print : (c : Canonical) (r : Text) → class_of (print json c ++ r) ≡ class c
  unfolding print
  class-print (word word_undefined) r = refl
  class-print (word word_null) r = refl
  class-print (word (word_boolean true)) r = refl
  class-print (word (word_boolean false)) r = refl
  class-print (digits bits) r =
      let (u, t, e) = laws.number_begins bits in
      let all : is_number_text (u ∷ t) ≡ true =
        ap is_number_text (sym e) ∙ laws.number_units bits in
      rw (e, print) (ground (arith, all))
  class-print (quoted t) r = rw (laws.string_begins t).1 refl
  class-print (listed cs) r = refl
  class-print (keyed es) r = refl

  pub class-same :
      (c d : Canonical) (r s : Text) → print json c ++ r ≡ print json d ++ s → class c ≡ class d
  class-same c d r s h = sym (class-print c r) ∙ ap class_of h ∙ class-print d s

  pub word_ends :
      (v w : Word) (r s : Text)
      → class (word v) ≡ class (word w)
      → word_text v ++ r ≡ word_text w ++ s
      → (word v ≡ word w) × (r ≡ s)
  word_ends word_undefined word_undefined r s e h = (refl, ground (arith, h))
  word_ends word_null word_null r s e h = (refl, ground (arith, h))
  word_ends (word_boolean true) (word_boolean true) r s e h = (refl, ground (arith, h))
  word_ends (word_boolean false) (word_boolean false) r s e h = (refl, ground (arith, h))
  word_ends v w r s e h = absurd (ground (arith, e))
