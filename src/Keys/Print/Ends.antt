-- ===== src/Keys/Print/Ends.antt =====
-- Where the texts of packages/core/src/keys/key.ts end: no text of a value begins another's.
use frond.Shared.{
  ℕ, ◌≡◌, ◌≢◌, refl, sym, ap, ◌∙◌, true, false, [], ◌∷◌, ◌++◌, append_assoc, nat_eq, arith,
}
use frond.Keys.Value.{Text}
use frond.Keys.Encode.{Json, joined, join}
use frond.Keys.Normal.{
  word_undefined, word_null, word_boolean, Canonical, Canonicals, Entries, word, digits, quoted,
  listed, keyed, end, more, last, entry, merged, merged_each, merged_entries, print, print_each,
  print_entries,
}
use frond.Keys.Print.{
  Laws, is_outside, class, class_of, class-print, class-same, word_ends, number_text_ends,
}

module _ (json : Json) (laws : Laws json) where
  -- The rest of a list after its first text, and of the fields.
  abbrev items_rest : Canonicals → Text → Text
  items_rest cs r = joined (print_each json cs) ++ 93 ∷ r

  abbrev entries_rest : Entries → Text → Text
  entries_rest es r = joined (print_entries json es) ++ 125 ∷ r

  items_rest-outside : (cs : Canonicals) (r : Text) → is_outside (items_rest cs r) ≡ true
  unfolding print
  items_rest-outside end r = refl
  items_rest-outside (more c cs) r = refl

  entries_rest-outside : (es : Entries) (r : Text) → is_outside (entries_rest es r) ≡ true
  unfolding print
  entries_rest-outside last r = refl
  entries_rest-outside (entry key c es) r = refl

  -- A key with the text of its value.
  field_assoc :
      (key t u r : Text)
      → ((json.of_string key ++ 58 ∷ t) ++ u) ++ r ≡ json.of_string key ++ (58 ∷ (t ++ (u ++ r)))
  field_assoc key t u r =
      append_assoc (json.of_string key ++ 58 ∷ t) u r
      ∙ append_assoc (json.of_string key) (58 ∷ t) (u ++ r)

  class-ne_close : (c : Canonical) → class c ≢ 93
  class-ne_close (word word_undefined) = ground arith
  class-ne_close (word word_null) = ground arith
  class-ne_close (word (word_boolean true)) = ground arith
  class-ne_close (word (word_boolean false)) = ground arith
  class-ne_close _ = ground arith

  abbrev after_first : Text → Text
  after_first [] = []
  after_first (u ∷ t) = t

  -- No text of a list opens with the bracket that closes it.
  open-ne_close : (c : Canonical) (t r s : Text) → 93 ∷ r ≢ (print json c ++ t) ++ s
  open-ne_close c t r s h = class-ne_close c (
      sym (class-print json laws c (t ++ s))
      ∙ sym (ap class_of (h ∙ append_assoc (print json c) t s)))

  key-ne_close : (key t r s : Text) → 125 ∷ r ≢ json.of_string key ++ (t ++ s)
  key-ne_close key t r s h =
      let (b, e) = laws.string_begins key in
      let same : 125 ∷ r ≡ (34 ∷ b) ++ (t ++ s) = h ∙ ap (λ k. k ++ (t ++ s)) e in
      ground (arith, same)

  closing :
      (u v : ℕ) (t t' r s : Text)
      → u ∷ (t ++ v ∷ []) ++ r ≡ u ∷ (t' ++ v ∷ []) ++ s
      → t ++ v ∷ r ≡ t' ++ v ∷ s
  closing u v t t' r s h =
      sym (append_assoc t (v ∷ []) r) ∙ ap after_first h ∙ append_assoc t' (v ∷ []) s

  item_split :
      (c d : Canonical) (t u r s : Text)
      → (print json c ++ t) ++ r ≡ (print json d ++ u) ++ s
      → print json c ++ (t ++ r) ≡ print json d ++ (u ++ s)
  item_split c d t u r s h =
      sym (append_assoc (print json c) t r) ∙ h ∙ append_assoc (print json d) u s

  field-ne_close : (key t u r s : Text) → 125 ∷ r ≢ ((json.of_string key ++ 58 ∷ t) ++ u) ++ s
  field-ne_close key t u r s h = key-ne_close key [] r _ (h ∙ field_assoc key t u s)

  field_split :
      (k j t t' u u' r s : Text)
      → ((json.of_string k ++ 58 ∷ t) ++ u) ++ r ≡ ((json.of_string j ++ 58 ∷ t') ++ u') ++ s
      → (k ≡ j) × (t ++ (u ++ r) ≡ t' ++ (u' ++ s))
  field_split k j t t' u u' r s h =
      let (e, f) =
        laws.string_ends k j _ _ (sym (field_assoc k t u r) ∙ h ∙ field_assoc j t' u' s) in
      (e, ap after_first f)

  more_same : {c d : Canonical} {cs ds : Canonicals} → c ≡ d → cs ≡ ds → more c cs ≡ more d ds
  more_same e es = cc

  entry_same :
      {k j : Text} {c d : Canonical} {es fs : Entries}
      → k ≡ j
      → c ≡ d
      → es ≡ fs
      → entry k c es ≡ entry j d fs
  entry_same same e es = cc

  mutual
    unfolding print merged

    -- The text of a canonical form says where it ends, and which form it is.
    pub print_ends :
        (c d : Canonical) (r s : Text)
        → is_outside r ≡ true
        → is_outside s ≡ true
        → print json c ++ r ≡ print json d ++ s
        → (merged c ≡ merged d) × (r ≡ s)
    print_ends (digits m) (digits n) r s hr hs h =
        let (e, f) =
          number_text_ends (json.of_number m) (json.of_number n) r s (laws.number_units m)
            (laws.number_units n) hr hs h in
        (ap digits (laws.number_same m n e), f)
    print_ends (quoted t) (quoted u) r s hr hs h =
        let (e, f) = laws.string_ends t u r s h in (ap quoted e, f)
    print_ends (listed cs) (listed ds) r s hr hs h =
        let (e, f) = list_ends cs ds r s (closing 91 93 _ _ r s h) in (ap listed e, f)
    print_ends (keyed es) (keyed fs) r s hr hs h =
        let (e, f) = fields_end es fs r s (closing 123 125 _ _ r s h) in (ap keyed e, f)
    print_ends (word v) (word w) r s hr hs h =
        word_ends json laws v w r s (class-same json laws (word v) (word w) r s h) h
    print_ends c d r s hr hs h = absurd (ground (arith, class-same json laws c d r s h))

    list_ends :
        (cs ds : Canonicals) (r s : Text)
        → join (print_each json cs) ++ 93 ∷ r ≡ join (print_each json ds) ++ 93 ∷ s
        → (merged_each cs ≡ merged_each ds) × (r ≡ s)
    list_ends end end r s h = (refl, ap after_first h)
    list_ends end (more d ds) r s h = absurd (open-ne_close d _ r _ h)
    list_ends (more c cs) end r s h = absurd (open-ne_close c _ s _ (sym h))
    list_ends (more c cs) (more d ds) r s h =
        let (e, f) =
          print_ends c d (items_rest cs r) (items_rest ds s) (items_rest-outside cs r)
            (items_rest-outside ds s) (item_split c d _ _ _ _ h) in
        let (es, g) = items_end cs ds r s f in (more_same e es, g)

    items_end :
        (cs ds : Canonicals) (r s : Text)
        → items_rest cs r ≡ items_rest ds s
        → (merged_each cs ≡ merged_each ds) × (r ≡ s)
    items_end end end r s h = (refl, ap after_first h)
    items_end end (more d ds) r s h = absurd (ground (arith, h))
    items_end (more c cs) end r s h = absurd (ground (arith, h))
    items_end (more c cs) (more d ds) r s h =
        let (e, f) =
          print_ends c d (items_rest cs r) (items_rest ds s) (items_rest-outside cs r)
            (items_rest-outside ds s) (item_split c d _ _ _ _ (ap after_first h)) in
        let (es, g) = items_end cs ds r s f in (more_same e es, g)

    fields_end :
        (es fs : Entries) (r s : Text)
        → join (print_entries json es) ++ 125 ∷ r ≡ join (print_entries json fs) ++ 125 ∷ s
        → (merged_entries es ≡ merged_entries fs) × (r ≡ s)
    fields_end last last r s h = (refl, ap after_first h)
    fields_end last (entry j d fs) r s h = absurd (field-ne_close j _ _ r _ h)
    fields_end (entry k c es) last r s h = absurd (field-ne_close k _ _ s _ (sym h))
    fields_end (entry k c es) (entry j d fs) r s h =
        let (same, f) = field_split k j _ _ _ _ _ _ h in
        let (e, g) =
          print_ends c d (entries_rest es r) (entries_rest fs s) (entries_rest-outside es r)
            (entries_rest-outside fs s) f in
        let (es', g') = entries_end es fs r s g in (entry_same same e es', g')

    entries_end :
        (es fs : Entries) (r s : Text)
        → entries_rest es r ≡ entries_rest fs s
        → (merged_entries es ≡ merged_entries fs) × (r ≡ s)
    entries_end last last r s h = (refl, ap after_first h)
    entries_end last (entry j d fs) r s h = absurd (ground (arith, h))
    entries_end (entry k c es) last r s h = absurd (ground (arith, h))
    entries_end (entry k c es) (entry j d fs) r s h =
        let (same, f) = field_split k j _ _ _ _ _ _ (ap after_first h) in
        let (e, g) =
          print_ends c d (entries_rest es r) (entries_rest fs s) (entries_rest-outside es r)
            (entries_rest-outside fs s) f in
        let (es', g') = entries_end es fs r s g in (entry_same same e es', g')
