-- ===== src/Keys/Identity.antt =====
-- When the texts of packages/core/src/keys/key.ts agree.
use frond.Shared.{◌≡◌, ◌↔◌, refl, sym, ap, ◌∙◌, [], ◌++◌, append-nil, nat_eq, arith}
use frond.Keys.Value.{KeyInput, ok}
use frond.Keys.Encode.{Json, canonical_args, bracketed, braced, version, root}
use frond.Keys.Normal.{
  Canonical, Canonicals, Entries, word, digits, quoted, listed, keyed, end, more, last, entry,
  canonical, print, print_each, print_entries, merged, merged_each, merged_entries,
  encode_key_value-eq-print,
}
use frond.Keys.Print.{Laws}
use frond.Keys.Print.Ends.{print_ends}

module _ (json : Json) (laws : Laws json) where
  mutual
    unfolding print merged

    print-merged : (c : Canonical) → print json (merged c) ≡ print json c
    print-merged (word w) = refl
    print-merged (digits bits) = ground (arith, laws.zeros)
    print-merged (quoted t) = refl
    print-merged (listed cs) = ap bracketed (print_each-merged cs)
    print-merged (keyed es) = ap braced (print_entries-merged es)

    print_each-merged : (cs : Canonicals) → print_each json (merged_each cs) ≡ print_each json cs
    print_each-merged end = refl
    print_each-merged (more c cs) = ground (arith, print-merged c, print_each-merged cs)

    print_entries-merged :
        (es : Entries) → print_entries json (merged_entries es) ≡ print_entries json es
    print_entries-merged last = refl
    print_entries-merged (entry key c es) = ground (arith, print-merged c, print_entries-merged es)

  print-injective : (c d : Canonical) → print json c ≡ print json d → merged c ≡ merged d
  print-injective c d h =
      (print_ends json laws c d [] [] refl refl
        (append-nil (print json c) ∙ h ∙ sym (append-nil (print json d)))).0

  -- Two inputs that have a canonical form have the same text exactly if their forms agree, where holes
  -- are read as undefined, the fields of objects are sorted and the two zeros are taken as one, for a
  -- JSON.stringify that quotes strings and writes numbers as `Laws` says.
  pub canonical_args_identity :
      (v w : KeyInput) (c d : Canonical)
      → canonical v root json ≡ ok c
      → canonical w root json ≡ ok d
      → (canonical_args json v ≡ canonical_args json w) ↔ (merged c ≡ merged d)
  unfolding canonical_args
  canonical_args_identity v w c d hv hw =
      rw (encode_key_value-eq-print json v root, encode_key_value-eq-print json w root, hv, hw)
        (
          (λ e. print-injective c d (ground (arith, e))),
          λ e.
              ap (λ t. ok (version ++ t))
                (sym (print-merged c) ∙ ap (print json) e ∙ print-merged d),
        )
