-- ===== src/Planning/Overrides.antt =====
-- packages/core/src/graph/planning/specOverrides.ts: the map of spec overrides, which is checked
-- when it is made, and the chain of overrides that a request follows. A `Map` is an association
-- list with one entry for each key. The two `while` loops run on fuel, and `none` says that it ran
-- out.
pub mod Chains
use frond.Shared.{
  ℕ, zero, suc, String, ◌≡◌, Bool, true, false, not, Option, none, some, List, [], ◌∷◌, ◌++◌, map,
  if◌then◌else◌, ◌==◌, nat_eq, string_eq, has, length,
}
use frond.Types.Value.{Value}
use frond.Planning.Descriptor.{Spec, SpecObject, NodeDescriptor, get_node_descriptor}

pub record SpecOverride : Type 0 where
  pub from : Spec
  pub to : Spec

pub data SpecOverrideFailed : Type 0 where
  duplicate_original cycle not_a_spec : SpecOverrideFailed
  tag_mismatch : String → String → SpecOverrideFailed

pub data Outcome (A : Type 0) : Type 0 where
  ok : A → Outcome A
  err : SpecOverrideFailed → Outcome A

infixl 5 ◌>>=◌
abbrev pub ◌>>=◌ : {A B : Type 0} → Outcome A → (A → Outcome B) → Outcome B
ok a >>= f = f a
err e >>= f = err e

abbrev pub OverrideMap : Type 0
OverrideMap = List (Spec × Spec)

abbrev pub keys : OverrideMap → List Spec
keys [] = []
keys ((k, v) ∷ m) = k ∷ keys m

-- `overrides.get(spec)`.
unfoldable pub get : Spec → OverrideMap → Option Spec
get spec [] = none
get spec ((k, v) ∷ m) = if k == spec then some v else get spec m

-- Follows the overrides from a spec, and stops at one that is not overridden (`some (ok _)`) or that
-- the walk has been at (`some (err cycle)`).
pub assert_no_spec_override_cycle : ℕ → OverrideMap → List Spec → Spec → Option (Outcome (Unit {0}))
unfolding get
assert_no_spec_override_cycle zero overrides visited current = none
assert_no_spec_override_cycle (suc fuel) overrides visited current = elim (get current overrides) [
  | none ↦ some (ok tt)
  | some target ↦
      let rest = assert_no_spec_override_cycle fuel overrides (current ∷ visited) target in
      if has current visited then some (err cycle) else rest
]

-- `resolveSpecOverride`: the spec at the end of the chain.
pub resolve_spec_override : ℕ → OverrideMap → Spec → Option Spec
unfolding get
resolve_spec_override zero overrides spec = none
resolve_spec_override (suc fuel) overrides spec = elim (get spec overrides) [
  | none ↦ some spec
  | some target ↦ resolve_spec_override fuel overrides target
]

-- A chain visits each key once at most before it ends or comes round.
abbrev pub enough_fuel : OverrideMap → ℕ
enough_fuel overrides = suc (length (keys overrides))

pub record NodeRequest : Type 0 where
  pub spec : Spec
  pub args : Value

unfoldable pub apply_spec_override : OverrideMap → NodeRequest → Option NodeRequest
unfolding resolve_spec_override
apply_spec_override overrides request =
    elim (resolve_spec_override (enough_fuel overrides) overrides request.spec) [
      | none ↦ none
      | some spec ↦
          some
            (if spec == request.spec then request else record { spec = spec; args = request.args })
    ]

-- The second loop: every original is the start of a walk.
assert_no_cycles : OverrideMap → List Spec → Option (Outcome (Unit {0}))
unfolding assert_no_spec_override_cycle
assert_no_cycles overrides [] = some (ok tt)
assert_no_cycles overrides (from ∷ rest) =
    let others = assert_no_cycles overrides rest in
    elim (assert_no_spec_override_cycle (enough_fuel overrides) overrides [] from) [
      | none ↦ none
      | some (err e) ↦ some (err e)
      | some (ok u) ↦ others
    ]

checked_map : OverrideMap → Option (Outcome OverrideMap)
unfolding assert_no_cycles
checked_map entries = elim (assert_no_cycles entries (keys entries)) [
  | none ↦ none
  | some (err e) ↦ some (err e)
  | some (ok u) ↦ some (ok entries)
]

module _ (object_at : Spec → SpecObject) where
  -- One round of the first loop: the entry for an override, or what it throws.
  checked_override : List Spec → SpecOverride → Outcome (Spec × Spec)
  checked_override seen_originals override =
      if has override.from seen_originals
      then err duplicate_original
      else elim (get_node_descriptor (object_at override.from)) [
        | none ↦ err not_a_spec
        | some from_descriptor ↦ elim (get_node_descriptor (object_at override.to)) [
          | none ↦ err not_a_spec
          | some to_descriptor ↦
              if from_descriptor.tag == to_descriptor.tag
              then ok (override.from, override.to)
              else err (tag_mismatch from_descriptor.tag to_descriptor.tag)
        ]
      ]

  collect_entries : List Spec → List SpecOverride → Outcome OverrideMap
  unfolding checked_override
  collect_entries seen_originals [] = ok []
  collect_entries seen_originals (override ∷ overrides) = do
    entry ← checked_override seen_originals override
    entries ← collect_entries (override.from ∷ seen_originals) overrides
    ok (entry ∷ entries)

  unfoldable pub make_spec_override_map : List SpecOverride → Option (Outcome OverrideMap)
  unfolding collect_entries checked_map
  make_spec_override_map overrides = elim (collect_entries [] overrides) [
    | err e ↦ some (err e)
    | ok entries ↦ checked_map entries
  ]
