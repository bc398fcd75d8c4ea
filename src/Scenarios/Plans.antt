-- ===== src/Scenarios/Plans.antt =====
-- Two overrides in a chain, from spec 1 to spec 2 and from there to spec 3.
use frond.Shared.{◌≡◌, refl, true, none, some, List, [], ◌∷◌, has}
use frond.Types.Value.{text}
use frond.Planning.Descriptor.{Spec, SpecObject, get_node_descriptor}
use frond.Planning.Overrides.{
  SpecOverride, OverrideMap, get, enough_fuel, make_spec_override_map, resolve_spec_override,
}
use frond.Planning.Overrides.Chains.{tag_of, resolve_spec_override_total}

abbrev todo_spec : SpecObject
todo_spec = SpecObject.wrapper (
    SpecObject.branded (record {
      kind = text "node";
      tag = text "todo";
      key_is_function = true;
      dependencies_is_function = true;
      driver_is_record = true;
    }))

abbrev specs : Spec → SpecObject
specs spec = todo_spec

abbrev overrides : List SpecOverride
overrides = record { from = 1; to = 2 } ∷ record { from = 2; to = 3 } ∷ []

abbrev override_map : OverrideMap
override_map = (1, 2) ∷ (2, 3) ∷ []

resolve_spec_override_total_example :
    (s : Spec) × (resolve_spec_override (enough_fuel override_map) override_map 1 ≡ some s)
    × (get s override_map ≡ none)
    × (tag_of specs 1 ≡ tag_of specs s)
unfolding make_spec_override_map has get_node_descriptor
resolve_spec_override_total_example =
    resolve_spec_override_total specs overrides override_map 1 refl
