-- ===== src/Planning/Descriptor.antt =====
-- packages/core/src/graph/planning/descriptor.ts: the descriptor of a spec. A spec is known by its
-- reference, and `object_at` gives what stands there.
use frond.Shared.{
  ℕ, String, Bool, true, false, ◌&&◌, Option, none, some, if◌then◌else◌, ◌==◌, string_eq,
}
use frond.Types.Value.{Value, text}

abbrev pub Spec : Type 0
Spec = ℕ

pub data NodeKind : Type 0 where
  node service resource facade : NodeKind

-- The fields of a branded descriptor that are looked at, before they are checked.
pub record RawDescriptor : Type 0 where
  pub kind : Value
  pub tag : Value
  pub key_is_function : Bool
  pub dependencies_is_function : Bool
  pub driver_is_record : Bool

-- A value by its shape: a primitive or null, an object or function whose `spec` is undefined, a
-- branded descriptor, or an object or function whose `spec` is another value.
pub data SpecObject : Type 0 where
  primitive bare : SpecObject
  branded : RawDescriptor → SpecObject
  wrapper : SpecObject → SpecObject

-- The fields of the descriptor that the graph's planning reads; key, dependencies and driver are
-- the author's functions.
pub record NodeDescriptor : Type 0 where
  pub kind : NodeKind
  pub tag : String

has_node_spec_brand : SpecObject → Bool
has_node_spec_brand (branded d) = true
has_node_spec_brand _ = false

-- The walk down the `spec` fields stops at a brand, and at the last value. (It is not asked of a
-- branded value.)
get_static_spec_value : SpecObject → SpecObject
get_static_spec_value primitive = primitive
get_static_spec_value bare = primitive
get_static_spec_value (branded d) = primitive
get_static_spec_value (wrapper (branded d)) = branded d
get_static_spec_value (wrapper primitive) = primitive
get_static_spec_value (wrapper bare) = bare
get_static_spec_value (wrapper (wrapper v)) = get_static_spec_value (wrapper v)

unfoldable pub is_frond_node_spec : SpecObject → Bool
unfolding has_node_spec_brand get_static_spec_value
is_frond_node_spec spec =
    if has_node_spec_brand spec then false else has_node_spec_brand (get_static_spec_value spec)

node_kind : Value → Option NodeKind
node_kind (text k) =
    if k == "node"
    then some NodeKind.node
    else if k == "service"
    then some NodeKind.service
    else if k == "resource"
    then some NodeKind.resource
    else if k == "facade"
    then some NodeKind.facade
    else none
node_kind _ = none

tag_text : Value → Option String
tag_text (text t) = some t
tag_text _ = none

checked_descriptor : RawDescriptor → Option NodeDescriptor
unfolding node_kind tag_text
checked_descriptor d = elim (node_kind d.kind) [
  | none ↦ none
  | some kind ↦ elim (tag_text d.tag) [
    | none ↦ none
    | some tag ↦
        if d.key_is_function && d.dependencies_is_function && d.driver_is_record
        then some (record { kind = kind; tag = tag })
        else none
  ]
]

descriptor_of : SpecObject → Option NodeDescriptor
unfolding checked_descriptor
descriptor_of (branded d) = checked_descriptor d
descriptor_of _ = none

-- `none` where a `FrondNodeSpecError` is thrown.
unfoldable pub get_node_descriptor : SpecObject → Option NodeDescriptor
unfolding is_frond_node_spec descriptor_of
get_node_descriptor spec =
    if is_frond_node_spec spec then descriptor_of (get_static_spec_value spec) else none
