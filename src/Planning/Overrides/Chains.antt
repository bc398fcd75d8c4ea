-- ===== src/Planning/Overrides/Chains.antt =====
-- The chains of an override map of packages/core/src/graph/planning/specOverrides.ts.
use frond.Shared.{
  ℕ, zero, suc, ◌<◌, String, ◌≡◌, refl, ◌≢◌, inl, inr, true, false, Option, none, some, List, [],
  ◌∷◌, arith, if◌then◌else◌, ◌==◌, nat_eq, string_eq, has, All, ap, ◌∙◌, Option-cases, Bool-cases,
}
use frond.Shared.Seen.{unseen, unseen_lt, unseen-le-length}
use frond.Planning.Descriptor.{Spec, SpecObject, NodeDescriptor, get_node_descriptor}
use frond.Planning.Overrides.{
  SpecOverride, tag_mismatch, ◌>>=◌, Outcome, ok, err, OverrideMap, keys, get,
  assert_no_spec_override_cycle, resolve_spec_override, enough_fuel, checked_override,
  collect_entries, assert_no_cycles, checked_map, make_spec_override_map,
}

get-has : (k : Spec) (m : OverrideMap) (v : Spec) → get k m ≡ some v → has k (keys m) ≡ true
unfolding get has
get-has k [] v h = cc
get-has k ((j, w) ∷ m) v h = ground (arith, get-has k m v)

-- The walk ends: every round sees one more key.
walk_total :
    (fuel : ℕ) (m : OverrideMap) (visited : List Spec) (current : Spec)
    → unseen visited (keys m) < fuel
    → assert_no_spec_override_cycle fuel m visited current ≢ none
unfolding assert_no_spec_override_cycle
walk_total zero m visited current h = absurd (omega arith)
walk_total (suc fuel) m visited current h = elim (Option-cases (get current m)) [
  | inl e ↦ ground (arith, e)
  | inr (v, e) ↦ ground (
    arith,
    e,
    get-has current m v,
    walk_total fuel m (current ∷ visited) v,
    unseen_lt current visited (keys m),
  )
]

-- Where the walk ends at a spec that is not overridden, so does the chain.
walk_resolves :
    (fuel : ℕ) (m : OverrideMap) (visited : List Spec) (current : Spec)
    → assert_no_spec_override_cycle fuel m visited current ≡ some (ok tt)
    → (s : Spec) × (resolve_spec_override fuel m current ≡ some s) × (get s m ≡ none)
unfolding assert_no_spec_override_cycle resolve_spec_override
walk_resolves zero m visited current h = cc
walk_resolves (suc fuel) m visited current h = elim (Option-cases (get current m)) [
  | inl e ↦ (current, rw (e, resolve_spec_override), e)
  | inr (v, e) ↦
      let (s, resolved, free) = walk_resolves fuel m (current ∷ visited) v (ground (arith, e)) in
      (s, rw (e, resolve_spec_override) resolved, free)
]

start_fits : (m : OverrideMap) → unseen [] (keys m) < enough_fuel m
start_fits m = omega (arith, unseen-le-length [] (keys m))

assert_no_cycles_total : (m : OverrideMap) (froms : List Spec) → assert_no_cycles m froms ≢ none
unfolding assert_no_cycles
assert_no_cycles_total m [] h = cc
assert_no_cycles_total m (from ∷ rest) h =
    ground
      (arith, walk_total (enough_fuel m) m [] from (start_fits m), assert_no_cycles_total m rest)

-- Making an override map always ends, with a map or with an error.
pub make_spec_override_map_total :
    (object_at : Spec → SpecObject) (overrides : List SpecOverride)
    → make_spec_override_map object_at overrides ≢ none
unfolding make_spec_override_map
make_spec_override_map_total o overrides h = elim_outcome (collect_entries o [] overrides) refl
  where
    elim_outcome : (r : Outcome OverrideMap) → collect_entries o [] overrides ≡ r → ⊥
    elim_outcome (err e) c = ground (arith, h)
    elim_outcome (ok m) c = ground (arith, h, assert_no_cycles_total m (keys m))

-- Every original walks to an end.
abbrev Walks : OverrideMap → Spec → Type 0
Walks m from = assert_no_spec_override_cycle (enough_fuel m) m [] from ≡ some (ok tt)

assert_no_cycles-Walks :
    (m : OverrideMap) (froms : List Spec) (k : Spec)
    → assert_no_cycles m froms ≡ some (ok tt)
    → has k froms ≡ true
    → Walks m k
unfolding assert_no_cycles has
assert_no_cycles-Walks m [] k h i = cc
assert_no_cycles-Walks m (from ∷ rest) k h i = ground (arith, assert_no_cycles-Walks m rest k)

-- The tag of a spec's descriptor.
abbrev pub tag_of : (Spec → SpecObject) → Spec → Option String
tag_of object_at spec = elim (get_node_descriptor (object_at spec)) [
  | none ↦ none
  | some d ↦ some d.tag
]

abbrev pub SameTag : (Spec → SpecObject) → Spec × Spec → Type 0
SameTag object_at entry = tag_of object_at entry.0 ≡ tag_of object_at entry.1

bind-ok :
    {A B : Type 0} (m : Outcome A) (f : A → Outcome B) {b : B}
    → (m >>= f) ≡ ok b
    → (a : A) × (m ≡ ok a) × (f a ≡ ok b)
bind-ok (ok a) f h = (a, refl, h)
bind-ok (err e) f h = cc

tags_agree :
    (d e : NodeDescriptor) (entry result : Spec × Spec)
    → (if d.tag == e.tag then ok entry else err (tag_mismatch d.tag e.tag)) ≡ ok result
    → (result ≡ entry) × (d.tag ≡ e.tag)
tags_agree d e entry result h = ground (arith, string_eq.beq_iff d.tag e.tag)

checked_override-SameTag :
    (object_at : Spec → SpecObject) (seen : List Spec) (override : SpecOverride)
    (entry : Spec × Spec)
    → checked_override object_at seen override ≡ ok entry
    → SameTag object_at entry
unfolding checked_override
checked_override-SameTag o seen override entry h =
    elim (Option-cases (get_node_descriptor (o override.from))) [
      | inl p ↦ ground (arith, p)
      | inr (d, p) ↦ elim (Option-cases (get_node_descriptor (o override.to))) [
        | inl q ↦ ground (arith, p, q)
        | inr (e, q) ↦ ground (arith, p, q, tags_agree d e (override.from, override.to) entry)
      ]
    ]

collect_entries-SameTag :
    (object_at : Spec → SpecObject) (seen : List Spec) (overrides : List SpecOverride)
    (m : OverrideMap)
    → collect_entries object_at seen overrides ≡ ok m
    → All (SameTag object_at) m
unfolding collect_entries
collect_entries-SameTag o seen [] [] h = tt
collect_entries-SameTag o seen [] (entry ∷ m) h = cc
collect_entries-SameTag o seen (override ∷ overrides) m h =
    let (entry, checked, after) = bind-ok (checked_override o seen override) _ h in
    let (entries, collected, done) =
      bind-ok (collect_entries o (override.from ∷ seen) overrides) _ after in
    let result : m ≡ entry ∷ entries = cc done in
    rw result (
      checked_override-SameTag o seen override entry checked,
      collect_entries-SameTag o (override.from ∷ seen) overrides entries collected,
    )

get-SameTag :
    (object_at : Spec → SpecObject) (k v : Spec) (m : OverrideMap)
    → All (SameTag object_at) m
    → get k m ≡ some v
    → tag_of object_at k ≡ tag_of object_at v
unfolding get
get-SameTag o k v [] h e = cc
get-SameTag o k v ((j, w) ∷ m) h e = elim (Bool-cases (j == k)) [
  | inl p ↦
      let key : j ≡ k = (nat_eq.beq_iff j k).0 p in
      let target : w ≡ v = ground (arith, e, p) in rw (← key, ← target) h.0
  | inr p ↦ get-SameTag o k v m h.1 (ground (arith, e, p))
]

resolve-SameTag :
    (object_at : Spec → SpecObject) (fuel : ℕ) (m : OverrideMap) (spec s : Spec)
    → All (SameTag object_at) m
    → resolve_spec_override fuel m spec ≡ some s
    → tag_of object_at spec ≡ tag_of object_at s
unfolding resolve_spec_override
resolve-SameTag o zero m spec s h e = cc
resolve-SameTag o (suc fuel) m spec s h e = elim (Option-cases (get spec m)) [
  | inl p ↦ ap (tag_of o) (ground (arith, e, p))
  | inr (v, p) ↦ get-SameTag o spec v m h p ∙ resolve-SameTag o fuel m v s h (ground (arith, e, p))
]

-- The map that was made holds entries of one tag each, and its originals all walk to an end.
record IsCheckedMap (object_at : Spec → SpecObject) (m : OverrideMap) : Type 0 where
  tags : All (SameTag object_at) m
  ends : (k : Spec) → has k (keys m) ≡ true → Walks m k

checked_map-ok :
    (entries m : OverrideMap)
    → checked_map entries ≡ some (ok m)
    → (entries ≡ m) × (assert_no_cycles entries (keys entries) ≡ some (ok tt))
unfolding checked_map
checked_map-ok entries m h = ground arith

make_spec_override_map-IsCheckedMap :
    (object_at : Spec → SpecObject) (overrides : List SpecOverride) (m : OverrideMap)
    → make_spec_override_map object_at overrides ≡ some (ok m)
    → IsCheckedMap object_at m
unfolding make_spec_override_map
make_spec_override_map-IsCheckedMap o overrides m h = go (collect_entries o [] overrides) refl
  where
    go : (r : Outcome OverrideMap) → collect_entries o [] overrides ≡ r → IsCheckedMap o m
    go (err e) c = ground (arith, h, c)
    go (ok entries) c =
        let (same, acyclic) = checked_map-ok entries m (ground (arith, h, c)) in
        rw (← same) (record {
          tags = collect_entries-SameTag o [] overrides entries c;
          ends = λ k. assert_no_cycles-Walks entries (keys entries) k acyclic;
        })

has-get : (k : Spec) (m : OverrideMap) → has k (keys m) ≡ false → get k m ≡ none
unfolding get has
has-get k [] h = refl
has-get k ((j, w) ∷ m) h = ground (arith, has-get k m)

-- Once an override map is accepted, every spec resolves: the loop ends within as many rounds as the
-- map has entries and one more, at a spec that is not overridden and has the tag of the first.
pub resolve_spec_override_total :
    (object_at : Spec → SpecObject) (overrides : List SpecOverride) (m : OverrideMap) (spec : Spec)
    → make_spec_override_map object_at overrides ≡ some (ok m)
    → (s : Spec) × (resolve_spec_override (enough_fuel m) m spec ≡ some s)
      × (get s m ≡ none)
      × (tag_of object_at spec ≡ tag_of object_at s)
resolve_spec_override_total o overrides m spec h =
    let checked = make_spec_override_map-IsCheckedMap o overrides m h in
    let (s, resolved, free) = ends checked in
    (s, resolved, free, resolve-SameTag o (enough_fuel m) m spec s checked.tags resolved)
  where
    ends :
        IsCheckedMap o m
        → (s : Spec) × (resolve_spec_override (enough_fuel m) m spec ≡ some s) × (get s m ≡ none)
    ends checked = elim (Bool-cases (has spec (keys m))) [
      | inl i ↦ walk_resolves (enough_fuel m) m [] spec (checked.ends spec i)
      | inr i ↦ (
        spec,
        unfold resolve_spec_override in rw (has-get spec m i, resolve_spec_override),
        has-get spec m i,
      )
    ]
