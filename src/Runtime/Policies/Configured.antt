-- ===== src/Runtime/Policies/Configured.antt =====
-- The policy of each channel after packages/core/src/runtime/options.ts has taken the registrations
-- and the policies of the host.
use frond.Shared.{
  ◌≡◌, refl, sym, ap, ◌∙◌, String, false, Option, none, some, List, [], ◌∷◌, if◌then◌else◌, ◌==◌,
  string_eq, has, Bool-cases, Option-cases, inl, inr, ◌⊎◌, arith,
}
use frond.Shared.Maps.{get, put, keys, get-put}
use frond.Shared.Distinct.{IsDistinct}
use frond.Runtime.Limits.{Limited, allowed, out_of_range}
use frond.Runtime.Policies.{
  RuntimeSignalPolicy, NormalizedRuntimeSignalPolicy, bounded, RuntimeSignalPolicyRegistry,
  default_signal_buffer_size, assign, signal_policies_from_channels, collides,
  normalize_runtime_signal_policy, spread, normalize_each, normalize_runtime_signal_policies,
  signal_policy,
}

abbrev Policies : Type 0
Policies = List (String × RuntimeSignalPolicy)

abbrev pub or_else {ℓ} : {A : Type ℓ} → Option A → Option A → Option A
or_else none other = other
or_else (some a) other = some a

has-get : (c : String) (m : Policies) → has c (keys m) ≡ false → get c m ≡ none
unfolding has get
has-get c [] h = refl
has-get c ((k, p) ∷ m) h = ground (arith, h, has-get c m)

get-assign :
    (c k : String) (p : RuntimeSignalPolicy) (m : Policies)
    → (c == "__proto__") ≡ false
    → get c (assign k p m) ≡ (if k == c then some p else get c m)
unfolding assign
get-assign c k p m h = elim (Bool-cases (k == "__proto__")) [
  | inl e ↦ elim (Bool-cases (k == c)) [
    | inl f ↦
        absurd
          (ground (arith, sym e ∙ ap (λ i. i == "__proto__") ((string_eq.beq_iff k c).0 f) ∙ h))
    | inr f ↦ rw (e, assign, f) refl
  ]
  | inr e ↦ rw (e, assign) (get-put k c p m)
]

or_else-none : (o : Option RuntimeSignalPolicy) → or_else o none ≡ o
or_else-none none = refl
or_else-none (some p) = refl

allowed-injective : {A : Type 0} {a b : A} → allowed a ≡ allowed b → a ≡ b
allowed-injective h = cc

channels-lem :
    (c : String) (cs acc out : Policies)
    → (c == "__proto__") ≡ false
    → signal_policies_from_channels cs acc ≡ allowed out
    → get c out ≡ or_else (get c acc) (get c cs)
unfolding signal_policies_from_channels get
channels-lem c [] acc out h e =
    ap (get c) (sym (allowed-injective e)) ∙ sym (or_else-none (get c acc))
channels-lem c ((k, p) ∷ cs) acc out h e = elim (Bool-cases (has k (keys acc))) [
  | inl f ↦
      let q : signal_policies_from_channels ((k, p) ∷ cs) acc
          ≡ out_of_range "Frond runtime channel definitions must be unique by channel." =
        rw (f, signal_policies_from_channels) refl in
      absurd (ground (arith, sym q ∙ e))
  | inr f ↦
      let q : signal_policies_from_channels ((k, p) ∷ cs) acc
          ≡ signal_policies_from_channels cs (assign k p acc) =
        rw (f, signal_policies_from_channels) refl in
      let rest = channels-lem c cs (assign k p acc) out h (sym q ∙ e) in
      ground (arith, rest, get-assign c k p acc h, has-get k acc f, string_eq.beq_iff k c)
]

spread-lem :
    (c : String) (ps ch : Policies)
    → IsDistinct (keys ps)
    → get c (spread ch ps) ≡ or_else (get c ps) (get c ch)
unfolding spread get
spread-lem c [] ch h = refl
spread-lem c ((k, p) ∷ ps) ch h = ground (
  arith,
  spread-lem c ps (put k p ch) h.1,
  get-put k c p ch,
  has-get c ps,
  string_eq.beq_iff k c,
  h.0,
)

collides-lem :
    (c : String) (ch ps : Policies)
    → collides ch ps ≡ false
    → or_else (get c ps) (get c ch) ≡ or_else (get c ch) (get c ps)
unfolding collides get
collides-lem c ch [] h = sym (or_else-none (get c ch))
collides-lem c ch ((k, p) ∷ ps) h =
    ground (arith, h, collides-lem c ch ps, has-get c ch, string_eq.beq_iff k c)

-- What a policy is normalized to, and the default for none.
abbrev pub normalized_or_default :
    Option RuntimeSignalPolicy → Limited NormalizedRuntimeSignalPolicy
normalized_or_default none = allowed (bounded default_signal_buffer_size)
normalized_or_default (some policy) = normalize_runtime_signal_policy policy

abbrev found_or_default : Option NormalizedRuntimeSignalPolicy → NormalizedRuntimeSignalPolicy
found_or_default none = bounded default_signal_buffer_size
found_or_default (some policy) = policy

Limited-cases :
    {A : Type 0} (x : Limited A)
    → ((label : String) × (x ≡ out_of_range label)) ⊎ ((a : A) × (x ≡ allowed a))
Limited-cases (allowed a) = inr (a, refl)
Limited-cases (out_of_range label) = inl (label, refl)

normalize_each-lem :
    (c : String) (m : Policies) (out : List (String × NormalizedRuntimeSignalPolicy))
    → normalize_each m ≡ allowed out
    → allowed (found_or_default (get c out)) ≡ normalized_or_default (get c m)
unfolding normalize_each get
normalize_each-lem c [] out e =
    ap (λ o. allowed (found_or_default (get c o))) (sym (allowed-injective e))
normalize_each-lem c ((k, p) ∷ m) out e = elim (Limited-cases (normalize_runtime_signal_policy p)) [
  | inl (label, f) ↦
      let q : normalize_each ((k, p) ∷ m) ≡ out_of_range label = rw (f, normalize_each) refl in
      absurd (ground (arith, sym q ∙ e))
  | inr (n, f) ↦ elim (Limited-cases (normalize_each m)) [
    | inl (label, g) ↦
        let q : normalize_each ((k, p) ∷ m) ≡ out_of_range label = rw (f, g, normalize_each) refl in
        absurd (ground (arith, sym q ∙ e))
    | inr (others, g) ↦
        let q : normalize_each ((k, p) ∷ m) ≡ allowed ((k, n) ∷ others) =
          rw (f, g, normalize_each) refl in
        let same : (k, n) ∷ others ≡ out = allowed-injective (sym q ∙ e) in
        ap (λ o. allowed (found_or_default (get c o))) (sym same) ∙ elim (Bool-cases (k == c)) [
          | inl h ↦ rw (h, get) (sym f)
          | inr h ↦ rw (h, get) (normalize_each-lem c m others g)
        ]
  ]
]

found_or_default-lem :
    (policies : RuntimeSignalPolicyRegistry) (c : String)
    → policies.default_policy ≡ bounded default_signal_buffer_size
    → signal_policy policies c ≡ found_or_default (get c policies.by_channel)
unfolding signal_policy
found_or_default-lem policies c h = elim (Option-cases (get c policies.by_channel)) [
  | inl e ↦ rw (e, signal_policy) h
  | inr (policy, e) ↦ rw (e, signal_policy) refl
]

-- When the registrations and the policies of the host, which have different names, are accepted,
-- every channel but one of the name `__proto__` has the policy that it was registered with, or the
-- host's for it, or the default.
pub configured_policy :
    (channels policies : List (String × RuntimeSignalPolicy))
    (registry : RuntimeSignalPolicyRegistry) (channel : String)
    → IsDistinct (keys policies)
    → (channel == "__proto__") ≡ false
    → normalize_runtime_signal_policies channels policies ≡ allowed registry
    → allowed (signal_policy registry channel)
      ≡ normalized_or_default (or_else (get channel channels) (get channel policies))
unfolding normalize_runtime_signal_policies get
configured_policy channels policies registry channel distinct named e =
    elim (Limited-cases (signal_policies_from_channels channels [])) [
      | inl (label, f) ↦
          let q : normalize_runtime_signal_policies channels policies ≡ out_of_range label =
            rw (f, normalize_runtime_signal_policies) refl in
          absurd (ground (arith, sym q ∙ e))
      | inr (taken, f) ↦ elim (Bool-cases (collides taken policies)) [
        | inl g ↦
            let q : normalize_runtime_signal_policies channels policies
                ≡ out_of_range
                    "Frond runtime signalPolicies must not redefine a channel installed through channels." =
              rw (f, g, normalize_runtime_signal_policies) refl in
            absurd (ground (arith, sym q ∙ e))
        | inr g ↦ elim (Limited-cases (normalize_each (spread taken policies))) [
          | inl (label, h) ↦
              let q : normalize_runtime_signal_policies channels policies ≡ out_of_range label =
                rw (f, g, h, normalize_runtime_signal_policies) refl in
              absurd (ground (arith, sym q ∙ e))
          | inr (by_channel, h) ↦
              let normalized : RuntimeSignalPolicyRegistry = record {
                default_policy = bounded default_signal_buffer_size;
                by_channel = by_channel;
              } in
              let q : normalize_runtime_signal_policies channels policies ≡ allowed normalized =
                rw (f, g, h, normalize_runtime_signal_policies) refl in
              let same : normalized ≡ registry = allowed-injective (sym q ∙ e) in
              ap (λ r. allowed (signal_policy r channel)) (sym same)
              ∙ ap allowed (found_or_default-lem normalized channel refl)
              ∙ normalize_each-lem channel (spread taken policies) by_channel h
              ∙ ap normalized_or_default (
                  spread-lem channel policies taken distinct
                  ∙ collides-lem channel taken policies g
                  ∙ ap (λ o. or_else o (get channel policies))
                      (channels-lem channel channels [] taken named f))
        ]
      ]
    ]
