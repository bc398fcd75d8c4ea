-- ===== src/Runtime/Policies.antt =====
-- The policies of the channels: packages/core/src/runtime/options.ts, and signalPolicy of
-- packages/core/src/runtime/signalBus.ts. An object that is filled by assignment is an association
-- list; assigning the name `__proto__` adds no property of its own. Of two errors in the same
-- registrations only the message is kept, not the channel that it names.
pub mod Configured
use frond.Shared.{
  ℕ, String, Bool, false, Option, none, some, List, [], ◌∷◌, if◌then◌else◌, ◌==◌, string_eq, has,
  ◌||◌,
}
use frond.Shared.Maps.{get, put, keys}
use frond.Runtime.Limits.{
  LimitNumber, Limited, allowed, out_of_range, non_negative_integer_with_default,
}

pub data RuntimeSignalPolicy : Type 0 where
  unretained : RuntimeSignalPolicy
  bounded_by : Option LimitNumber → RuntimeSignalPolicy

pub data NormalizedRuntimeSignalPolicy : Type 0 where
  keep_none : NormalizedRuntimeSignalPolicy
  bounded : ℕ → NormalizedRuntimeSignalPolicy

pub record RuntimeSignalPolicyRegistry : Type 0 where
  pub default_policy : NormalizedRuntimeSignalPolicy
  pub by_channel : List (String × NormalizedRuntimeSignalPolicy)

abbrev pub default_signal_buffer_size : ℕ
default_signal_buffer_size = 128

-- `policies[channel] = policy` on an object literal.
unfoldable pub assign :
    String
    → RuntimeSignalPolicy
    → List (String × RuntimeSignalPolicy)
    → List (String × RuntimeSignalPolicy)
unfolding put
assign channel policy policies =
    if channel == "__proto__" then policies else put channel policy policies

-- The loop over the registrations, from the policies so far.
unfoldable pub signal_policies_from_channels :
    List (String × RuntimeSignalPolicy)
    → List (String × RuntimeSignalPolicy)
    → Limited (List (String × RuntimeSignalPolicy))
unfolding assign has
signal_policies_from_channels [] policies = allowed policies
signal_policies_from_channels ((channel, policy) ∷ channels) policies =
    let rest = signal_policies_from_channels channels (assign channel policy policies) in
    if has channel (keys policies)
    then out_of_range "Frond runtime channel definitions must be unique by channel."
    else rest

unfoldable pub collides :
    List (String × RuntimeSignalPolicy) → List (String × RuntimeSignalPolicy) → Bool
unfolding has
collides channels [] = false
collides channels ((channel, policy) ∷ policies) =
    has channel (keys channels) || collides channels policies

unfoldable pub normalize_runtime_signal_policy :
    RuntimeSignalPolicy → Limited NormalizedRuntimeSignalPolicy
normalize_runtime_signal_policy unretained = allowed keep_none
normalize_runtime_signal_policy (bounded_by size) =
    elim (non_negative_integer_with_default "Runtime signal buffer size" default_signal_buffer_size
      size) [ allowed n ↦ allowed (bounded n) | out_of_range label ↦ out_of_range label ]

-- `{ ...channelPolicies, ...policies }`.
unfoldable pub spread :
    List (String × RuntimeSignalPolicy)
    → List (String × RuntimeSignalPolicy)
    → List (String × RuntimeSignalPolicy)
unfolding put
spread channels [] = channels
spread channels ((channel, policy) ∷ policies) = spread (put channel policy channels) policies

unfoldable pub normalize_each :
    List (String × RuntimeSignalPolicy) → Limited (List (String × NormalizedRuntimeSignalPolicy))
unfolding normalize_runtime_signal_policy
normalize_each [] = allowed []
normalize_each ((channel, policy) ∷ policies) =
    let rest = normalize_each policies in
    elim (normalize_runtime_signal_policy policy) [
      | out_of_range label ↦ out_of_range label
      | allowed normalized ↦ elim rest [
        | out_of_range label ↦ out_of_range label
        | allowed others ↦ allowed ((channel, normalized) ∷ others)
      ]
    ]

unfoldable pub normalize_runtime_signal_policies :
    List (String × RuntimeSignalPolicy)
    → List (String × RuntimeSignalPolicy)
    → Limited RuntimeSignalPolicyRegistry
unfolding signal_policies_from_channels collides spread normalize_each
normalize_runtime_signal_policies channels policies =
    elim (signal_policies_from_channels channels []) [
      | out_of_range label ↦ out_of_range label
      | allowed channel_policies ↦
          if collides channel_policies policies
          then out_of_range
              "Frond runtime signalPolicies must not redefine a channel installed through channels."
          else elim (normalize_each (spread channel_policies policies)) [
            | out_of_range label ↦ out_of_range label
            | allowed by_channel ↦ allowed (record {
              default_policy = bounded default_signal_buffer_size;
              by_channel = by_channel;
            })
          ]
    ]

-- An own property, or the default.
unfoldable pub signal_policy : RuntimeSignalPolicyRegistry → String → NormalizedRuntimeSignalPolicy
unfolding get
signal_policy policies channel = elim (get channel policies.by_channel) [
  | none ↦ policies.default_policy
  | some policy ↦ policy
]
