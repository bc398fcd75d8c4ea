-- ===== src/Scenarios/Channels.antt =====
-- A channel that retains nothing, one that the host bounds, and one of the name `__proto__`.
use frond.Shared.{String, string_eq, has, ◌≡◌, refl, some, List, [], ◌∷◌}
use frond.Shared.Int.{pos}
use frond.Shared.Maps.{get, keys}
use frond.Shared.Distinct.{IsDistinct}
use frond.Runtime.Limits.{integer, allowed}
use frond.Runtime.Policies.{
  RuntimeSignalPolicy, unretained, bounded_by, keep_none, bounded, RuntimeSignalPolicyRegistry,
  normalize_runtime_signal_policies, signal_policy,
}
use frond.Runtime.Policies.Configured.{or_else, normalized_or_default, configured_policy}

abbrev channels : List (String × RuntimeSignalPolicy)
channels = ("secrets", unretained) ∷ ("__proto__", unretained) ∷ []

abbrev policies : List (String × RuntimeSignalPolicy)
policies = ("log", bounded_by (some (integer (pos 4)))) ∷ []

abbrev registry : RuntimeSignalPolicyRegistry
registry = record {
  default_policy = bounded 128;
  by_channel = ("secrets", keep_none) ∷ ("log", bounded 4) ∷ [];
}

accepted : normalize_runtime_signal_policies channels policies ≡ allowed registry
unfolding normalize_runtime_signal_policies
accepted = refl

policies-IsDistinct : IsDistinct (keys policies)
unfolding has
policies-IsDistinct = (refl, tt)

configured_policy_example :
    allowed (signal_policy registry "secrets")
    ≡ normalized_or_default (or_else (get "secrets" channels) (get "secrets" policies))
configured_policy_example =
    configured_policy channels policies registry "secrets" policies-IsDistinct refl accepted

-- A channel of this name is not among the properties of the object that it is assigned to.
unretained_is_retained : signal_policy registry "__proto__" ≡ bounded 128
unfolding signal_policy
unretained_is_retained = refl
