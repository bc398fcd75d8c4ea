-- ===== src/Scenarios/Leases.antt =====
-- A ready cell without leases, and hooks whose resource starts.
use frond.Shared.{
  ◌↔◌, has, string_eq, String, ◌≡◌, refl, true, false, none, some, List, [], ◌∷◌, has, string_eq,
}
use frond.Shared.Int.{ℤ, pos}
use frond.Types.Value.{Value, object, text}
use frond.Types.Validity.{ResultValidity, NormalizedResultValidityPolicy}
use frond.Types.Live.{
  source_eq, NodeLiveScopeKey, NodeLiveSource, NodeLiveDemandSnapshot, GraphFailure,
}
use frond.Cell.Phase.{CellLiveLease, LiveResourceState, CellPhase, phase_ready_data}
use frond.Cell.Demand.{lease_sources, lease_scope_keys, active_live_demand}
use frond.Cell.Transitions.{GraphNodeState}
use frond.Liveness.Changes.{same_live_leases_demand_iff}
use frond.Keys.Value.{KeyInput}
use frond.Scenarios.Keys.{json}
use frond.Liveness.Leases.{same_live_leases_demand}
use frond.Liveness.Handlers.{LeaseHost}
use frond.Liveness.Delivery.{Stage, Answer, LiveHooks, LiveCell, deliver_live_demand}
use frond.Liveness.Delivery.History.{History, IsOwned, is_ready, live_of}
use frond.Liveness.Delivery.Owned.{Delivered, deliver_live_demand-IsOwned}

abbrev ready_cell : GraphNodeState
ready_cell = record {
  next_operation_id = 1;
  next_attempt_id = 1;
  next_live_generation = 1;
  phase =
      CellPhase.ready
        (record {
          args = text "args";
          live_leases = [];
          live_failure = none;
          node = object 1;
          deps = [];
          result = text "result";
          result_validity = ResultValidity.current none;
          result_loaded_at = none;
          result_validity_policy = NormalizedResultValidityPolicy.static;
          disposers = record { list = []; invoked = []; settled = false };
          live_resource = LiveResourceState.inactive;
          node_lifetime = object 2;
        })
        none;
}

abbrev same_order : String → String → ℤ
same_order a b = pos 0

abbrev lease : CellLiveLease
lease = record {
  lease_id = "lease-1";
  source = NodeLiveSource.mobx;
  scope = text "all";
  scope_key = "all";
}

abbrev hooks : LiveHooks
hooks = record {
  start = λ generation demand. Answer.ok (object 7);
  update = none;
  stop = λ resource reason. Answer.ok tt;
}

abbrev demand : NodeLiveDemandSnapshot
demand = record { is_live = true; sources = NodeLiveSource.mobx ∷ []; scopes = text "all" ∷ [] }

abbrev source_text : List NodeLiveSource → String
source_text sources = "sources"

abbrev scope_text : List Value → String
scope_text scopes = "scopes"

abbrev failure_of : Stage → Value → GraphFailure
failure_of stage cause = cause

abbrev live_cell : LiveCell
live_cell = record { state = ready_cell; events = [] }

live_cell-IsOwned : IsOwned live_cell
unfolding phase_ready_data
live_cell-IsOwned = History.nothing

abbrev host : LeaseHost
host = record {
  locale_compare = same_order;
  stringify_sources = source_text;
  stringify_scopes = scope_text;
  live_delivery_failed = failure_of;
  now = pos 9;
  json = json;
  key_input = λ value. KeyInput.null;
  text_of = λ text. "all";
  scope_refused = λ error. text "refused";
  decimal = λ n. "1";
}

deliver_live_demand-IsOwned_example :
    IsOwned
      (deliver_live_demand source_text scope_text failure_of
        (pos 9)
        (some hooks)
        live_cell
        demand).0
    × (is_ready
          (deliver_live_demand source_text scope_text failure_of
            (pos 9)
            (some hooks)
            live_cell
            demand).0.state.phase
        ≡ true)
    × Delivered source_text scope_text failure_of
        (pos 9)
        (active_live_demand demand)
        (deliver_live_demand source_text scope_text failure_of
          (pos 9)
          (some hooks)
          live_cell
          demand).1
        (live_of
          (deliver_live_demand source_text scope_text failure_of
            (pos 9)
            (some hooks)
            live_cell
            demand).0.state.phase)
unfolding phase_ready_data
deliver_live_demand-IsOwned_example =
    deliver_live_demand-IsOwned source_text scope_text failure_of (pos 9) hooks live_cell demand
      refl live_cell-IsOwned

abbrev twice : List CellLiveLease
twice = lease ∷ record lease { lease_id = "lease-2" } ∷ []

same_live_leases_demand_example : (same_live_leases_demand (lease ∷ []) twice ≡ true) ↔ (
    ((source : NodeLiveSource)
      → has source (lease_sources (lease ∷ [])) ≡ has source (lease_sources twice))
    × ((key : NodeLiveScopeKey)
        → has key (lease_scope_keys (lease ∷ [])) ≡ has key (lease_scope_keys twice)))
same_live_leases_demand_example = same_live_leases_demand_iff (lease ∷ []) twice
