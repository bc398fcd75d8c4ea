-- ===== src/Types/Live.antt =====
-- packages/core/src/graph/types/liveness.ts: the demand for a node's live resource.
use frond.Shared.{String, Bool, true, false, List, ◌≡◌, ◌↔◌, arith, Eq}
use frond.Shared.Int.{ℤ}
use frond.Types.Value.{Value}

abbrev pub NodeId : Type 0
NodeId = String

pub data NodeLiveSource : Type 0 where
  mobx manual : NodeLiveSource

abbrev pub NodeLiveLeaseId : Type 0
NodeLiveLeaseId = String

abbrev pub NodeLiveScopeKey : Type 0
NodeLiveScopeKey = String

pub record NodeLiveDemandSnapshot : Type 0 where
  pub is_live : Bool
  pub sources : List NodeLiveSource
  pub scopes : List Value

-- A failure of the graph is an error object.
abbrev pub GraphFailure : Type 0
GraphFailure = Value

pub record NodeLiveFailure : Type 0 where
  pub failures : List GraphFailure
  pub at : ℤ

pub data LiveResourceStopReason : Type 0 where
  demand_inactive demand_changed update_failed node_released node_evicted graph_stopped
        ready_invalidated start_interrupted :
      LiveResourceStopReason

abbrev source_beq : NodeLiveSource → NodeLiveSource → Bool
source_beq mobx mobx = true
source_beq manual manual = true
source_beq _ _ = false

pub source_beq_iff : (a b : NodeLiveSource) → (source_beq a b ≡ true) ↔ (a ≡ b)
source_beq_iff a b = ground arith

instance abbrev pub source_eq : Eq NodeLiveSource
source_eq = record { beq = source_beq; beq_iff = source_beq_iff }

-- The order of the default sort: "manual" < "mobx".
abbrev pub source_before : NodeLiveSource → NodeLiveSource → Bool
source_before mobx manual = false
source_before _ _ = true
