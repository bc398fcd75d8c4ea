-- ===== src/Disposers/Bag.antt =====
-- makeOperationDisposers of packages/core/src/graph/lifecycle/operationDisposers.ts: the disposers
-- that one driver operation collects. A disposer that a running disposer adds to the bag is taken as
-- added after it. The reports of detached runs are returned with their reason.
pub mod Runs
pub mod Accounts
pub mod Interrupts
use frond.Shared.{
  ℕ, String, Bool, true, false, Option, none, some, List, [], ◌∷◌, ◌++◌, if◌then◌else◌, map,
}
use frond.Disposers.Registry.{Disposer, DisposerRegistry}
use frond.Disposers.Drain.{
  DisposerCall, DisposerFailed, DisposerCell, Teardown, add, append, run_disposers,
  run_detached_disposer,
}

pub data SettleReason : Type 0 where
  acquire action interrupt refresh teardown : SettleReason

pub record OperationDisposers : Type 0 where
  pub pending : List Disposer
  pub owned : Teardown
  pub settled_reason : Option SettleReason
  pub handed_off : Bool

-- The bag of an operation over the registry of its incarnation.
abbrev pub make_operation_disposers : Teardown → OperationDisposers
make_operation_disposers owned = record {
  pending = [];
  owned = owned;
  settled_reason = none;
  handed_off = false;
}

abbrev pub Reports : Type 0
Reports = SettleReason × List DisposerFailed

-- An operation, with whether its AbortController was aborted.
pub record DriverOperation : Type 0 where
  pub aborted : Bool
  pub disposers : OperationDisposers

abbrev pub reported_failures : SettleReason → List DisposerFailed → Option Reports
reported_failures reason [] = none
reported_failures reason (failure ∷ failures) = some (reason, failure ∷ failures)

module _ (call : Disposer → DisposerCall) (cell : DisposerCell) where
  unfoldable pub run_settled :
      OperationDisposers → Disposer → SettleReason → OperationDisposers × Reports
  unfolding run_detached_disposer
  run_settled bag d reason =
      let (owned, failures) = run_detached_disposer call cell bag.owned d in
      (record bag { owned = owned }, (reason, failures))

  unfoldable pub add_disposer : OperationDisposers → Disposer → OperationDisposers × Reports
  unfolding run_settled add
  add_disposer bag d =
      let late = run_settled bag d teardown in
      elim bag.settled_reason [
        | some reason ↦ run_settled bag d reason
        | none ↦
            if bag.handed_off
            then (if bag.owned.registry.settled then late else (
              record bag { owned = record bag.owned { registry = add bag.owned.registry d } },
              (teardown, []),
            ))
            else (record bag { pending = bag.pending ++ d ∷ [] }, (teardown, []))
      ]

  unfoldable pub hand_off : OperationDisposers → OperationDisposers
  unfolding append
  hand_off bag = record bag {
    handed_off = true;
    owned = record bag.owned { registry = append bag.owned.registry bag.pending };
    pending = [];
  }

  unfoldable pub drain_bag :
      OperationDisposers → SettleReason → OperationDisposers × List DisposerFailed
  unfolding run_disposers
  drain_bag bag reason =
      let (owned, failures) = run_disposers call cell bag.owned bag.pending in
      if bag.handed_off
      then (bag, [])
      else (record bag { settled_reason = some reason; owned = owned; pending = [] }, failures)

  unfoldable pub take_disposers :
      OperationDisposers → SettleReason → OperationDisposers × List Disposer
  take_disposers bag reason =
      (record bag { settled_reason = some reason; pending = [] }, bag.pending)

  -- interruptDriverOperation: the abort, the drain, and the report of failures if there are any.
  unfoldable pub interrupt_driver_operation : DriverOperation → DriverOperation × Option Reports
  unfolding drain_bag
  interrupt_driver_operation operation =
      let (after, failures) = drain_bag operation.disposers interrupt in
      (record { aborted = true; disposers = after }, reported_failures interrupt failures)
