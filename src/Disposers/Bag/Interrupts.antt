-- ===== src/Disposers/Bag/Interrupts.antt =====
-- interruptDriverOperation of packages/core/src/graph/lifecycle/operationDisposers.ts.
use frond.Shared.{
  ◌≡◌, refl, true, ◌||◌, none, List, [], if◌then◌else◌, nat_eq, has, Bool-cases, inl, inr, arith,
  not,
}
use frond.Disposers.Registry.{Disposer}
use frond.Disposers.Drain.{DisposerCall, DisposerCell}
use frond.Disposers.Bag.{OperationDisposers, DriverOperation, drain_bag, interrupt_driver_operation}
use frond.Disposers.Bag.Runs.{run_disposers-known}

-- The disposers that an interrupt has to run: those of an operation that was not handed off.
abbrev pub to_run : OperationDisposers → List Disposer
to_run bag = if bag.handed_off then [] else bag.pending

-- After an interrupt the operation is aborted, and every disposer that it had collected has been
-- invoked, unless it was handed off: then its bag is as before, so that nothing of the node's ready
-- data is run or removed, and no failure is reported.
pub interrupt_driver_operation_lem :
    (call : Disposer → DisposerCall) (cell : DisposerCell) (operation : DriverOperation)
    (a : Disposer)
    → let bag = operation.disposers in
      let (after, reports) = interrupt_driver_operation call cell operation in
      (after.aborted ≡ true)
      × ((not (has a (to_run bag)) || has a after.disposers.owned.registry.invoked) ≡ true)
      × ((if bag.handed_off then after.disposers else bag) ≡ bag)
      × ((if bag.handed_off then reports else none) ≡ none)
unfolding interrupt_driver_operation drain_bag has
interrupt_driver_operation_lem call cell operation a =
    elim (Bool-cases operation.disposers.handed_off) [
      | inl e ↦ rw (e, interrupt_driver_operation, drain_bag) (refl, refl, refl, refl)
      | inr e ↦
          let known =
            run_disposers-known call cell a operation.disposers.owned operation.disposers.pending in
          rw (e, drain_bag) (refl, ground (arith, known), refl, refl)
    ]
