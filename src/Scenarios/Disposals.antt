-- ===== src/Scenarios/Disposals.antt =====
-- Two disposers of which the first one, when it is called, registers the second again and a third.
use frond.Shared.{
  ◌+◌, ◌≡◌, refl, true, false, not, ◌||◌, none, false, some, List, [], ◌∷◌, arith, has, length,
  nat_eq, ◌==◌, if◌then◌else◌,
}
use frond.Types.Value.{text}
use frond.Disposers.Registry.{Disposer}
use frond.Disposers.Bag.Interrupts.{to_run, interrupt_driver_operation_lem}
use frond.Disposers.Bag.{
  DriverOperation, interrupt_driver_operation, OperationDisposers, SettleReason,
  make_operation_disposers,
}
use frond.Disposers.Bag.Accounts.{
  BagCall, bag_add, bag_hand_off, bag_drain, registry_drain, bag_run, hands_off_live, added,
  Accounted, make_operation_disposers-Accounted,
}
use frond.Disposers.Drain.{DisposerEnd, DisposerCall, DisposerCell, DisposerFailed, Teardown, drain}
use frond.Disposers.Drain.Once.{IsOnce, Within, Drained, drain_exact}

abbrev call : Disposer → DisposerCall
call d =
    if d == 1
    then record { end = DisposerEnd.returned; registers = 2 ∷ 3 ∷ [] }
    else record { end = DisposerEnd.threw (text "late"); registers = [] }

abbrev disposers : List Disposer
disposers = 1 ∷ 2 ∷ 3 ∷ []

call-Within : (d : Disposer) → has d disposers ≡ true → Within disposers ((call d).registers)
unfolding has
call-Within d m a h = ground arith

abbrev cell : DisposerCell
cell = record { node_id = "todo:1"; tag = "todo"; timeout = 5000 }

abbrev before : Teardown
before = record {
  registry = record { list = 1 ∷ 2 ∷ []; invoked = []; settled = false };
  calls = [];
}

before-Within : Within disposers before.registry.list
unfolding has
before-Within a h = ground arith

before-IsOnce : IsOnce before
unfolding has
before-IsOnce = record { distinct = tt; known = λ a h. ground arith }

drain_exact_example :
    (after : Teardown) × (failures : List DisposerFailed) × (drain call
        (length disposers + 2)
        cell
        before
      ≡ some (after, failures))
    × Drained before after
drain_exact_example = drain_exact call cell disposers call-Within before before-Within before-IsOnce

-- The first disposer waits when the bag is handed off, and the last one comes after the teardown.
abbrev bag_calls : List BagCall
bag_calls =
    bag_add 1 ∷ bag_hand_off ∷ bag_drain SettleReason.interrupt ∷ registry_drain 5 ∷ bag_add 4 ∷ []

abbrev bag_result : OperationDisposers × List Disposer
bag_result = bag_run call cell (make_operation_disposers before, []) bag_calls

last-added : has 4 (added bag_calls) ≡ true
unfolding has
last-added = refl

bag_calls-live : hands_off_live call cell (make_operation_disposers before, []) bag_calls ≡ true
unfolding hands_off_live frond.Disposers.Bag.add_disposer
bag_calls-live = refl

make_operation_disposers-Accounted_example : Accounted 4 bag_result.0 bag_result.1
make_operation_disposers-Accounted_example =
    make_operation_disposers-Accounted call cell before bag_calls 4 bag_calls-live last-added

abbrev running : DriverOperation
running = record {
  aborted = false;
  disposers = record (make_operation_disposers before) { pending = 1 ∷ 2 ∷ [] };
}

interrupt_driver_operation_lem_example :
    let (after, reports) = interrupt_driver_operation call cell running in
    (after.aborted ≡ true)
    × ((not (has 2 (to_run running.disposers)) || has 2 after.disposers.owned.registry.invoked)
        ≡ true)
    × ((if running.disposers.handed_off then after.disposers else running.disposers)
        ≡ running.disposers)
    × ((if running.disposers.handed_off then reports else none) ≡ none)
interrupt_driver_operation_lem_example = interrupt_driver_operation_lem call cell running 2
