-- ===== src/Disposers/Drain.antt =====
-- The teardown drain and the detached run of a late disposer: makeDisposerRegistry, runDisposers,
-- runDetachedDisposer and invokeDisposerOnce of packages/core/src/graph/lifecycle/disposers.ts. What
-- a disposer does is the author's code, the parameter `call`: how it ends within its bound, and the
-- disposers that are registered meanwhile. The `while` loop runs on fuel, and `none`
-- says that it ran out.
pub mod Once
use frond.Shared.{
  ℕ, zero, suc, String, Bool, true, Option, none, some, List, [], ◌∷◌, ◌++◌, if◌then◌else◌, nat_eq,
  has,
}
use frond.Types.Value.{Value}
use frond.Types.Live.{NodeId}
use frond.Disposers.Registry.{Disposer, DisposerRegistry}

-- A return that is no promise, a throw, a promise that resolves, rejects, or outlives its bound.
pub data DisposerEnd : Type 0 where
  returned resolved outlived : DisposerEnd
  threw rejected : Value → DisposerEnd

pub record DisposerCall : Type 0 where
  pub end : DisposerEnd
  pub registers : List Disposer

pub data DisposerCause : Type 0 where
  raised : Value → DisposerCause
  disposer_timed_out : ℕ → DisposerCause

pub record DisposerFailed : Type 0 where
  pub node_id : NodeId
  pub tag : String
  pub cause : DisposerCause

-- The cell that a disposer belongs to, and the bound of each run.
pub record DisposerCell : Type 0 where
  pub node_id : NodeId
  pub tag : String
  pub timeout : ℕ

-- A registry, and the disposers that have been called, the last one first.
pub record Teardown : Type 0 where
  pub registry : DisposerRegistry
  pub calls : List Disposer

unfoldable pub add : DisposerRegistry → Disposer → DisposerRegistry
add registry disposer = record registry { list = registry.list ++ disposer ∷ [] }

unfoldable pub append : DisposerRegistry → List Disposer → DisposerRegistry
append registry disposers = record registry { list = registry.list ++ disposers }

disposer_failed : DisposerCell → DisposerCause → DisposerFailed
disposer_failed cell cause = record { node_id = cell.node_id; tag = cell.tag; cause = cause }

end_failure : DisposerCell → DisposerEnd → List DisposerFailed
unfolding disposer_failed
end_failure cell (threw cause) = disposer_failed cell (DisposerCause.raised cause) ∷ []
end_failure cell (rejected cause) = disposer_failed cell (DisposerCause.raised cause) ∷ []
end_failure cell outlived = disposer_failed cell (disposer_timed_out cell.timeout) ∷ []
end_failure cell _ = []

abbrev pub reversed : List Disposer → List Disposer → List Disposer
reversed [] done = done
reversed (d ∷ ds) done = reversed ds (d ∷ done)

module _ (call : Disposer → DisposerCall) where
  -- The call, with what is registered meanwhile.
  unfoldable pub called : Teardown → Disposer → Teardown
  unfolding append
  called s d = record {
    registry = append (record s.registry { invoked = d ∷ s.registry.invoked }) ((call d).registers);
    calls = d ∷ s.calls;
  }

  unfoldable pub run_disposer : DisposerCell → Teardown → Disposer → Teardown × List DisposerFailed
  unfolding called end_failure has
  run_disposer cell s d =
      if has d s.registry.invoked then (s, []) else (called s d, end_failure cell (call d).end)

  unfoldable pub run_each : DisposerCell → Teardown → List Disposer → Teardown × List DisposerFailed
  unfolding run_disposer
  run_each cell s [] = (s, [])
  run_each cell s (d ∷ ds) =
      let (after, failures) = run_disposer cell s d in
      let (last, others) = run_each cell after ds in (last, failures ++ others)

  -- Reverse registration order, one after the other.
  unfoldable pub run_disposers :
      DisposerCell → Teardown → List Disposer → Teardown × List DisposerFailed
  unfolding run_each
  run_disposers cell s disposers = run_each cell s (reversed disposers [])

  -- `list.splice(0, list.length)`.
  abbrev pub taken : Teardown → Teardown
  taken s = record s { registry = record s.registry { list = [] } }

  abbrev pub settle : Teardown → Teardown
  settle s = record s { registry = record s.registry { settled = true } }

  unfoldable pub drain : ℕ → DisposerCell → Teardown → Option (Teardown × List DisposerFailed)
  unfolding run_disposers
  drain zero cell s = none
  drain (suc fuel) cell s = elim s.registry.list [
    | [] ↦ some (settle s, [])
    | d ∷ ds ↦
        let (after, failures) = run_disposers cell (taken s) (d ∷ ds) in
        elim (drain fuel cell after) [
          | none ↦ none
          | some (last, others) ↦ some (last, failures ++ others)
        ]
  ]

  -- A disposer that is added after the drain: it runs at once, and reports its failure.
  unfoldable pub run_detached_disposer :
      DisposerCell → Teardown → Disposer → Teardown × List DisposerFailed
  unfolding run_disposer
  run_detached_disposer cell s d = run_disposer cell s d
