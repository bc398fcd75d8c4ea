-- ===== src/Disposers/Bag/Accounts.antt =====
-- Where the disposers of packages/core/src/graph/lifecycle/operationDisposers.ts go.
use mathlib.Core.Path.{subst}
use frond.Shared.{
  ℕ, ◌≡◌, sym, if◌then◌else◌, Option, Bool, true, false, not, ◌&&◌, ◌||◌, none, some, List, [], ◌∷◌,
  ◌++◌, ◌==◌, beq_refl, nat_eq, has, has-append, if_both, Bool-cases, Option-cases, inl, inr, arith,
}
use frond.Disposers.Registry.{Disposer}
use frond.Disposers.Drain.{
  DisposerCall, DisposerCell, DisposerFailed, Teardown, add, append, drain, run_detached_disposer,
}
use frond.Disposers.Bag.Runs.{
  run_disposer-Keeps, run_disposer-known, run_disposers-Keeps, run_disposers-known, drain-known,
}
use frond.Disposers.Bag.{
  OperationDisposers, SettleReason, Reports, teardown, make_operation_disposers, run_settled,
  add_disposer, hand_off, drain_bag, take_disposers,
}

-- A call of the bag, or the teardown of the ready data, which drains the registry.
pub data BagCall : Type 0 where
  bag_add : Disposer → BagCall
  bag_hand_off : BagCall
  bag_drain bag_take : SettleReason → BagCall
  registry_drain : ℕ → BagCall

-- Pending disposers are looked at by a later hand-off, drain or take.
abbrev pub waits : OperationDisposers → Bool
waits bag = elim bag.settled_reason [ none ↦ not bag.handed_off | some reason ↦ false ]

-- A disposer that was added waits in the bag, or in the registry for its teardown, is given away, or
-- has run. One that is in a bag or a registry after its end does not count.
abbrev pub Accounted : Disposer → OperationDisposers → List Disposer → Type 0
Accounted a bag given =
    (waits bag && has a bag.pending
      || not bag.owned.registry.settled && has a bag.owned.registry.list
      || has a given
      || has a bag.owned.registry.invoked)
    ≡ true

abbrev pub added : List BagCall → List Disposer
added [] = []
added (bag_add d ∷ calls) = d ∷ added calls
added (_ ∷ calls) = added calls

abbrev pub drained :
    OperationDisposers → Option (Teardown × List DisposerFailed) → OperationDisposers
drained bag none = bag
drained bag (some (owned, failures)) = record bag { owned = owned }

module _ (call : Disposer → DisposerCall) (cell : DisposerCell) where
  -- The bag, and what take has given away.
  abbrev pub bag_step :
      OperationDisposers × List Disposer → BagCall → OperationDisposers × List Disposer
  bag_step (bag, given) (bag_add d) = ((add_disposer call cell bag d).0, given)
  bag_step (bag, given) bag_hand_off = (hand_off call cell bag, given)
  bag_step (bag, given) (bag_drain reason) = ((drain_bag call cell bag reason).0, given)
  bag_step (bag, given) (bag_take reason) =
      let (after, disposers) = take_disposers call cell bag reason in (after, given ++ disposers)
  bag_step (bag, given) (registry_drain fuel) =
      (drained bag (drain call fuel cell bag.owned), given)

  run_settled-Accounted :
      (a d : Disposer) (bag : OperationDisposers) (given : List Disposer) (reason : SettleReason)
      → (Accounted a bag given → Accounted a (run_settled call cell bag d reason).0 given)
        × Accounted d (run_settled call cell bag d reason).0 given
  unfolding run_settled run_detached_disposer
  run_settled-Accounted a d bag given reason =
      let keeps = run_disposer-Keeps call cell a d bag.owned in
      (
        λ h. ground (arith, h, keeps.listed, keeps.known, keeps.same),
        ground (arith, run_disposer-known call cell d bag.owned),
      )

  abbrev unsettled : OperationDisposers → Disposer → OperationDisposers × Reports
  unsettled bag d =
      if bag.handed_off
      then (if bag.owned.registry.settled then run_settled call cell bag d teardown else (
        record bag { owned = record bag.owned { registry = add bag.owned.registry d } },
        (teardown, []),
      ))
      else (record bag { pending = bag.pending ++ d ∷ [] }, (teardown, []))

  add_disposer-Accounted :
      (a d : Disposer) (bag : OperationDisposers) (given : List Disposer)
      → (Accounted a bag given → Accounted a (add_disposer call cell bag d).0 given)
        × Accounted d (add_disposer call cell bag d).0 given
  unfolding add_disposer add has
  add_disposer-Accounted a d bag given =
      let P : OperationDisposers × Reports → Type 0 =
        λ r. (Accounted a bag given → Accounted a r.0 given) × Accounted d r.0 given in
      elim (Option-cases bag.settled_reason) [
        | inr (reason, e) ↦
            let q : add_disposer call cell bag d ≡ run_settled call cell bag d reason =
              ground (arith, e) in
            subst P (sym q) (run_settled-Accounted a d bag given reason)
        | inl e ↦
            let q : add_disposer call cell bag d ≡ unsettled bag d = ground (arith, e) in
            subst P (sym q) (
              if_both P bag.handed_off _ _
                (λ f.
                  if_both P bag.owned.registry.settled _ _
                    (λ g. run_settled-Accounted a d bag given teardown)
                    (λ g. (
                      λ h.
                          ground (arith, h, e, f, g, has-append a bag.owned.registry.list (d ∷ [])),
                      ground (
                        arith,
                        e,
                        f,
                        g,
                        has-append d bag.owned.registry.list (d ∷ []),
                        beq_refl d,
                      ),
                    )))
                (λ f. (
                  λ h. ground (arith, h, e, f, has-append a bag.pending (d ∷ [])),
                  ground (arith, e, f, has-append d bag.pending (d ∷ []), beq_refl d),
                )))
      ]

  -- A hand-off into a registry that is not settled.
  abbrev pub lives : OperationDisposers → BagCall → Bool
  lives bag bag_hand_off = not bag.owned.registry.settled
  lives bag _ = true

  step-Accounted :
      (a : Disposer) (bag : OperationDisposers) (given : List Disposer) (c : BagCall)
      → lives bag c ≡ true
      → Accounted a bag given
      → let (after, more) = bag_step (bag, given) c in Accounted a after more
  unfolding hand_off append drain_bag take_disposers
  step-Accounted a bag given (bag_add d) l h = (add_disposer-Accounted a d bag given).0 h
  step-Accounted a bag given bag_hand_off l h =
      ground (arith, l, h, has-append a bag.owned.registry.list bag.pending)
  step-Accounted a bag given (bag_drain reason) l h =
      let keeps = run_disposers-Keeps call cell a bag.owned bag.pending in
      ground (
        arith,
        h,
        keeps.listed,
        keeps.known,
        keeps.same,
        run_disposers-known call cell a bag.owned bag.pending,
      )
  step-Accounted a bag given (bag_take reason) l h =
      ground (arith, h, has-append a given bag.pending)
  step-Accounted a bag given (registry_drain fuel) l h =
      let P : Option (Teardown × List DisposerFailed) → Type 0 =
        λ o. Accounted a (drained bag o) given in
      elim (Option-cases (drain call fuel cell bag.owned)) [
        | inl e ↦ subst P (sym e) h
        | inr (outcome, e) ↦
            subst P (sym e) (ground (arith, h, drain-known call cell a fuel bag.owned outcome e))
      ]

  pub bag_run :
      OperationDisposers × List Disposer → List BagCall → OperationDisposers × List Disposer
  bag_run held [] = held
  bag_run held (c ∷ calls) = bag_run (bag_step held c) calls

  -- Every hand-off of the calls is into a registry that is not settled.
  unfoldable pub hands_off_live : OperationDisposers × List Disposer → List BagCall → Bool
  hands_off_live held [] = true
  hands_off_live held (c ∷ calls) = lives held.0 c && hands_off_live (bag_step held c) calls

  run-Accounted :
      (a : Disposer) (held : OperationDisposers × List Disposer) (calls : List BagCall)
      → hands_off_live held calls ≡ true
      → Accounted a held.0 held.1
      → let (after, given) = bag_run held calls in Accounted a after given
  unfolding bag_run hands_off_live
  run-Accounted a held [] live h = h
  run-Accounted a held (c ∷ calls) live h =
      run-Accounted a (bag_step held c) calls (ground (arith, live))
        (step-Accounted a held.0 held.1 c (ground (arith, live)) h)

  added-Accounted :
      (a : Disposer) (held : OperationDisposers × List Disposer) (calls : List BagCall)
      → hands_off_live held calls ≡ true
      → has a (added calls) ≡ true
      → let (after, given) = bag_run held calls in Accounted a after given
  unfolding bag_run hands_off_live has
  added-Accounted a held [] live h = cc
  added-Accounted a held (bag_add d ∷ calls) live h = elim (Bool-cases (d == a)) [
    | inl e ↦
        let here = (add_disposer-Accounted a d held.0 held.1).1 in
        run-Accounted a (bag_step held (bag_add d)) calls live (
          subst (λ b. Accounted b (add_disposer call cell held.0 d).0 held.1)
            ((nat_eq.beq_iff d a).0 e) here)
    | inr e ↦ added-Accounted a (bag_step held (bag_add d)) calls live (ground (arith, h, e))
  ]
  added-Accounted a held (bag_hand_off ∷ calls) live h =
      added-Accounted a (bag_step held bag_hand_off) calls (ground (arith, live)) h
  added-Accounted a held (bag_drain reason ∷ calls) live h =
      added-Accounted a (bag_step held (bag_drain reason)) calls live h
  added-Accounted a held (bag_take reason ∷ calls) live h =
      added-Accounted a (bag_step held (bag_take reason)) calls live h
  added-Accounted a held (registry_drain fuel ∷ calls) live h =
      added-Accounted a (bag_step held (registry_drain fuel)) calls live h

  -- No disposer that is added to the bag of an operation is lost, whatever is called on the bag and in
  -- which order, with drains of the registry in between, if no bag is handed off into a registry that
  -- has been settled: it still waits in a bag that has neither settled nor been handed off, or in a
  -- registry that has not settled, or was given away with take, or has been invoked.
  pub make_operation_disposers-Accounted :
      (owned : Teardown) (calls : List BagCall) (a : Disposer)
      → hands_off_live (make_operation_disposers owned, []) calls ≡ true
      → has a (added calls) ≡ true
      → let (after, given) = bag_run (make_operation_disposers owned, []) calls in
        Accounted a after given
  make_operation_disposers-Accounted owned calls a live h =
      added-Accounted a (make_operation_disposers owned, []) calls live h
