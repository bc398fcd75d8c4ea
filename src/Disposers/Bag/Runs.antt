-- ===== src/Disposers/Bag/Runs.antt =====
-- What the runs of packages/core/src/graph/lifecycle/disposers.ts keep of a registry.
use frond.Shared.{
  ℕ, zero, suc, ◌≡◌, refl, sym, ap, ◌∙◌, true, ◌||◌, ◌++◌, none, some, Option-cases, List, [], ◌∷◌,
  ◌==◌, beq_refl, nat_eq, has, has-append, if_both, Bool-cases, inl, inr, arith,
}
use frond.Disposers.Registry.{Disposer}
use frond.Disposers.Drain.{
  DisposerCall, DisposerFailed, DisposerCell, Teardown, append, called, run_disposer, run_each,
  run_disposers, reversed, drain, taken, settle,
}
use frond.Disposers.Drain.Once.{has-reversed}

-- The disposers in the registry stay there, those that have run stay known, and the registry is
-- settled as before.
pub record Keeps (a : Disposer) (s t : Teardown) : Type 0 where
  pub listed : has a s.registry.list ≡ true → has a t.registry.list ≡ true
  pub known : has a s.registry.invoked ≡ true → has a t.registry.invoked ≡ true
  pub same : t.registry.settled ≡ s.registry.settled

some-injective : {A : Type 0} {a b : A} → some a ≡ some b → a ≡ b
some-injective h = cc

module _ (call : Disposer → DisposerCall) (cell : DisposerCell) where
  pub run_disposer-Keeps :
      (a d : Disposer) (s : Teardown) → Keeps a s (run_disposer call cell s d).0
  unfolding run_disposer called append has
  run_disposer-Keeps a d s =
      if_both (λ (r : Teardown × List DisposerFailed). Keeps a s r.0) (has d s.registry.invoked) _ _
        (λ e. record { listed = λ h. h; known = λ h. h; same = refl })
        (λ e. record {
          listed = λ h. ground (arith, h, has-append a s.registry.list (call d).registers);
          known = λ h. ground (arith, h);
          same = refl;
        })

  pub run_disposer-known :
      (d : Disposer) (s : Teardown) → has d (run_disposer call cell s d).0.registry.invoked ≡ true
  unfolding run_disposer called append has
  run_disposer-known d s = ground (arith, beq_refl d)

  run_each-Keeps :
      (a : Disposer) (s : Teardown) (ds : List Disposer) → Keeps a s (run_each call cell s ds).0
  unfolding run_each
  run_each-Keeps a s [] = record { listed = λ h. h; known = λ h. h; same = refl }
  run_each-Keeps a s (d ∷ ds) =
      let first = run_disposer-Keeps a d s in
      let rest = run_each-Keeps a (run_disposer call cell s d).0 ds in
      record {
        listed = λ h. rest.listed (first.listed h);
        known = λ h. rest.known (first.known h);
        same = rest.same ∙ first.same;
      }

  run_each-known :
      (a : Disposer) (s : Teardown) (ds : List Disposer)
      → has a ds ≡ true
      → has a (run_each call cell s ds).0.registry.invoked ≡ true
  unfolding run_each has
  run_each-known a s [] h = cc
  run_each-known a s (d ∷ ds) h =
      let after = (run_disposer call cell s d).0 in
      elim (Bool-cases (d == a)) [
        | inl e ↦
            let here : has a after.registry.invoked ≡ true =
              ap (λ b. has b after.registry.invoked) (sym ((nat_eq.beq_iff d a).0 e))
              ∙ run_disposer-known d s in
            (run_each-Keeps a after ds).known here
        | inr e ↦ run_each-known a after ds (ground (arith, h, e))
      ]

  pub run_disposers-Keeps :
      (a : Disposer) (s : Teardown) (ds : List Disposer)
      → Keeps a s (run_disposers call cell s ds).0
  unfolding run_disposers
  run_disposers-Keeps a s ds = run_each-Keeps a s (reversed ds [])

  pub run_disposers-known :
      (a : Disposer) (s : Teardown) (ds : List Disposer)
      → has a ds ≡ true
      → has a (run_disposers call cell s ds).0.registry.invoked ≡ true
  unfolding run_disposers has
  run_disposers-known a s ds h =
      run_each-known a s (reversed ds []) (ground (arith, has-reversed a ds [], h))

  -- A drain that ends has run what the registry held.
  pub drain-known :
      (a : Disposer) (fuel : ℕ) (s : Teardown) (outcome : Teardown × List DisposerFailed)
      → drain call fuel cell s ≡ some outcome
      → (has a s.registry.list || has a s.registry.invoked) ≡ true
      → has a outcome.0.registry.invoked ≡ true
  unfolding drain has
  drain-known a zero s outcome e h = absurd (ground (arith, e))
  drain-known a (suc fuel) s outcome e h =
      by_list (λ mid last f held. drain-known a fuel mid last f held) s.registry.list refl
    where
      by_list :
          ((mid : Teardown) (last : Teardown × List DisposerFailed)
            → drain call fuel cell mid ≡ some last
            → (has a mid.registry.list || has a mid.registry.invoked) ≡ true
            → has a last.0.registry.invoked ≡ true)
          → (held : List Disposer) → s.registry.list ≡ held
          → has a outcome.0.registry.invoked ≡ true
      by_list rest [] l =
          let q : drain call (suc fuel) cell s ≡ some (settle call s, []) = ground (arith, l) in
          let same : settle call s ≡ outcome.0 = ap (λ r. r.0) (some-injective (sym q ∙ e)) in
          rw (← same) (ground (arith, h, l))
      by_list rest (d ∷ ds) l =
          let mid = run_disposers call cell (taken call s) (d ∷ ds) in
          elim (Option-cases (drain call fuel cell mid.0)) [
            | inl f ↦
                let q : drain call (suc fuel) cell s ≡ none = rw (l, drain) (rw (f) refl) in
                absurd (ground (arith, sym q ∙ e))
            | inr (last, f) ↦
                let q : drain call (suc fuel) cell s ≡ some (last.0, mid.1 ++ last.1) =
                  rw (l, drain) (rw (f) refl) in
                let same : last.0 ≡ outcome.0 = ap (λ r. r.0) (some-injective (sym q ∙ e)) in
                rw (← same) (
                  rest mid.0 last f (
                    ground (
                      arith,
                      h,
                      l,
                      run_disposers-known a (taken call s) (d ∷ ds),
                      (run_disposers-Keeps a (taken call s) (d ∷ ds)).known,
                    )))
          ]
