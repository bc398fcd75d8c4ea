-- ===== src/Disposers/Drain/Once.antt =====
-- The calls of a drain of packages/core/src/graph/lifecycle/disposers.ts.
use frond.Shared.{
  ℕ, zero, suc, ◌+◌, ◌≤◌, ◌<◌, ◌≡◌, refl, ◌⊎◌, inl, inr, true, false, ◌||◌, some, List, [], ◌∷◌,
  ◌++◌, arith, nat_eq, has, has-append, length, beq_refl, Bool-cases,
}
use frond.Shared.Distinct.{IsDistinct}
use frond.Shared.Seen.{unseen, unseen-le-length, unseen_lt}
use frond.Disposers.Registry.{Disposer}
use frond.Disposers.Drain.{
  DisposerCall, DisposerFailed, DisposerCell, Teardown, reversed, called, run_disposer, run_each,
  run_disposers, taken, settle, drain, append,
}

-- No disposer has been called twice, and each that has been called is known to have been.
pub record IsOnce (s : Teardown) : Type 0 where
  pub distinct : IsDistinct s.calls
  pub known : (a : Disposer) → has a s.calls ≡ true → has a s.registry.invoked ≡ true

-- What a part of the drain does to the calls.
record Runs (s t : Teardown) : Type 0 where
  mono : (a : Disposer) → has a s.registry.invoked ≡ true → has a t.registry.invoked ≡ true
  calls_mono : (a : Disposer) → has a s.calls ≡ true → has a t.calls ≡ true
  fresh :
      (a : Disposer)
      → has a t.registry.invoked ≡ true
      → (has a s.registry.invoked || has a t.calls) ≡ true
  once : IsOnce s → IsOnce t

Runs-refl : (s : Teardown) → Runs s s
Runs-refl s = record {
  mono = λ a h. h;
  calls_mono = λ a h. h;
  fresh = λ a h. ground arith;
  once = λ h. h;
}

Runs-trans : (s t u : Teardown) → Runs s t → Runs t u → Runs s u
Runs-trans s t u p q = record {
  mono = λ a h. q.mono a (p.mono a h);
  calls_mono = λ a h. q.calls_mono a (p.calls_mono a h);
  fresh = λ a h. ground (arith, q.fresh a h, p.fresh a, q.calls_mono a);
  once = λ h. q.once (p.once h);
}

-- Every disposer of the second list is in the first.
abbrev pub Within : List Disposer → List Disposer → Type 0
Within all ds = (a : Disposer) → has a ds ≡ true → has a all ≡ true

-- Either nothing was registered, or fewer disposers are left that have not been called.
abbrev Progress : List Disposer → Teardown → Teardown → Type 0
Progress all s t =
    ((t.registry.list ≡ s.registry.list)
      × (unseen t.registry.invoked all ≤ unseen s.registry.invoked all))
    ⊎ (unseen t.registry.invoked all < unseen s.registry.invoked all)

Progress-trans :
    (all : List Disposer) (s t u : Teardown)
    → Progress all s t
    → Progress all t u
    → Progress all s u
Progress-trans all s t u p q = ground (arith, p, q)

module _ (call : Disposer → DisposerCall) where
  called-Runs :
      (s : Teardown) (d : Disposer) → has d s.registry.invoked ≡ false → Runs s (called call s d)
  unfolding called append has
  called-Runs s d n = record {
    mono = λ a h. ground arith;
    calls_mono = λ a h. ground arith;
    fresh = λ a h. ground arith;
    once = λ h. record {
      distinct = (ground (arith, h.known d, n), h.distinct);
      known = λ a k. ground (arith, h.known a);
    };
  }

  run_disposer-Runs :
      (cell : DisposerCell) (s : Teardown) (d : Disposer)
      → Runs s (run_disposer call cell s d).0
        × (has d (run_disposer call cell s d).0.registry.invoked ≡ true)
  unfolding run_disposer has
  run_disposer-Runs cell s d = elim (Bool-cases (has d s.registry.invoked)) [
    | inl e ↦ rw (e, run_disposer) (Runs-refl s, e)
    | inr e ↦ rw (e, run_disposer) (called-Runs s d e, ground (arith, beq_refl d))
  ]

  run_each-Runs :
      (cell : DisposerCell) (s : Teardown) (ds : List Disposer)
      → Runs s (run_each call cell s ds).0
        × ((a : Disposer)
            → has a ds ≡ true
            → has a (run_each call cell s ds).0.registry.invoked ≡ true)
  unfolding run_each has
  run_each-Runs cell s [] = (Runs-refl s, λ a h. cc)
  run_each-Runs cell s (d ∷ ds) =
      let one = run_disposer-Runs cell s d in
      let others = run_each-Runs cell (run_disposer call cell s d).0 ds in
      (
        Runs-trans _ _ _ one.0 others.0,
        λ a h. ground (arith, h, others.1 a, others.0.mono d one.1, nat_eq.beq_iff d a),
      )

  module _ (all : List Disposer)
      (closed : (d : Disposer) → has d all ≡ true → Within all ((call d).registers)) where
    run_disposer-Within :
        (cell : DisposerCell) (s : Teardown) (d : Disposer)
        → has d all ≡ true
        → Within all s.registry.list
        → Within all (run_disposer call cell s d).0.registry.list
          × Progress all s (run_disposer call cell s d).0
    unfolding run_disposer called append
    run_disposer-Within cell s d m w = elim (Bool-cases (has d s.registry.invoked)) [
      | inl e ↦ rw (e, run_disposer) (w, inl (refl, omega arith))
      | inr e ↦
          rw (e, run_disposer)
            (
              λ a h.
                  ground (
                    arith,
                    h,
                    w a,
                    closed d m a,
                    has-append a s.registry.list ((call d).registers),
                  ),
              inr (unseen_lt d s.registry.invoked all m e),
            )
    ]

    run_each-Within :
        (cell : DisposerCell) (s : Teardown) (ds : List Disposer)
        → Within all ds
        → Within all s.registry.list
        → Within all (run_each call cell s ds).0.registry.list
          × Progress all s (run_each call cell s ds).0
    unfolding run_each has
    run_each-Within cell s [] m w = (w, inl (refl, omega arith))
    run_each-Within cell s (d ∷ ds) m w =
        let one = run_disposer-Within cell s d (m d (ground (arith, beq_refl d))) w in
        let others =
          run_each-Within cell (run_disposer call cell s d).0 ds (λ a h. m a (ground (arith, h)))
            one.0 in
        (
          others.0,
          Progress-trans all s (run_disposer call cell s d).0
              (run_each call cell (run_disposer call cell s d).0 ds).0 one.1 others.1,
        )

pub has-reversed :
    (a : Disposer) (ds done : List Disposer) → has a (reversed ds done) ≡ (has a ds || has a done)
unfolding has
has-reversed a [] done = refl
has-reversed a (d ∷ ds) done = ground (arith, has-reversed a ds (d ∷ done))

-- After a drain the registry is empty and settled, and every disposer that it held, or that was
-- known to have been called, has been called, each once.
pub record Drained (s t : Teardown) : Type 0 where
  pub emptied : t.registry.list ≡ []
  pub settled : t.registry.settled ≡ true
  pub once : IsOnce t
  pub ran :
      (a : Disposer)
      → has a s.registry.list ≡ true
      → (has a s.registry.invoked || has a t.calls) ≡ true

module _ (call : Disposer → DisposerCall) (cell : DisposerCell) (all : List Disposer)
    (closed : (d : Disposer) → has d all ≡ true → Within all ((call d).registers)) where
  IsOnce-taken : (s : Teardown) → IsOnce s → IsOnce (taken call s)
  IsOnce-taken s o = record { distinct = o.distinct; known = o.known }

  Runs-taken : (s t : Teardown) → Runs (taken call s) t → Runs s t
  Runs-taken s t r = record {
    mono = r.mono;
    calls_mono = r.calls_mono;
    fresh = r.fresh;
    once = λ o. r.once (IsOnce-taken s o);
  }

  Runs-settle : (s : Teardown) → Runs s (settle call s)
  Runs-settle s = record {
    mono = λ a h. h;
    calls_mono = λ a h. h;
    fresh = λ a h. ground arith;
    once = λ o. record { distinct = o.distinct; known = o.known };
  }

  drain_lem :
      (fuel : ℕ) (s : Teardown) (list : List Disposer)
      → s.registry.list ≡ list
      → Within all list
      → IsOnce s
      → ((list ≡ []) × (0 < fuel)) ⊎ (unseen s.registry.invoked all + 1 < fuel)
      → (t : Teardown) × (failures : List DisposerFailed) × (drain call fuel cell s
          ≡ some (t, failures))
        × (t.registry.list ≡ [])
        × (t.registry.settled ≡ true)
        × Runs s t
        × ((a : Disposer) → has a list ≡ true → has a t.registry.invoked ≡ true)
  unfolding drain has
  drain_lem zero s list e w o f = absurd (ground (arith, f))
  drain_lem (suc fuel) s [] e w o f =
      (settle call s, [], ground (arith, e), e, refl, Runs-settle s, λ a h. ground (arith, h))
  drain_lem (suc fuel) s (d ∷ ds) e w o f =
      let batch = reversed (d ∷ ds) [] in
      let runs = run_each-Runs call cell (taken call s) batch in
      let kept =
        run_each-Within call all closed cell (taken call s) batch
          (λ a h. w a (ground (arith, h, has-reversed a (d ∷ ds) []))) (λ a h. ground (arith, h)) in
      let after = (run_disposers call cell (taken call s) (d ∷ ds)).0 in
      let (t, others, found, emptied, settled, rest, ran) =
        drain_lem fuel after after.registry.list refl kept.0 (runs.0.once (IsOnce-taken s o))
          (ground (arith, f, kept.1)) in
      (
        t,
        (run_disposers call cell (taken call s) (d ∷ ds)).1 ++ others,
        rw (e, drain, found) refl,
        emptied,
        settled,
        Runs-taken s t (Runs-trans (taken call s) after t runs.0 rest),
        λ a h. rest.mono a (runs.1 a (ground (arith, h, has-reversed a (d ∷ ds) []))),
      )

  -- A drain ends, if the disposers that it holds, and those that they register in turn, are all from
  -- a finite list: two rounds more than that list is long are enough. It leaves the registry empty
  -- and settled, every disposer that it held has been called, unless it was known to have been, and
  -- none is called twice, however often it was registered, unless one already had been.
  pub drain_exact :
      (s : Teardown)
      → Within all s.registry.list
      → IsOnce s
      → (t : Teardown) × (failures : List DisposerFailed) × (drain call (length all + 2) cell s
          ≡ some (t, failures))
        × Drained s t
  drain_exact s w o =
      let (t, failures, found, emptied, settled, runs, ran) =
        drain_lem (length all + 2) s s.registry.list refl w o
          (inr (omega (arith, unseen-le-length s.registry.invoked all))) in
      (
        t,
        failures,
        found,
        record {
          emptied = emptied;
          settled = settled;
          once = runs.once o;
          ran = λ a h. runs.fresh a (ran a h);
        },
      )
