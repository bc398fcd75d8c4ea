-- ===== src/Disposers/Registry.antt =====
-- The incarnation registry of packages/core/src/graph/lifecycle/disposers.ts. A disposer is a
-- function, which the program knows by its reference. The registry is a mutable object that an
-- operation bag and the ready data share; here it is a value that the holder's state carries.
use frond.Shared.{ℕ, Bool, List}

abbrev pub Disposer : Type 0
Disposer = ℕ

pub record DisposerRegistry : Type 0 where
  pub list : List Disposer
  pub invoked : List Disposer
  pub settled : Bool
