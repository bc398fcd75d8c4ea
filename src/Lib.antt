-- ===== src/Lib.antt =====
-- Frond is a runtime for graphs of nodes. A node has a spec, args and dependencies; a driver that
-- its author writes acquires it, refreshes it and releases it. The graph keeps one cell for each
-- node and plans, evicts and projects them. A devtools package sends the runtime's events to a hub.
--
-- What is modelled, by file (paths from the root of the repository):
--
-- - Types: packages/core/src/graph/types, the data types that the parts share. What the code holds
--   as `unknown` is a `Value`, an object or function its reference.
-- - Validity: packages/core/src/graph/resultValidity/index.ts. Policy is
--   normalizeResultValidityPolicy, Effective effectiveResultValidity, Commit commitResultState and
--   commitDriverOperationResult with the checks of what a driver returns. A throw is the error case
--   of `Result`. Times are whole milliseconds.
-- - Cell: packages/core/src/graph/cell. Phase, Demand and Projection are cellPhase.ts, Transitions
--   is cellTransitions.ts with cellState.ts. Steps lists the writes to a cell as a relation: every
--   transition, with identifiers drawn from the cell's counters as readiness/readinessAttempt.ts
--   and operations/operationState.ts draw them, in any order, late ones included.
-- - Planning: packages/core/src/graph/planning. Descriptor is descriptor.ts, Overrides is
--   specOverrides.ts.
-- - Eviction: packages/core/src/graph/lifecycle. Closure, Order and Evict are eviction.ts, with
--   releaseCell of cleanup.ts and the seeding of a new cell's revision by planning/plan.ts.
-- - Disposers: lifecycle/disposers.ts, with Bag, which is operationDisposers.ts. Registry is what the
--   ready data of a cell carries, Drain the teardown drain, the single runs and the detached run of
--   a late disposer.
-- - Liveness: packages/core/src/graph/liveness/index.ts. Leases has the transitions of the leases
--   on a cell, Changes the test whether a demand changed, Delivery what a demand does to the live
--   resource of a ready cell. History says which calls of a driver's hooks belong together, and
--   Owned is about a delivery that keeps to it. Handlers puts them together: acquireNodeLiveLease,
--   rollbackNodeLiveLease and releaseNodeLiveLease, with their answers and notifications.
-- - Commands: packages/core/src/graph/system. Refresh is refreshAdmission.ts with
--   admissionRegistration.ts, as a state machine whose events are the calls of the controller and
--   the ends of a start and of a refresh.
-- - Keys: packages/core/src/keys. Value has the inputs and errors.ts, Encode is key.ts. A text is its
--   UTF-16 code units. Normal is the form behind a text, Print reads a text back.
-- - Runtime: packages/core/src/runtime. Limits is limits.ts, Events and Events/Notify are eventBus.ts,
--   Signals is signalBus.ts, Policies the policies of channels of options.ts. A call of the signal bus
--   returns what it emits on the event bus. Coordinator is packages/core/src/runtimeCoordinator.ts:
--   its chain of promises is a queue, and what the callers' promises do are events.
-- - Transition: packages/core/src/transition.ts, the loop over the steps and the single flight. A
--   call of runTransition comes back after its first step has run up to where it waits, so that a
--   call, that return and the end of a run are three events.
-- - Hub: apps/hub/src. Ring is retention.ts, Rate is rate.ts.
-- - Shared has the helpers, and Scenarios runs the theorems at concrete inputs.
--
-- Parameters stand for code that is not the repository's own: the decoding of durations of the
-- effect library, what a disposer does when it is called, the locale's comparison of texts, the
-- hooks of a live resource and the text that `JSON.stringify` gives of a demand, in an eviction
-- what the author's code does to a cell when its submissions are interrupted and its ready data is
-- torn down, `JSON.stringify` on a text and on a number in a key, what observers, sinks and
-- subscribers raise and in which order the sinks, which run at once, are done, and how createLease,
-- a lease's dispose and the steps of a transition end.
--
-- Loops run on fuel where they are not structural. The closure of an eviction is given one round
-- for each root and each edge and one more, since an entry of its queue is a root or the source of
-- an edge, once; the depth of a node one for each edge and two more, since each node is entered
-- once; a chain of overrides one for each entry and one more, the binary search one for each record
-- and one more, and a drain two more than there are disposers. An emit of the event bus nests at most
-- four notifications, since a failure of an observer on a failure of a sink is told to no one. The
-- chain of the coordinator takes at most three events for each transition.
--
-- Not modelled: the scheduling and the interruption of operations by the effect library, drivers,
-- the runtime's client and host, the bindings to MobX and React, diagnostics, the encoders of
-- the devtools and the server and interface of the hub.
pub mod Cell
pub mod Commands
pub mod Disposers
pub mod Eviction
pub mod Hub
pub mod Keys
pub mod Liveness
pub mod Planning
pub mod Runtime
pub mod Scenarios
pub mod Shared
pub mod Transition
pub mod Types
pub mod Validity
