-- ===== src/Watchdog/Monitor/Registry.antt =====
-- Who holds which context, while executions come and go and the monitor runs.
use ai_chatbot_platform.Prelude.{
  ◌≡◌, refl, ap, ℕ, ◌<◌, inl, inr, Option, none, some, [], String, arith, eq_iff, Dict, lookup, put,
  keys, Distinct, lookup-put, lookup-remove, Distinct-put, Distinct-remove, ◌↔◌, Option-cases,
}
use ai_chatbot_platform.Watchdog.{AgentExecutionContext}
use ai_chatbot_platform.Watchdog.Monitor.{
  WatchedExecution, AgentWatchdog, TaskState, Limits, write, register, attach_task, unregister,
  monitor_pass,
}
use ai_chatbot_platform.Watchdog.Monitor.Passes.{poll-executions, poll-fresh}

-- What can happen. Any code may write the contexts, and tasks end by themselves.
pub data Step : AgentWatchdog → AgentWatchdog → Type 0 where
  registers :
      {w : AgentWatchdog} (now : ℕ) (id : String) (l : Limits) → Step w (register now id l w).0
  attaches : {w : AgentWatchdog} (id : String) (task : ℕ) → Step w (attach_task id task w)
  unregisters : {w : AgentWatchdog} (id : String) → Step w (unregister id w).0
  passes : {w : AgentWatchdog} (now : ℕ) → Step w (monitor_pass now w)
  works :
      {w : AgentWatchdog} (a : ℕ) (c : AgentExecutionContext)
      → Step w (record w { contexts = write a c w.contexts })
  ends :
      {w : AgentWatchdog} (t : ℕ) (s : TaskState) → Step w (record w { tasks = write t s w.tasks })

pub data Reach : AgentWatchdog → AgentWatchdog → Type 0 where
  here : {w : AgentWatchdog} → Reach w w
  next : {w w' w'' : AgentWatchdog} → Reach w w' → Step w' w'' → Reach w w''

record IsOwned (w : AgentWatchdog) : Type 0 where
  distinct : Distinct (keys w.executions)
  below : (i : String) (x : WatchedExecution) → lookup i w.executions ≡ some x → x.ctx < w.fresh
  apart :
      (i j : String) (x y : WatchedExecution)
      → lookup i w.executions ≡ some x
      → lookup j w.executions ≡ some y
      → x.ctx ≡ y.ctx
      → i ≡ j

-- All that the ownership depends on.
IsOwned-same :
    (w v : AgentWatchdog) → v.executions ≡ w.executions → v.fresh ≡ w.fresh → IsOwned w → IsOwned v
IsOwned-same w v e f o = record {
  distinct = rw e o.distinct;
  below = rw (e, f) o.below;
  apart = rw e o.apart;
}

register-IsOwned :
    (now : ℕ) (id : String) (l : Limits) (w : AgentWatchdog)
    → IsOwned w
    → IsOwned (register now id l w).0
unfolding register
register-IsOwned now id l w o = record {
  distinct = Distinct-put id (record { ctx = w.fresh; task = none }) w.executions o.distinct;
  below = λ i x e. ground (
    arith,
    eq_iff id i,
    lookup-put id i (record { ctx = w.fresh; task = none }) w.executions,
    o.below i x,
  );
  apart = λ i j x y e f s.
      let new : WatchedExecution = record { ctx = w.fresh; task = none } in
      ground (
        arith,
        eq_iff id i,
        eq_iff id j,
        lookup-put id i new w.executions,
        lookup-put id j new w.executions,
        o.below i x,
        o.below j y,
        o.apart i j x y,
      );
}

-- Writing an entry with the same context.
rewritten-IsOwned :
    (id : String) (x : WatchedExecution) (t : Option ℕ) (w : AgentWatchdog)
    → lookup id w.executions ≡ some x
    → IsOwned w
    → IsOwned (record w { executions = put id (record x { task = t }) w.executions })
rewritten-IsOwned id x t w h o = record {
  distinct = Distinct-put id (record x { task = t }) w.executions o.distinct;
  below = λ i y e. ground (
    arith,
    eq_iff id i,
    lookup-put id i (record x { task = t }) w.executions,
    o.below i y,
    o.below id x,
  );
  apart = λ i j y z e f s. ground (
    arith,
    eq_iff id i,
    eq_iff id j,
    lookup-put id i (record x { task = t }) w.executions,
    lookup-put id j (record x { task = t }) w.executions,
    o.apart i j y z,
    o.apart id j x z,
    o.apart i id y x,
  );
}

unregister-IsOwned : (id : String) (w : AgentWatchdog) → IsOwned w → IsOwned (unregister id w).0
unfolding unregister
unregister-IsOwned id w o = record {
  distinct = Distinct-remove id w.executions o.distinct;
  below = λ i x e. ground (arith, lookup-remove id i w.executions o.distinct, o.below i x);
  apart = λ i j x y e f s. ground (
    arith,
    lookup-remove id i w.executions o.distinct,
    lookup-remove id j w.executions o.distinct,
    o.apart i j x y,
  );
}

attach_task-IsOwned :
    (id : String) (task : ℕ) (w : AgentWatchdog) → IsOwned w → IsOwned (attach_task id task w)
unfolding attach_task
attach_task-IsOwned id task w o = elim (Option-cases (lookup id w.executions)) [
  | inl e ↦ rw (attach_task, e) o
  | inr (x, e) ↦ rw (attach_task, e) (rewritten-IsOwned id x (some task) w e o)
]

lookup_empty : (i : String) (d : Dict WatchedExecution) → d ≡ [] → lookup i d ≡ none
unfolding lookup
lookup_empty i d e = rw e refl

empty-IsOwned : (w : AgentWatchdog) → w.executions ≡ [] → IsOwned w
unfolding lookup
empty-IsOwned w e = record {
  distinct = rw e tt;
  below = λ i x h. ground (arith, lookup_empty i w.executions e);
  apart = λ i j x y h k s. ground (arith, lookup_empty i w.executions e);
}

Step-IsOwned : {w w' : AgentWatchdog} → Step w w' → IsOwned w → IsOwned w'
unfolding monitor_pass
Step-IsOwned {w} (registers now id l) o = register-IsOwned now id l w o
Step-IsOwned {w} (attaches id task) o = attach_task-IsOwned id task w o
Step-IsOwned {w} (unregisters id) o = unregister-IsOwned id w o
Step-IsOwned {w} (passes now) o =
    IsOwned-same w (monitor_pass now w) (poll-executions now w.executions w)
      (poll-fresh now w.executions w) o
Step-IsOwned {w} (works a c) o = IsOwned-same w _ refl refl o
Step-IsOwned {w} (ends t s) o = IsOwned-same w _ refl refl o

Reach-IsOwned : {w w' : AgentWatchdog} → IsOwned w → Reach w w' → IsOwned w'
Reach-IsOwned o here = o
Reach-IsOwned o (next r s) = Step-IsOwned s (Reach-IsOwned o r)

-- In every sequence of registrations, attachments, removals, passes of the monitor, work on contexts and
-- ends of tasks, from a watchdog with no executions on, no two executions that are registered hold the
-- same context, and the context of the next registration is held by none of them.
pub Reach-apart :
    (w w' : AgentWatchdog)
    → w.executions ≡ []
    → Reach w w'
    → (i j : String) (x y : WatchedExecution) → lookup i w'.executions ≡ some x
    → lookup j w'.executions ≡ some y
    → (x.ctx < w'.fresh) × ((x.ctx ≡ y.ctx) ↔ (i ≡ j))
Reach-apart w w' none' r i j x y e f =
    let o = Reach-IsOwned (empty-IsOwned w none') r in
    (o.below i x e, (o.apart i j x y e f, λ s. ground (arith, ap (λ v. lookup v w'.executions) s)))
