-- ===== src/Fiber.antt =====
-- kernel/fiber.c: the fiber table and the switches between contexts. A context is `none` for the kernel's own
-- and `some i` for fiber `i`, and a pointer to one that may be NULL is an option of it. The machine code of
-- `fiber_switch` goes on where a context was left: in `fiber_resume`, which then puts back its local
-- `prev_fiber`, or in the fiber's own code. The stacks are what they are left in.
pub mod Nesting
pub mod Moves
pub mod Runs
pub mod Returns
pub mod Slots
mod Tests
use aioperatingsystem.Common.{
  ℕ, zero, suc, ◌+◌, Bool, true, false, ◌||◌, ◌==◌, ltb, leb, not, Option, none, some,
  if◌then◌else◌,
}

abbrev pub fiber_max : ℕ
fiber_max = 8

pub data FiberState : Type 0 where
  fiber_unused : FiberState
  fiber_ready : FiberState
  fiber_running : FiberState

-- `resumed_by` is NULL before the first resume.
pub record Fiber : Type 0 where
  pub state : FiberState
  pub resumed_by : Option (Option ℕ)

-- `running` is the context on the processor; `in_resume` holds the local of a context that waits in
-- `fiber_resume`.
pub record Scheduler : Type 0 where
  pub fibers : ℕ → Fiber
  pub current_fiber : Option ℕ
  pub running : Option ℕ
  pub in_resume : Option ℕ → Option (Option ℕ)

abbrev pub initial_scheduler : Scheduler
initial_scheduler = record {
  fibers = λ i. record { state = FiberState.fiber_unused; resumed_by = none };
  current_fiber = none;
  running = none;
  in_resume = λ c. none;
}

abbrev pub same_context : (a b : Option ℕ) → Bool
same_context none none = true
same_context none (some j) = false
same_context (some i) none = false
same_context (some i) (some j) = i == j

abbrev pub put_fiber : (ℕ → Fiber) → ℕ → Fiber → ℕ → Fiber
put_fiber fibers i f j = if j == i then f else fibers j

abbrev pub put_saved :
    (Option ℕ → Option (Option ℕ)) → Option ℕ → Option (Option ℕ) → Option ℕ → Option (Option ℕ)
put_saved saved c v d = if same_context d c then v else saved d

abbrev pub is_unused : FiberState → Bool
is_unused FiberState.fiber_unused = true
is_unused FiberState.fiber_ready = false
is_unused FiberState.fiber_running = false

abbrev pub is_ready : FiberState → Bool
is_ready FiberState.fiber_unused = false
is_ready FiberState.fiber_ready = true
is_ready FiberState.fiber_running = false

-- The fiber is ready, on a fresh stack.
unfoldable pub fiber_create : Scheduler → (idx : ℕ) → Scheduler
fiber_create s idx = record s {
  fibers = put_fiber s.fibers idx (record (s.fibers idx) { state = FiberState.fiber_ready });
  in_resume = put_saved s.in_resume (some idx) none;
}

-- The loop of `fiber_spawn` from slot `i` on, `n` slots; `none` is -1.
unfoldable pub spawn_from : (n i : ℕ) → Scheduler → Scheduler × Option ℕ
spawn_from zero i s = (s, none)
spawn_from (suc n) i s =
    let rest = spawn_from n (i + 1) s in
    if is_unused (s.fibers i).state then (fiber_create s i, some i) else rest

unfoldable pub fiber_spawn : Scheduler → Scheduler × Option ℕ
fiber_spawn s = spawn_from fiber_max 0 s

-- `fiber_switch` to a context, and what that context does before its own code goes on.
unfoldable pub switch_to : Scheduler → Option ℕ → Scheduler
switch_to s c = elim (s.in_resume c) [
  | none ↦ record s { running = c }
  | some prev_fiber ↦ record s {
    running = c;
    in_resume = put_saved s.in_resume c none;
    current_fiber = prev_fiber;
  }
]

-- A call by the running context, up to the switch.
unfoldable pub fiber_resume : Scheduler → (idx : ℕ) → Scheduler
fiber_resume s idx =
    let entered = record s {
      fibers =
          put_fiber s.fibers idx
            (record { state = FiberState.fiber_running; resumed_by = some s.current_fiber });
      in_resume = put_saved s.in_resume s.current_fiber (some s.current_fiber);
      current_fiber = some idx;
    } in
    if leb fiber_max idx || not (is_ready (s.fibers idx).state)
    then s
    else switch_to entered (some idx)

-- A switch to NULL is not modelled: nothing happens.
unfoldable pub fiber_yield : Scheduler → Scheduler
fiber_yield s = elim s.current_fiber [
  | none ↦ s
  | some i ↦
      let self = s.fibers i in
      let left = record s {
        fibers = put_fiber s.fibers i (record self { state = FiberState.fiber_ready });
      } in
      elim self.resumed_by [ none ↦ left | some to ↦ switch_to left to ]
]

-- The entry function of the running fiber returns: the slot is marked, and the first yield follows. Each
-- later turn of the fiber is a yield again.
unfoldable pub trampoline_end : Scheduler → (idx : ℕ) → Scheduler
trampoline_end s idx = fiber_yield (record s {
  fibers = put_fiber s.fibers idx (record (s.fibers idx) { state = FiberState.fiber_unused });
})

unfoldable pub fiber_is_running : Scheduler → Bool
fiber_is_running s = elim s.current_fiber [ none ↦ false | some i ↦ true ]
