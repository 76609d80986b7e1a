-- ===== src/Fiber/Tests.antt =====
-- A fiber that resumes another, and eight fibers that fill the table.
use aioperatingsystem.Common.{
  ℕ, ◌≡◌, ◌<◌, ◌≢◌, refl, List, none, some, Bool, false, true, arith, all_below, all_below-get, not,
}
use aioperatingsystem.Fiber.{
  FiberState, Scheduler, initial_scheduler, is_unused, fiber_create, spawn_from, fiber_spawn,
  switch_to, fiber_resume, fiber_yield, trampoline_end,
}
use aioperatingsystem.Fiber.Nesting.{IsNested}
use aioperatingsystem.Fiber.Runs.{Move, Run, Run-IsNested, some_injective}
use aioperatingsystem.Fiber.Returns.{Inner, fiber_yield-fiber_resume}
use aioperatingsystem.Fiber.Slots.{IsUsed, fiber_spawn-exhausted}

abbrev two : Scheduler
two = (fiber_spawn (fiber_spawn initial_scheduler).0).0

abbrev nested : Scheduler
nested = fiber_resume (fiber_resume two 0) 1

two_steps : Run initial_scheduler two
two_steps = Run.after (Run.after Run.stay Move.spawn) Move.spawn

nested_steps : Run initial_scheduler nested
nested_steps = Run.after (Run.after two_steps (Move.resume 0)) (Move.resume 1)

-- Fiber 1 was resumed by fiber 0, and both are marked running.
both_running :
    ((nested.fibers 0).state ≡ FiberState.fiber_running)
    × ((nested.fibers 1).state ≡ FiberState.fiber_running)
    × (nested.running ≡ some 1)
    × ((fiber_yield nested).running ≡ some 0)
unfolding fiber_spawn spawn_from fiber_create fiber_resume switch_to fiber_yield
both_running = (refl, refl, refl, refl)

Run-IsNested_example : (stack : List ℕ) × IsNested nested stack
Run-IsNested_example = Run-IsNested nested nested_steps

two_ready : (two.fibers 1).state ≡ FiberState.fiber_ready
unfolding fiber_spawn spawn_from fiber_create
two_ready = refl

-- Fiber 1 is resumed, resumes fiber 0, which yields; then fiber 1 yields.
abbrev inner_done : Scheduler
inner_done = fiber_yield (fiber_resume (fiber_resume two 1) 0)

zero_runs : (fiber_resume (fiber_resume two 1) 0).running ≢ some 1
unfolding fiber_spawn spawn_from fiber_create fiber_resume switch_to
zero_runs e = absurd (omega (arith, some_injective 0 1 e))

one_runs : inner_done.running ≡ some 1
unfolding fiber_spawn spawn_from fiber_create fiber_resume switch_to fiber_yield
one_runs = refl

fiber_yield-fiber_resume_example :
    ((fiber_yield inner_done).running ≡ two.running)
    × ((fiber_yield inner_done).current_fiber ≡ two.current_fiber)
    × (((fiber_yield inner_done).fibers 1).state ≡ FiberState.fiber_ready)
fiber_yield-fiber_resume_example =
    fiber_yield-fiber_resume two inner_done 1 two_steps (omega arith) two_ready
      (Inner.yield (Inner.resume Inner.stay 0) zero_runs) one_runs

abbrev four : Scheduler
four = (fiber_spawn (fiber_spawn two).0).0

abbrev eight : Scheduler
eight = (fiber_spawn (fiber_spawn (fiber_spawn (fiber_spawn four).0).0).0).0

eight_steps : Run initial_scheduler eight
eight_steps =
    Run.after
      (Run.after
        (Run.after (Run.after (Run.after (Run.after two_steps Move.spawn) Move.spawn) Move.spawn)
          Move.spawn)
        Move.spawn)
      Move.spawn

abbrev used_in_eight : ℕ → Bool
used_in_eight k = not (is_unused (eight.fibers k).state)

all_eight : all_below used_in_eight 8 ≡ true
unfolding fiber_spawn spawn_from fiber_create
all_eight = refl

eight-IsUsed : (i : ℕ) → i < 8 → IsUsed eight.fibers i
eight-IsUsed i h =
    not_true (is_unused (eight.fibers i).state) (all_below-get used_in_eight 8 all_eight i h)
  where
    not_true : (b : Bool) → not b ≡ true → b ≡ false
    not_true true e = absurd (ground (arith, e))
    not_true false e = refl

-- The first fiber runs and its entry function returns.
abbrev one_ended : Scheduler
one_ended = trampoline_end (fiber_resume eight 0) 0

first_runs : (fiber_resume eight 0).running ≡ some 0
unfolding fiber_spawn spawn_from fiber_create fiber_resume switch_to
first_runs = refl

one_ended_steps : Run eight one_ended
one_ended_steps = Run.after (Run.after Run.stay (Move.resume 0)) (Move.entry_returns 0 first_runs)

fiber_spawn-exhausted_example : (fiber_spawn one_ended).1 ≡ none
fiber_spawn-exhausted_example =
    fiber_spawn-exhausted eight one_ended eight_steps eight-IsUsed one_ended_steps
