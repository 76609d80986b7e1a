-- ===== src/Fiber/Runs.antt =====
-- kernel/fiber.c: every order of spawns, resumes, yields and ends.
use aioperatingsystem.Common.{
  ℕ, zero, suc, ◌+◌, ◌<◌, ◌≡◌, refl, sym, ◌∙◌, subst, List, [], ◌∷◌, Bool, true, false, ◌||◌, leb,
  not, not_leb, none, some, if◌then◌else◌, ◌⊎◌, inl, inr, arith,
}
use aioperatingsystem.Fiber.{
  FiberState, Scheduler, initial_scheduler, is_unused, is_ready, fiber_create, spawn_from,
  fiber_spawn, fiber_resume, fiber_yield, trampoline_end,
}
use aioperatingsystem.Fiber.Nesting.{IsNested}
use aioperatingsystem.Fiber.Moves.{yield-IsNested, resume-IsNested, create-IsNested, end-IsNested}

-- A call that the running context makes; only a fiber's entry function can return to the trampoline.
pub data Move (s : Scheduler) : Scheduler → Type 0 where
  spawn : Move s (fiber_spawn s).0
  resume : (idx : ℕ) → Move s (fiber_resume s idx)
  yield : Move s (fiber_yield s)
  entry_returns : (i : ℕ) → s.running ≡ some i → Move s (trampoline_end s i)

pub data Run (s : Scheduler) : Scheduler → Type 0 where
  stay : Run s s
  after : {t u : Scheduler} → Run s t → Move t u → Run s u

-- A spawn takes an unused slot, or changes nothing.
pub spawn_cases :
    (n i : ℕ) (s : Scheduler)
    → ((spawn_from n i s).0 ≡ s)
      ⊎ ((k : ℕ) × ((s.fibers k).state ≡ FiberState.fiber_unused)
          × ((spawn_from n i s).0 ≡ fiber_create s k))
unfolding spawn_from
spawn_cases zero i s = inl refl
spawn_cases (suc n) i s = by_state (s.fibers i).state refl (spawn_cases n (i + 1) s)
  where
    by_state :
        (x : FiberState)
        → (s.fibers i).state ≡ x
        → ((spawn_from n (i + 1) s).0 ≡ s)
          ⊎ ((k : ℕ) × ((s.fibers k).state ≡ FiberState.fiber_unused)
              × ((spawn_from n (i + 1) s).0 ≡ fiber_create s k))
        → ((if is_unused x then (fiber_create s i, some i) else spawn_from n (i + 1) s).0 ≡ s)
          ⊎ ((k : ℕ) × ((s.fibers k).state ≡ FiberState.fiber_unused)
              × ((if is_unused x then (fiber_create s i, some i) else spawn_from n (i + 1) s).0
                  ≡ fiber_create s k))
    by_state FiberState.fiber_unused e r = inr (i, e, refl)
    by_state FiberState.fiber_ready e r = r
    by_state FiberState.fiber_running e r = r

-- A resume of a fiber that is not ready, or of a number that is none, changes nothing.
resume_cases :
    (s : Scheduler) (idx : ℕ)
    → (fiber_resume s idx ≡ s) ⊎ ((idx < 8) × ((s.fibers idx).state ≡ FiberState.fiber_ready))
unfolding fiber_resume
resume_cases s idx = by_bound (leb 8 idx) _ refl
  where
    by_state :
        (x : FiberState) (t : Scheduler)
        → (s.fibers idx).state ≡ x
        → idx < 8
        → ((if not (is_ready x) then s else t) ≡ s)
          ⊎ ((idx < 8) × ((s.fibers idx).state ≡ FiberState.fiber_ready))
    by_state FiberState.fiber_unused t e h = inl refl
    by_state FiberState.fiber_ready t e h = inr (h, e)
    by_state FiberState.fiber_running t e h = inl refl

    by_bound :
        (b : Bool) (t : Scheduler)
        → leb 8 idx ≡ b
        → ((if b || not (is_ready (s.fibers idx).state) then s else t) ≡ s)
          ⊎ ((idx < 8) × ((s.fibers idx).state ≡ FiberState.fiber_ready))
    by_bound true t e = inl refl
    by_bound false t e = by_state (s.fibers idx).state t refl (not_leb 8 idx e)

pub some_injective : (a b : ℕ) → some a ≡ some b → a ≡ b
some_injective a b h = cc

-- The stack after a step.
yield_outside : (s : Scheduler) → s.current_fiber ≡ none → fiber_yield s ≡ s
unfolding fiber_yield
yield_outside s e = ground (arith, e)

yield_any :
    (s : Scheduler) (stack : List ℕ)
    → IsNested s stack
    → (stack' : List ℕ) × IsNested (fiber_yield s) stack'
yield_any s [] n =
    ([], subst (λ (t : Scheduler). IsNested t []) (sym (yield_outside s n.current)) n)
yield_any s (i ∷ stack) n = (stack, yield-IsNested s i stack n)

pub spawn-IsNested :
    (s : Scheduler) (stack : List ℕ) → IsNested s stack → IsNested (fiber_spawn s).0 stack
unfolding fiber_spawn
spawn-IsNested s stack n = elim (spawn_cases 8 0 s) [
  | inl e ↦ subst (λ (u : Scheduler). IsNested u stack) (sym e) n
  | inr (k, unused, e) ↦
      subst (λ (u : Scheduler). IsNested u stack) (sym e) (create-IsNested s k stack n unused)
]

-- A resume changes nothing, or puts a fiber on the stack.
pub resume_any :
    (s : Scheduler) (idx : ℕ) (stack : List ℕ)
    → IsNested s stack
    → IsNested (fiber_resume s idx) stack ⊎ IsNested (fiber_resume s idx) (idx ∷ stack)
resume_any s idx stack n = elim (resume_cases s idx) [
  | inl e ↦ inl (subst (λ (u : Scheduler). IsNested u stack) (sym e) n)
  | inr (small, ready) ↦ inr (resume-IsNested s idx stack n small ready)
]

-- The innermost fiber's entry function returns.
pub entry_returns-IsNested :
    (s : Scheduler) (k i : ℕ) (stack : List ℕ)
    → s.running ≡ some i
    → IsNested s (k ∷ stack)
    → IsNested (trampoline_end s i) stack
entry_returns-IsNested s k i stack e n =
    subst (λ (j : ℕ). IsNested (trampoline_end s j) stack) (some_injective k i (sym n.running ∙ e))
      (end-IsNested s k stack n)

next_stack :
    (s t : Scheduler)
    → Move s t
    → (stack : List ℕ) → IsNested s stack
    → (stack' : List ℕ) × IsNested t stack'
next_stack s t Move.spawn stack n = (stack, spawn-IsNested s stack n)
next_stack s t (Move.resume idx) stack n = elim (resume_any s idx stack n) [
  | inl same ↦ (stack, same)
  | inr inner ↦ (idx ∷ stack, inner)
]
next_stack s t Move.yield stack n = yield_any s stack n
next_stack s t (Move.entry_returns i e) [] n = absurd (ground (arith, e, n.running))
next_stack s t (Move.entry_returns i e) (k ∷ stack) n =
    (stack, entry_returns-IsNested s k i stack e n)

initial-IsNested : IsNested initial_scheduler []
initial-IsNested = record {
  current = refl;
  running = refl;
  free = refl;
  waits = tt;
  idle = λ i h r. ground (arith, r);
  outside = λ i h. refl;
}

-- After any calls in any order, the contexts form a stack: the processor runs the context that
-- `current_fiber` names, the innermost; each fiber on the stack is marked running, has been resumed by the
-- one behind it, and that one waits in `fiber_resume` to be current again; no fiber is on the stack twice,
-- and none elsewhere is marked running or waits.
pub Run-IsNested : (s : Scheduler) → Run initial_scheduler s → (stack : List ℕ) × IsNested s stack
Run-IsNested s Run.stay = ([], initial-IsNested)
Run-IsNested s (Run.after {t} before step) =
    let r = Run-IsNested t before in next_stack t s step r.0 r.1
