-- ===== src/Fiber/Returns.antt =====
-- kernel/fiber.c: a fiber that yields goes back to the context that resumed it, whatever ran in between.
use aioperatingsystem.Common.{
  ℕ, ◌<◌, ◌≡◌, ◌≢◌, refl, sym, ap, ◌∙◌, subst, List, [], ◌∷◌, ◌++◌, Bool, true, false, ◌||◌, ◌==◌,
  ==_iff, some, inl, inr,
}
use aioperatingsystem.Fiber.{
  FiberState, Scheduler, initial_scheduler, fiber_spawn, fiber_resume, fiber_yield, trampoline_end,
}
use aioperatingsystem.Fiber.Nesting.{is_in, IsNested, or_right, both_ways}
use aioperatingsystem.Fiber.Moves.{yield-IsNested, resume-IsNested, yield_ready}
use aioperatingsystem.Fiber.Runs.{
  Run, Run-IsNested, some_injective, spawn-IsNested, resume_any, entry_returns-IsNested,
}

-- Calls in any order after `s`, none of them a yield of fiber `idx` or the return of its entry function:
-- it and the fibers that it resumes may spawn, resume, and these may yield and end.
pub data Inner (idx : ℕ) (s : Scheduler) : Scheduler → Type 0 where
  stay : Inner idx s s
  spawn : {t : Scheduler} → Inner idx s t → Inner idx s (fiber_spawn t).0
  resume : {t : Scheduler} → Inner idx s t → (i : ℕ) → Inner idx s (fiber_resume t i)
  yield : {t : Scheduler} → Inner idx s t → t.running ≢ some idx → Inner idx s (fiber_yield t)
  entry_returns :
      {t : Scheduler}
      → Inner idx s t
      → (i : ℕ) → t.running ≡ some i
      → i ≢ idx
      → Inner idx s (trampoline_end t i)

-- The fiber stays on the stack, with what was below it.
Inner-IsNested :
    (idx : ℕ) (s : Scheduler) (stack : List ℕ)
    → IsNested s (idx ∷ stack)
    → (t : Scheduler) → Inner idx s t
    → (above : List ℕ) × IsNested t (above ++ (idx ∷ stack))
Inner-IsNested idx s stack n t Inner.stay = ([], n)
Inner-IsNested idx s stack n t (Inner.spawn {t = u} before) =
    let (above, m) = Inner-IsNested idx s stack n u before in
    (above, spawn-IsNested u (above ++ (idx ∷ stack)) m)
Inner-IsNested idx s stack n t (Inner.resume {t = u} before i) =
    let (above, m) = Inner-IsNested idx s stack n u before in
    elim (resume_any u i (above ++ (idx ∷ stack)) m) [
      | inl same ↦ (above, same)
      | inr inner ↦ (i ∷ above, inner)
    ]
Inner-IsNested idx s stack n t (Inner.yield {t = u} before other) =
    let (above, m) = Inner-IsNested idx s stack n u before in by_top above m
  where
    by_top :
        (above : List ℕ)
        → IsNested u (above ++ (idx ∷ stack))
        → (above' : List ℕ) × IsNested (fiber_yield u) (above' ++ (idx ∷ stack))
    by_top [] m = absurd (other m.running)
    by_top (j ∷ above) m = (above, yield-IsNested u j (above ++ (idx ∷ stack)) m)
Inner-IsNested idx s stack n t (Inner.entry_returns {t = u} before i e other) =
    let (above, m) = Inner-IsNested idx s stack n u before in by_top above m
  where
    by_top :
        (above : List ℕ)
        → IsNested u (above ++ (idx ∷ stack))
        → (above' : List ℕ) × IsNested (trampoline_end u i) (above' ++ (idx ∷ stack))
    by_top [] m = absurd (other (some_injective i idx (sym e ∙ m.running)))
    by_top (j ∷ above) m = (above, entry_returns-IsNested u j i (above ++ (idx ∷ stack)) e m)

in_below : (idx : ℕ) (above stack : List ℕ) → is_in idx (above ++ (idx ∷ stack)) ≡ true
in_below idx [] stack = ap (λ (t : Bool). t || is_in idx stack) ((==_iff idx idx).1 refl)
in_below idx (j ∷ above) stack =
    or_right (idx == j) (is_in idx (above ++ (idx ∷ stack))) (in_below idx above stack)

-- When the fiber runs, the fibers that it resumed have left the stack.
runs_itself :
    (t : Scheduler) (idx : ℕ) (stack above : List ℕ)
    → IsNested t (above ++ (idx ∷ stack))
    → t.running ≡ some idx
    → IsNested t (idx ∷ stack)
runs_itself t idx stack [] m e = m
runs_itself t idx stack (j ∷ above) m e = absurd (
    both_ways (is_in idx (above ++ (idx ∷ stack))) (in_below idx above stack) (
      subst (λ (k : ℕ). is_in k (above ++ (idx ∷ stack)) ≡ false)
        (some_injective j idx (sym m.running ∙ e)) m.waits.0))

-- After any calls in any order, let a ready fiber be resumed, and let any calls follow that are not a
-- yield or the end of this fiber: it and the fibers that it resumes may spawn and resume, and those may
-- yield and end. When the fiber runs and yields then, control comes back to the context that resumed it:
-- the processor and `current_fiber` are as before the resume, and the fiber is ready again.
pub fiber_yield-fiber_resume :
    (s t : Scheduler) (idx : ℕ)
    → Run initial_scheduler s
    → idx < 8
    → (s.fibers idx).state ≡ FiberState.fiber_ready
    → Inner idx (fiber_resume s idx) t
    → t.running ≡ some idx
    → let u = fiber_yield t in
      (u.running ≡ s.running)
      × (u.current_fiber ≡ s.current_fiber)
      × ((u.fibers idx).state ≡ FiberState.fiber_ready)
fiber_yield-fiber_resume s t idx steps small ready calls turn =
    let r = Run-IsNested s steps in
    let entered = resume-IsNested s idx r.0 r.1 small ready in
    let inner = Inner-IsNested idx (fiber_resume s idx) r.0 entered t calls in
    let here = runs_itself t idx r.0 inner.0 inner.1 turn in
    let back = yield-IsNested t idx r.0 here in
    (back.running ∙ sym r.1.running, back.current ∙ sym r.1.current, yield_ready t idx r.0 here)
