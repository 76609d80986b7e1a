-- ===== src/Fiber/Slots.antt =====
-- kernel/fiber.c: the slots of fibers that have been used.
use aioperatingsystem.Common.{
  ℕ, zero, suc, ◌+◌, ◌<◌, ◌≡◌, refl, sym, ap, ◌∙◌, subst, List, [], ◌∷◌, Bool, true, false, ◌||◌,
  ◌==◌, leb, not, Option, none, some, if◌then◌else◌, inl, inr, arith,
}
use aioperatingsystem.Fiber.{
  fiber_max, FiberState, Fiber, Scheduler, initial_scheduler, put_fiber, put_saved, is_unused,
  is_ready, fiber_create, spawn_from, fiber_spawn, switch_to, fiber_resume, fiber_yield,
  trampoline_end,
}
use aioperatingsystem.Fiber.Nesting.{IsNested}
use aioperatingsystem.Fiber.Moves.{marked, end_lem}
use aioperatingsystem.Fiber.Runs.{Move, Run, spawn_cases, some_injective, Run-IsNested}

-- Slot `i` is taken.
abbrev pub IsUsed : (ℕ → Fiber) → ℕ → Type 0
IsUsed fibers i = is_unused (fibers i).state ≡ false

put-IsUsed :
    (fibers : ℕ → Fiber) (k : ℕ) (f : Fiber) (i : ℕ)
    → is_unused f.state ≡ false
    → IsUsed fibers i
    → IsUsed (put_fiber fibers k f) i
put-IsUsed fibers k f i h u = by_test (i == k)
  where
    by_test : (t : Bool) → is_unused (if t then f else fibers i).state ≡ false
    by_test true = h
    by_test false = u

switch-IsUsed :
    (s : Scheduler) (c : Option ℕ) (i : ℕ) → IsUsed s.fibers i → IsUsed (switch_to s c).fibers i
unfolding switch_to
switch-IsUsed s c i u = by_place (s.in_resume c)
  where
    by_place :
        (o : Option (Option ℕ))
        → IsUsed
            (elim o as (λ o. Scheduler) [
              | none ↦ record s { running = c }
              | some prev ↦ record s {
                running = c;
                in_resume = put_saved s.in_resume c none;
                current_fiber = prev;
              }
            ]).fibers
            i
    by_place none = u
    by_place (some prev) = u

resume-IsUsed :
    (s : Scheduler) (idx i : ℕ) → IsUsed s.fibers i → IsUsed (fiber_resume s idx).fibers i
unfolding fiber_resume
resume-IsUsed s idx i u = by_test (leb fiber_max idx || not (is_ready (s.fibers idx).state))
  where
    entered : Scheduler
    entered = record s {
      fibers =
          put_fiber s.fibers idx
            (record { state = FiberState.fiber_running; resumed_by = some s.current_fiber });
      in_resume = put_saved s.in_resume s.current_fiber (some s.current_fiber);
      current_fiber = some idx;
    }

    by_test : (t : Bool) → IsUsed (if t then s else switch_to entered (some idx)).fibers i
    by_test true = u
    by_test false = switch-IsUsed entered (some idx) i (put-IsUsed s.fibers idx _ i refl u)

yield-IsUsed : (s : Scheduler) (i : ℕ) → IsUsed s.fibers i → IsUsed (fiber_yield s).fibers i
unfolding fiber_yield
yield-IsUsed s i u = by_current s.current_fiber
  where
    left : ℕ → Scheduler
    left k = record s {
      fibers = put_fiber s.fibers k (record (s.fibers k) { state = FiberState.fiber_ready });
    }

    by_target :
        (k : ℕ) (o : Option (Option ℕ))
        → IsUsed
            (elim o as (λ o. Scheduler) [ none ↦ left k | some to ↦ switch_to (left k) to ]).fibers
            i
    by_target k none = put-IsUsed s.fibers k _ i refl u
    by_target k (some to) = switch-IsUsed (left k) to i (put-IsUsed s.fibers k _ i refl u)

    by_current :
        (c : Option ℕ)
        → IsUsed
            (elim c as (λ c. Scheduler) [
              | none ↦ s
              | some k ↦ elim (s.fibers k).resumed_by [
                | none ↦ left k
                | some to ↦ switch_to (left k) to
              ]
            ]).fibers
            i
    by_current none = u
    by_current (some k) = by_target k (s.fibers k).resumed_by

-- Marking the slot and taking it back at once.
end-IsUsed :
    (s : Scheduler) (k i : ℕ) (stack : List ℕ)
    → IsNested s stack
    → s.running ≡ some k
    → IsUsed s.fibers i
    → IsUsed (trampoline_end s k).fibers i
end-IsUsed s k i [] n e u = absurd (ground (arith, e, n.running))
end-IsUsed s k i (j ∷ stack) n e u =
    subst (λ (m : ℕ). IsUsed (trampoline_end s m).fibers i) (some_injective j k (sym n.running ∙ e))
      (subst (λ (t : Scheduler). IsUsed t.fibers i) (sym (end_lem s j stack n)) (by_slot (i == j)))
  where
    by_slot :
        (t : Bool)
        → is_unused
            (if t
              then record ((marked s j).fibers j) { state = FiberState.fiber_ready }
              else if t
              then record (s.fibers j) { state = FiberState.fiber_unused }
              else s.fibers i).state
          ≡ false
    by_slot true = refl
    by_slot false = u

Move-IsUsed :
    (s t : Scheduler) (stack : List ℕ) (i : ℕ)
    → Move s t
    → IsNested s stack
    → IsUsed s.fibers i
    → IsUsed t.fibers i
unfolding fiber_spawn fiber_create
Move-IsUsed s t stack i Move.spawn n u = elim (spawn_cases 8 0 s) [
  | inl e ↦ subst (λ (v : Scheduler). IsUsed v.fibers i) (sym e) u
  | inr (k, unused, e) ↦
      subst (λ (v : Scheduler). IsUsed v.fibers i) (sym e) (put-IsUsed s.fibers k _ i refl u)
]
Move-IsUsed s t stack i (Move.resume idx) n u = resume-IsUsed s idx i u
Move-IsUsed s t stack i Move.yield n u = yield-IsUsed s i u
Move-IsUsed s t stack i (Move.entry_returns k e) n u = end-IsUsed s k i stack n e u

Run-trans : (s t : Scheduler) → Run initial_scheduler s → Run s t → Run initial_scheduler t
Run-trans s t before Run.stay = before
Run-trans s t before (Run.after {t = u} more step) = Run.after (Run-trans s u before more) step

Run-IsUsed :
    (s t : Scheduler) (i : ℕ)
    → Run initial_scheduler s
    → Run s t
    → IsUsed s.fibers i
    → IsUsed t.fibers i
Run-IsUsed s t i before Run.stay u = u
Run-IsUsed s t i before (Run.after {t = v} more step) u =
    let r = Run-IsNested v (Run-trans s v before more) in
    Move-IsUsed v t r.0 i step r.1 (Run-IsUsed s v i before more u)

none_left :
    (n i : ℕ) (s : Scheduler)
    → ((k : ℕ) → k < i + n → IsUsed s.fibers k)
    → (spawn_from n i s).1 ≡ none
unfolding spawn_from
none_left zero i s u = refl
none_left (suc n) i s u =
    ap (λ t. (if t then (fiber_create s i, some i) else spawn_from n (i + 1) s).1)
      (u i (omega arith))
    ∙ none_left n (i + 1) s (λ k h. u k (omega arith))

-- Once all eight slots have been taken, whatever calls follow, fibers that end included, every later spawn
-- fails: a slot is marked unused only until the yield that follows, and that makes it ready.
pub fiber_spawn-exhausted :
    (s t : Scheduler)
    → Run initial_scheduler s
    → ((i : ℕ) → i < 8 → IsUsed s.fibers i)
    → Run s t
    → (fiber_spawn t).1 ≡ none
unfolding fiber_spawn
fiber_spawn-exhausted s t before all_used later =
    none_left 8 0 t (λ i h. Run-IsUsed s t i before later (all_used i (omega arith)))
