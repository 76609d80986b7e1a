-- ===== src/Fiber/Moves.antt =====
-- kernel/fiber.c: what the calls do to the stack of contexts.
use aioperatingsystem.Common.{
  ℕ, ◌<◌, ◌≡◌, refl, sym, ap, ◌∙◌, subst, List, [], ◌∷◌, Bool, true, false, ◌||◌, ◌==◌, ==_iff, leb,
  not, Option, none, some, if◌then◌else◌, Bool-cases, inl, inr, arith,
}
use aioperatingsystem.Fiber.{
  fiber_max, FiberState, Fiber, Scheduler, same_context, put_fiber, put_saved, is_ready,
  fiber_create, switch_to, fiber_resume, fiber_yield, trampoline_end,
}
use aioperatingsystem.Fiber.Nesting.{
  is_in, top, Waits, IsNested, is_waiting, or_cases, or_false_left, or_false_right, both_ways,
  eq_in, waiting_ne, Waits-same, waiting_in,
}

put_fiber_self : (fs : ℕ → Fiber) (i : ℕ) (f : Fiber) → put_fiber fs i f i ≡ f
put_fiber_self fs i f = ap (λ t. if t then f else fs i) ((==_iff i i).1 refl)

put_fiber_ne : (fs : ℕ → Fiber) (i j : ℕ) (f : Fiber) → (j == i) ≡ false → put_fiber fs i f j ≡ fs j
put_fiber_ne fs i j f e = ap (λ t. if t then f else fs j) e

put_saved_ne :
    (m : Option ℕ → Option (Option ℕ)) (c d : Option ℕ) (v : Option (Option ℕ))
    → same_context d c ≡ false
    → put_saved m c v d ≡ m d
put_saved_ne m c d v e = ap (λ t. if t then v else m d) e

same_self : (c : Option ℕ) → same_context c c ≡ true
same_self none = refl
same_self (some k) = (==_iff k k).1 refl

put_saved_self :
    (m : Option ℕ → Option (Option ℕ)) (c : Option ℕ) (v : Option (Option ℕ))
    → put_saved m c v c ≡ v
put_saved_self m c v = ap (λ t. if t then v else m c) (same_self c)

-- Nothing waits at a context where nothing did, or where it is taken away.
put_none :
    (m : Option ℕ → Option (Option ℕ)) (c d : Option ℕ) → m d ≡ none → put_saved m c none d ≡ none
put_none m c d e = by_test (same_context d c)
  where
    by_test : (t : Bool) → (if t then none else m d) ≡ none
    by_test true = refl
    by_test false = e

ne_member :
    (j i : ℕ) (stack : List ℕ) → is_in i stack ≡ false → is_in j stack ≡ true → (j == i) ≡ false
ne_member j i stack out h = elim (Bool-cases (j == i)) [
  | inl e ↦ absurd (eq_in j i stack e out h)
  | inr e ↦ e
]

-- A fiber on the stack runs.
member_runs :
    (s : Scheduler) (j : ℕ) (stack : List ℕ)
    → Waits s stack
    → is_in j stack ≡ true
    → (s.fibers j).state ≡ FiberState.fiber_running
member_runs s j [] w h = absurd (both_ways false h refl)
member_runs s j (i ∷ stack) (out, run, by, wait, w) h = elim (or_cases (j == i) (is_in j stack) h) [
  | inl e ↦
      subst (λ (t : ℕ). (s.fibers t).state ≡ FiberState.fiber_running) (sym ((==_iff j i).0 e)) run
  | inr m ↦ member_runs s j stack w m
]

-- One that does not run is not on the stack.
absent :
    (s : Scheduler) (i : ℕ) (stack : List ℕ)
    → Waits s stack
    → ((s.fibers i).state ≡ FiberState.fiber_running → ⊥)
    → is_in i stack ≡ false
absent s i stack w h = elim (Bool-cases (is_in i stack)) [
  | inl m ↦ absurd (h (member_runs s i stack w m))
  | inr e ↦ e
]

below_top :
    (s : Scheduler) (c : Option ℕ) (stack : List ℕ)
    → Waits s stack
    → is_waiting c stack ≡ true
    → same_context c (top stack) ≡ false
below_top s c [] v h = absurd (both_ways false h refl)
below_top s c (k ∷ stack) (o, run, by, wait, rest) h = waiting_ne c k stack o h

not_top :
    (i : ℕ) (stack : List ℕ) → is_in i stack ≡ false → same_context (some i) (top stack) ≡ false
not_top i [] h = refl
not_top i (k ∷ stack) h = or_false_left (i == k) (is_in i stack) h

-- The state after a yield to a context that waits.
abbrev pub yielded : Scheduler → (i : ℕ) → (to : Option ℕ) → Scheduler
yielded s i to = record {
  fibers = put_fiber s.fibers i (record (s.fibers i) { state = FiberState.fiber_ready });
  current_fiber = to;
  running = to;
  in_resume = put_saved s.in_resume to none;
}

yield_lem :
    (s : Scheduler) (i : ℕ) (to : Option ℕ)
    → s.current_fiber ≡ some i
    → (s.fibers i).resumed_by ≡ some to
    → s.in_resume to ≡ some to
    → fiber_yield s ≡ yielded s i to
unfolding fiber_yield switch_to
yield_lem s i to cur by wait =
    let left = λ (k : ℕ). record s {
      fibers = put_fiber s.fibers k (record (s.fibers k) { state = FiberState.fiber_ready });
    } in
    ap
      (λ c. elim c [
        | none ↦ s
        | some k ↦ elim (s.fibers k).resumed_by [ none ↦ left k | some d ↦ switch_to (left k) d ]
      ])
      cur
    ∙ ap (λ r. elim r [ none ↦ left i | some d ↦ switch_to (left i) d ]) by
    ∙ ap
        (λ o. elim o [
          | none ↦ record (left i) { running = to }
          | some prev ↦ record (left i) {
            running = to;
            in_resume = put_saved s.in_resume to none;
            current_fiber = prev;
          }
        ])
        wait

-- The innermost fiber goes back to the context that resumed it.
leave_lem :
    (s : Scheduler) (i : ℕ) (stack : List ℕ)
    → is_in i stack ≡ false
    → s.in_resume (some i) ≡ none
    → Waits s stack
    → ((j : ℕ) → is_in j (i ∷ stack) ≡ false → (s.fibers j).state ≡ FiberState.fiber_running → ⊥)
    → ((j : ℕ) → is_in j (i ∷ stack) ≡ false → s.in_resume (some j) ≡ none)
    → IsNested (yielded s i (top stack)) stack
leave_lem s i stack out free w idle outside = record {
  current = refl;
  running = refl;
  free = put_saved_self s.in_resume (top stack) none;
  waits =
      Waits-same s (yielded s i (top stack)) stack
        (λ j h. put_fiber_ne s.fibers i j _ (ne_member j i stack out h))
        (λ c h. put_saved_ne s.in_resume (top stack) c none (below_top s c stack w h)) w;
  idle = λ j h r. elim (Bool-cases (j == i)) [
    | inl e ↦ ready_idle (ap (λ (t : Bool). (if t then ready_self else s.fibers j).state) e) r
    | inr e ↦
        idle j (or_both (j == i) (is_in j stack) e h)
          (ap (λ (f : Fiber). f.state) (sym (put_fiber_ne s.fibers i j ready_self e)) ∙ r)
  ];
  outside = λ j h. elim (Bool-cases (j == i)) [
    | inl e ↦
        put_none s.in_resume (top stack) (some j)
          (ap (λ (t : ℕ). s.in_resume (some t)) ((==_iff j i).0 e) ∙ free)
    | inr e ↦
        put_none s.in_resume (top stack) (some j) (outside j (or_both (j == i) (is_in j stack) e h))
  ];
}
  where
    ready_self : Fiber
    ready_self = record (s.fibers i) { state = FiberState.fiber_ready }

    or_both : (a b : Bool) → a ≡ false → b ≡ false → (a || b) ≡ false
    or_both a b p q = ground (arith, p, q)

    ready_idle : {x : FiberState} → x ≡ FiberState.fiber_ready → x ≡ FiberState.fiber_running → ⊥
    ready_idle p q = ground (arith, p, q)

-- A yield of the innermost fiber.
pub yield-IsNested :
    (s : Scheduler) (i : ℕ) (stack : List ℕ)
    → IsNested s (i ∷ stack)
    → IsNested (fiber_yield s) stack
yield-IsNested s i stack n =
    let w = n.waits in
    subst (λ (t : Scheduler). IsNested t stack) (sym (yield_lem s i (top stack) n.current w.2 w.3))
      (leave_lem s i stack w.0 n.free w.4 n.idle n.outside)

-- The state after a resume.
abbrev pub resumed : Scheduler → (idx : ℕ) → (from : Option ℕ) → Scheduler
resumed s idx from = record {
  fibers =
      put_fiber s.fibers idx (record { state = FiberState.fiber_running; resumed_by = some from });
  current_fiber = some idx;
  running = some idx;
  in_resume = put_saved s.in_resume from (some from);
}

resume_lem :
    (s : Scheduler) (idx : ℕ)
    → (leb fiber_max idx || not (is_ready (s.fibers idx).state)) ≡ false
    → same_context (some idx) s.current_fiber ≡ false
    → s.in_resume (some idx) ≡ none
    → fiber_resume s idx ≡ resumed s idx s.current_fiber
unfolding fiber_resume switch_to
resume_lem s idx ok other free =
    let entered : Scheduler = record (resumed s idx s.current_fiber) { running = s.running } in
    ap (λ t. if t then s else switch_to entered (some idx)) ok
    ∙ ap
        (λ o. elim o [
          | none ↦ record entered { running = some idx }
          | some prev ↦ record entered {
            running = some idx;
            in_resume = put_saved entered.in_resume (some idx) none;
            current_fiber = prev;
          }
        ])
        (put_saved_ne s.in_resume s.current_fiber (some idx) (some s.current_fiber) other ∙ free)

enter_lem :
    (s : Scheduler) (idx : ℕ) (stack : List ℕ)
    → IsNested s stack
    → is_in idx stack ≡ false
    → IsNested (resumed s idx (top stack)) (idx ∷ stack)
enter_lem s idx stack n out = record {
  current = refl;
  running = refl;
  free =
      put_saved_ne s.in_resume (top stack) (some idx) (some (top stack)) (not_top idx stack out)
      ∙ n.outside idx out;
  waits = (
    out,
    ap (λ (f : Fiber). f.state) (put_fiber_self s.fibers idx new),
    ap (λ (f : Fiber). f.resumed_by) (put_fiber_self s.fibers idx new),
    put_saved_self s.in_resume (top stack) (some (top stack)),
    Waits-same s (resumed s idx (top stack)) stack
        (λ j h. put_fiber_ne s.fibers idx j new (ne_member j idx stack out h))
        (λ c h.
          put_saved_ne s.in_resume (top stack) c (some (top stack)) (below_top s c stack n.waits h))
        n.waits,
  );
  idle = λ j h r. n.idle j (or_false_right (j == idx) (is_in j stack) h) (
      ap (λ (f : Fiber). f.state)
        (sym (put_fiber_ne s.fibers idx j new (or_false_left (j == idx) (is_in j stack) h)))
      ∙ r);
  outside = λ j h.
      put_saved_ne s.in_resume (top stack) (some j) (some (top stack))
        (not_top j stack (or_false_right (j == idx) (is_in j stack) h))
      ∙ n.outside j (or_false_right (j == idx) (is_in j stack) h);
}
  where
    new : Fiber
    new = record { state = FiberState.fiber_running; resumed_by = some (top stack) }

-- A resume of a fiber that is ready.
pub resume-IsNested :
    (s : Scheduler) (idx : ℕ) (stack : List ℕ)
    → IsNested s stack
    → idx < 8
    → (s.fibers idx).state ≡ FiberState.fiber_ready
    → IsNested (fiber_resume s idx) (idx ∷ stack)
resume-IsNested s idx stack n small ready =
    let out = absent s idx stack n.waits (λ r. ground (arith, ready, r)) in
    subst (λ (t : Scheduler). IsNested t (idx ∷ stack))
      (sym (
        resume_lem s idx (passes idx small (s.fibers idx).state ready)
          (ap (same_context (some idx)) n.current ∙ not_top idx stack out) (n.outside idx out)
        ∙ ap (resumed s idx) n.current))
      (enter_lem s idx stack n out)
  where
    passes :
        (k : ℕ)
        → k < 8
        → (x : FiberState) → x ≡ FiberState.fiber_ready
        → (leb fiber_max k || not (is_ready x)) ≡ false
    passes k h x e = ground (arith, e, h)

-- A slot that is made ready.
pub create-IsNested :
    (s : Scheduler) (k : ℕ) (stack : List ℕ)
    → IsNested s stack
    → (s.fibers k).state ≡ FiberState.fiber_unused
    → IsNested (fiber_create s k) stack
unfolding fiber_create
create-IsNested s k stack n unused =
    let out = absent s k stack n.waits (λ r. ground (arith, unused, r)) in
    let new : Fiber = record (s.fibers k) { state = FiberState.fiber_ready } in
    record {
      current = n.current;
      running = n.running;
      free = put_none s.in_resume (some k) (top stack) n.free;
      waits =
          Waits-same s (fiber_create s k) stack
            (λ j h. put_fiber_ne s.fibers k j new (ne_member j k stack out h))
            (λ c h. put_saved_ne s.in_resume (some k) c none (waiting_other c stack n.waits out h))
            n.waits;
      idle = λ j h r. elim (Bool-cases (j == k)) [
        | inl e ↦ ready_idle (ap (λ (t : Bool). (if t then new else s.fibers j).state) e) r
        | inr e ↦
            n.idle j h (ap (λ (f : Fiber). f.state) (sym (put_fiber_ne s.fibers k j new e)) ∙ r)
      ];
      outside = λ j h. put_none s.in_resume (some k) (some j) (n.outside j h);
    }
  where
    ready_idle : {x : FiberState} → x ≡ FiberState.fiber_ready → x ≡ FiberState.fiber_running → ⊥
    ready_idle p q = ground (arith, p, q)

    waiting_other :
        (c : Option ℕ) (st : List ℕ)
        → Waits s st
        → is_in k st ≡ false
        → is_waiting c st ≡ true
        → same_context c (some k) ≡ false
    waiting_other c [] w o h = absurd (both_ways false h refl)
    waiting_other none (i ∷ st) w o h = refl
    waiting_other (some j) (i ∷ st) w o h =
        ne_member j k st (or_false_right (k == i) (is_in k st) o) (waiting_in j i st h)

-- The slot of a fiber whose entry function has returned.
abbrev pub marked : Scheduler → (i : ℕ) → Scheduler
marked s i = record s {
  fibers = put_fiber s.fibers i (record (s.fibers i) { state = FiberState.fiber_unused });
}

pub end_lem :
    (s : Scheduler) (i : ℕ) (stack : List ℕ)
    → IsNested s (i ∷ stack)
    → trampoline_end s i ≡ yielded (marked s i) i (top stack)
unfolding trampoline_end
end_lem s i stack n =
    yield_lem (marked s i) i (top stack) n.current
      (ap (λ (f : Fiber). f.resumed_by) (put_fiber_self s.fibers i _) ∙ n.waits.2) n.waits.3

-- The end of a fiber: its slot is ready again after the yield.
pub end-IsNested :
    (s : Scheduler) (i : ℕ) (stack : List ℕ)
    → IsNested s (i ∷ stack)
    → IsNested (trampoline_end s i) stack
end-IsNested s i stack n =
    let w = n.waits in
    let s' = marked s i in
    subst (λ (t : Scheduler). IsNested t stack) (sym (end_lem s i stack n))
      (leave_lem s' i stack w.0 n.free
        (Waits-same s s' stack (λ j h. put_fiber_ne s.fibers i j _ (ne_member j i stack w.0 h))
          (λ c h. refl) w.4)
        (λ j h r. n.idle j h (
          ap (λ (f : Fiber). f.state)
            (sym (put_fiber_ne s.fibers i j _ (or_false_left (j == i) (is_in j stack) h)))
          ∙ r))
        n.outside)

-- The fiber that yields is ready again.
pub yield_ready :
    (s : Scheduler) (i : ℕ) (stack : List ℕ)
    → IsNested s (i ∷ stack)
    → ((fiber_yield s).fibers i).state ≡ FiberState.fiber_ready
yield_ready s i stack n =
    ap (λ (t : Scheduler). (t.fibers i).state)
      (yield_lem s i (top stack) n.current n.waits.2 n.waits.3)
    ∙ ap (λ (f : Fiber). f.state) (put_fiber_self s.fibers i _)
