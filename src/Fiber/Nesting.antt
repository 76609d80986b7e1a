-- ===== src/Fiber/Nesting.antt =====
-- kernel/fiber.c: the contexts that wait for each other, as a stack.
use aioperatingsystem.Common.{
  ℕ, ◌≡◌, refl, ap, ◌∙◌, List, [], ◌∷◌, Bool, true, false, ◌||◌, ◌==◌, ==_iff, Option, none, some,
  Bool-cases, ◌⊎◌, inl, inr, arith,
}
use aioperatingsystem.Fiber.{FiberState, Fiber, Scheduler, same_context}

abbrev pub is_in : ℕ → List ℕ → Bool
is_in i [] = false
is_in i (j ∷ stack) = (i == j) || is_in i stack

-- The context of the innermost fiber.
abbrev pub top : List ℕ → Option ℕ
top [] = none
top (i ∷ stack) = some i

-- Each fiber was resumed by the context behind it, which waits in `fiber_resume` to be current again.
abbrev pub Waits : Scheduler → List ℕ → Type 0
Waits s [] = Unit
Waits s (i ∷ stack) =
    (is_in i stack ≡ false)
    × ((s.fibers i).state ≡ FiberState.fiber_running)
    × ((s.fibers i).resumed_by ≡ some (top stack))
    × (s.in_resume (top stack) ≡ some (top stack))
    × Waits s stack

-- The stack of the fibers that run or wait.
pub record IsNested (s : Scheduler) (stack : List ℕ) : Type 0 where
  pub current : s.current_fiber ≡ top stack
  pub running : s.running ≡ top stack
  pub free : s.in_resume (top stack) ≡ none
  pub waits : Waits s stack
  pub idle : (i : ℕ) → is_in i stack ≡ false → (s.fibers i).state ≡ FiberState.fiber_running → ⊥
  pub outside : (i : ℕ) → is_in i stack ≡ false → s.in_resume (some i) ≡ none

-- The contexts that wait.
abbrev pub is_waiting : Option ℕ → List ℕ → Bool
is_waiting c [] = false
is_waiting c (i ∷ stack) = same_context c (top stack) || is_waiting c stack

pub or_cases : (a b : Bool) → (a || b) ≡ true → (a ≡ true) ⊎ (b ≡ true)
or_cases true b h = inl refl
or_cases false b h = inr h

pub or_right : (a b : Bool) → b ≡ true → (a || b) ≡ true
or_right true b h = refl
or_right false b h = h

pub or_false_left : (a b : Bool) → (a || b) ≡ false → a ≡ false
or_false_left a b h = ground arith

pub or_false_right : (a b : Bool) → (a || b) ≡ false → b ≡ false
or_false_right a b h = ground arith

pub both_ways : (b : Bool) → b ≡ true → b ≡ false → ⊥
both_ways b p q = ground (arith, p, q)

pub waiting_in :
    (j i : ℕ) (stack : List ℕ) → is_waiting (some j) (i ∷ stack) ≡ true → is_in j stack ≡ true
waiting_in j i [] h = cc
waiting_in j i (k ∷ stack) h = elim (or_cases (j == k) (is_waiting (some j) (k ∷ stack)) h) [
  | inl e ↦ ap (λ t. t || is_in j stack) e
  | inr w ↦ or_right (j == k) (is_in j stack) (waiting_in j k stack w)
]

pub eq_in :
    (j i : ℕ) (stack : List ℕ) → (j == i) ≡ true → is_in i stack ≡ false → is_in j stack ≡ true → ⊥
eq_in j i stack e out h =
    both_ways (is_in j stack) h (ap (λ (t : ℕ). is_in t stack) ((==_iff j i).0 e) ∙ out)

-- A context that waits is not the innermost.
pub waiting_ne :
    (c : Option ℕ) (i : ℕ) (stack : List ℕ)
    → is_in i stack ≡ false
    → is_waiting c (i ∷ stack) ≡ true
    → same_context c (some i) ≡ false
waiting_ne none i stack out h = refl
waiting_ne (some j) i stack out h = elim (Bool-cases (j == i)) [
  | inl e ↦ absurd (eq_in j i stack e out (waiting_in j i stack h))
  | inr e ↦ e
]

-- What the stack depends on.
pub Waits-same :
    (s s' : Scheduler) (stack : List ℕ)
    → ((j : ℕ) → is_in j stack ≡ true → s'.fibers j ≡ s.fibers j)
    → ((c : Option ℕ) → is_waiting c stack ≡ true → s'.in_resume c ≡ s.in_resume c)
    → Waits s stack
    → Waits s' stack
Waits-same s s' [] f g w = tt
Waits-same s s' (i ∷ stack) f g (out, run, by, wait, w) =
    let here : s'.fibers i ≡ s.fibers i =
      f i (ap (λ t. t || is_in i stack) ((==_iff i i).1 refl)) in
    (
      out,
      ap (λ (r : Fiber). r.state) here ∙ run,
      ap (λ (r : Fiber). r.resumed_by) here ∙ by,
      g (top stack) (ap (λ t. t || is_waiting (top stack) stack) (same_refl (top stack))) ∙ wait,
      Waits-same s s' stack (λ j h. f j (or_right (j == i) (is_in j stack) h))
          (λ c h. g c (or_right (same_context c (top stack)) (is_waiting c stack) h)) w,
    )
  where
    same_refl : (c : Option ℕ) → same_context c c ≡ true
    same_refl none = refl
    same_refl (some k) = (==_iff k k).1 refl
