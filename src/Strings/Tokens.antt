-- ===== src/Strings/Tokens.antt =====
-- kernel/string.c: calls of `strtok_simple` one after the other are the fields that are not empty.
use aioperatingsystem.Common.{
  ℕ, zero, suc, ◌≤◌, ◌≡◌, refl, ap, sym, subst, ◌∙◌, List, [], ◌∷◌, Option, none, some, true, false,
  arith, length, ◌==◌, if◌then◌else◌, Bool-cases, inl, inr,
}
use aioperatingsystem.Strings.{skip_delims, token_end, token_of, strtok_simple}

-- The first field has one byte more.
abbrev pub longer : ℕ → List (List ℕ) → List (List ℕ)
longer c [] = (c ∷ []) ∷ []
longer c (f ∷ fs) = (c ∷ f) ∷ fs

-- What stands between the delimiters.
unfoldable pub fields : (delim : ℕ) → List ℕ → List (List ℕ)
fields delim [] = [] ∷ []
fields delim (c ∷ s) = let rest = fields delim s in if c == delim then [] ∷ rest else longer c rest

abbrev pub not_empty : List (List ℕ) → List (List ℕ)
not_empty [] = []
not_empty ([] ∷ fs) = not_empty fs
not_empty ((c ∷ f) ∷ fs) = (c ∷ f) ∷ not_empty fs

abbrev pub add_token : Option (List ℕ) → List (List ℕ) → List (List ℕ)
add_token none rest = []
add_token (some t) rest = t ∷ rest

-- A call with the text, then calls with a null pointer, until one returns it; at most `fuel` calls.
pub tokens : (fuel delim : ℕ) → Option (List ℕ) → List (List ℕ)
tokens zero delim start = []
tokens (suc fuel) delim start =
    let r = strtok_simple start delim in add_token r.0 (tokens fuel delim r.1)

-- What a saved pointer leaves to be split, and how many calls that takes at most.
abbrev pub fields_of : (delim : ℕ) → Option (List ℕ) → List (List ℕ)
fields_of delim none = []
fields_of delim (some s) = fields delim s

abbrev pub calls : Option (List ℕ) → ℕ
calls none = 0
calls (some s) = suc (length s)

token_end_lem :
    (delim : ℕ) (s : List ℕ)
    → (fields delim s ≡ (token_end delim s).0 ∷ fields_of delim (token_end delim s).1)
      × (calls (token_end delim s).1 ≤ length s)
unfolding fields token_end
token_end_lem delim [] = (refl, omega arith)
token_end_lem delim (c ∷ s) = elim (Bool-cases (c == delim)) [
  | inl at ↦ rw at (refl, omega arith)
  | inr before ↦
      let rest = token_end_lem delim s in rw before (ap (longer c) rest.0, omega (arith, rest.1))
]

abbrev NoDelim : (delim : ℕ) → List ℕ → Type 0
NoDelim delim [] = Unit {0}
NoDelim delim (c ∷ s) = (c == delim) ≡ false

skip_at :
    (delim c : ℕ) (s : List ℕ)
    → (c == delim) ≡ true
    → (skip_delims delim (c ∷ s) ≡ skip_delims delim s)
      × (fields delim (c ∷ s) ≡ [] ∷ fields delim s)
unfolding fields skip_delims
skip_at delim c s at = rw at (refl, refl)

skip_before :
    (delim c : ℕ) (s : List ℕ)
    → (c == delim) ≡ false
    → (skip_delims delim (c ∷ s) ≡ c ∷ s)
      × (token_end delim (c ∷ s) ≡ (c ∷ (token_end delim s).0, (token_end delim s).1))
unfolding skip_delims token_end
skip_before delim c s before = rw before (refl, refl)

abbrev Skipped : (delim : ℕ) → List ℕ → List ℕ → Type 0
Skipped delim s u =
    (not_empty (fields delim u) ≡ not_empty (fields delim s))
    × (length u ≤ length s)
    × NoDelim delim u

skip_delims_lem : (delim : ℕ) (s : List ℕ) → Skipped delim s (skip_delims delim s)
skip_delims_lem delim [] = unfold skip_delims in (refl, omega arith, tt)
skip_delims_lem delim (c ∷ s) = elim (Bool-cases (c == delim)) [
  | inl at ↦
      let rest = skip_delims_lem delim s in
      subst (Skipped delim (c ∷ s)) (sym (skip_at delim c s at).0)
        (rest.0 ∙ ap not_empty (sym (skip_at delim c s at).1), omega (arith, rest.1), rest.2)
  | inr before ↦
      subst (Skipped delim (c ∷ s)) (sym (skip_before delim c s before).0)
        (refl, omega arith, before)
]

-- For every text and every delimiter, the tokens that `strtok_simple` returns, called until it returns
-- null, are the fields between the delimiters that are not empty, in order, and as many calls as the text
-- has bytes and one more are enough.
pub tokens_lem :
    (n delim : ℕ) (start : Option (List ℕ))
    → calls start ≤ n
    → tokens n delim start ≡ not_empty (fields_of delim start)
unfolding tokens strtok_simple
tokens_lem zero delim none h = refl
tokens_lem zero delim (some s) h = absurd (omega (arith, h))
tokens_lem (suc n) delim none h = refl
tokens_lem (suc n) delim (some s) h =
    let (same, shorter, no_delim) = skip_delims_lem delim s in
    from_token n delim (skip_delims delim s) no_delim
      (λ o le. tokens_lem n delim o (omega (arith, h, le, shorter)))
    ∙ same
  where
    from_token :
        (n delim : ℕ) (u : List ℕ)
        → NoDelim delim u
        → ((o : Option (List ℕ))
            → calls o ≤ length u
            → tokens n delim o ≡ not_empty (fields_of delim o))
        → add_token (token_of delim u).0 (tokens n delim (token_of delim u).1)
          ≡ not_empty (fields delim u)
    from_token n delim [] no_delim rest = unfold fields in refl
    from_token n delim (c ∷ u) no_delim rest =
        let r = token_end delim u in
        let here = rest r.1 (omega (arith, (token_end_lem delim u).1)) in
        subst
          (λ (t : List ℕ × Option (List ℕ)).
            t.0 ∷ tokens n delim t.1 ≡ not_empty (t.0 ∷ fields_of delim t.1))
          (sym (skip_before delim c u no_delim).1)
          (ap (λ (ts : List (List ℕ)). (c ∷ r.0) ∷ ts) here)
        ∙ ap not_empty (sym (token_end_lem delim (c ∷ u)).0)
