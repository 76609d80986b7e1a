-- ===== src/Strings/Tests.antt =====
-- Runs of the model of string.c, and each theorem at an input.
use aioperatingsystem.Common.{
  ℕ, zero, suc, ◌<◌, ◌+◌, ◌≡◌, ◌≢◌, refl, inl, List, [], ◌∷◌, some, arith, get_or,
}
use aioperatingsystem.Strings.{
  memcpy, copy_down, memmove, strcpy, strcmp, strtok_simple, skip_delims, token_end,
}
use aioperatingsystem.Strings.Copies.{IsTerminated, strcpy-memcpy}
use aioperatingsystem.Strings.Order.{Answers, strcmp_lem}
use aioperatingsystem.Strings.Tokens.{fields, not_empty, fields_of, tokens, tokens_lem}
use aioperatingsystem.Strings.Move.{IsCopied, memmove_lem}

abbrev store : List ℕ
store = 1 ∷ 2 ∷ 3 ∷ 4 ∷ 5 ∷ 6 ∷ 7 ∷ 8 ∷ []

moved_up : memmove store 2 0 5 ≡ 1 ∷ 2 ∷ 1 ∷ 2 ∷ 3 ∷ 4 ∷ 5 ∷ 8 ∷ []
unfolding memmove copy_down memcpy
moved_up = refl

memmove_lem_example : IsCopied store (memmove store 2 0 5) 2 0 5
memmove_lem_example = memmove_lem 5 2 0 store (omega arith) (omega arith)

-- A text of two bytes at 3.
abbrev text_store : List ℕ
text_store = 9 ∷ 9 ∷ 9 ∷ 65 ∷ 66 ∷ 0 ∷ []

text_store-IsTerminated : IsTerminated text_store 3 2
text_store-IsTerminated = record { going = λ i lt. going i lt; ends = refl }
  where
    going : (i : ℕ) → i < 2 → get_or text_store (3 + i) 0 ≢ 0
    going zero lt e = omega (arith, e)
    going (suc zero) lt e = omega (arith, e)
    going (suc (suc i)) lt e = absurd (omega (arith, lt))

strcpy-memcpy_example : strcpy 3 text_store 0 3 ≡ some (memcpy text_store 0 3 3)
strcpy-memcpy_example = strcpy-memcpy 2 text_store 0 3 text_store-IsTerminated (inl (omega arith))

strcmp_lem_example : Answers (strcmp (65 ∷ []) (65 ∷ 66 ∷ [])) (65 ∷ []) (65 ∷ 66 ∷ [])
strcmp_lem_example =
    strcmp_lem (65 ∷ []) (65 ∷ 66 ∷ []) ((λ e. omega (arith, e)), tt)
      ((λ e. omega (arith, e)), ((λ e. omega (arith, e)), tt))

-- Two blanks, a token, a blank, a token, a blank.
abbrev spaced : List ℕ
spaced = 32 ∷ 32 ∷ 65 ∷ 66 ∷ 32 ∷ 67 ∷ 32 ∷ []

first_token : strtok_simple (some spaced) 32 ≡ (some (65 ∷ 66 ∷ []), some (67 ∷ 32 ∷ []))
unfolding strtok_simple skip_delims token_end
first_token = refl

fields-spaced : not_empty (fields 32 spaced) ≡ (65 ∷ 66 ∷ []) ∷ (67 ∷ []) ∷ []
unfolding fields
fields-spaced = refl

tokens_lem_example : tokens 8 32 (some spaced) ≡ not_empty (fields_of 32 (some spaced))
tokens_lem_example = tokens_lem 8 32 (some spaced) (omega arith)
