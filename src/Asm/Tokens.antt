-- ===== src/Asm/Tokens.antt =====
-- kernel/asm.c: the words of one line. A label that does not fit `arg1` runs on into `arg2`, where it is
-- read as one string; that of more than 63 characters is taken whole here.
use aioperatingsystem.Common.{
  ℕ, List, [], ◌∷◌, Option, none, some, true, false, ◌==◌, ◌||◌, ◌-◌, if◌then◌else◌, get_or, take,
  length, codes,
}
use aioperatingsystem.Asm.{local_strncpy, trim, split_at}

pub record LineTokens : Type 0 where
  pub op : List ℕ
  pub arg1 : List ℕ
  pub arg2 : List ℕ
  pub arg_count : ℕ

-- The text before a `;` or a `#`.
unfoldable pub strip_comment : List ℕ → List ℕ
strip_comment [] = []
strip_comment (c ∷ s) = elim ((c == b';') || (c == b'#')) [
  | true ↦ []
  | false ↦ c ∷ strip_comment s
]

-- The arguments, after the first space.
unfoldable pub tokenize_rest : (op : List ℕ) → Option (List ℕ) → LineTokens
tokenize_rest op none = record { op = op; arg1 = []; arg2 = []; arg_count = 0 }
tokenize_rest op (some raw) = elim (trim raw) [
  | [] ↦ record { op = op; arg1 = []; arg2 = []; arg_count = 0 }
  | c ∷ s ↦
      let parts = split_at b',' (c ∷ s) in
      let arg1 = trim (local_strncpy parts.0 31) in
      elim parts.1 [
        | none ↦ record { op = op; arg1 = arg1; arg2 = []; arg_count = 1 }
        | some after ↦ record {
          op = op;
          arg1 = arg1;
          arg2 = local_strncpy (trim after) 31;
          arg_count = 2;
        }
      ]
]

-- The text is trimmed and not empty: its first character is no space.
unfoldable pub tokenize_text : List ℕ → LineTokens
tokenize_text buf =
    let len = length buf in
    let words = split_at b' ' buf in
    if get_or buf (len - 1) 0 == b':'
    then record { op = codes ":"; arg1 = take (len - 1) buf; arg2 = []; arg_count = 1 }
    else tokenize_rest (local_strncpy words.0 15) words.1

unfoldable pub tokenize_line : List ℕ → Option LineTokens
tokenize_line line = elim (trim (strip_comment (local_strncpy line 95))) [
  | [] ↦ none
  | c ∷ s ↦ some (tokenize_text (c ∷ s))
]
