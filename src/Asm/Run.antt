-- ===== src/Asm/Run.antt =====
-- kernel/asm.c: running an assembled program. The trampoline and the program are a function on the state,
-- which system calls of the program change.
use aioperatingsystem.Common.{ℕ, ◌-◌, ◌^◌, List, Bool, true, false, ltb, if◌then◌else◌, length}
use aioperatingsystem.Asm.Encode.{code_buf_size}

pub record RunState : Type 0 where
  pub exec_buf : List ℕ
  pub program_running : Bool
  pub program_crashed : Bool
  pub last_exit_code : ℕ

-- What the trampoline comes back with.
unfoldable pub run_program :
    (trampoline : RunState → RunState) → RunState → (code : List ℕ) → RunState
run_program trampoline s code =
    let after = trampoline (record s {
      exec_buf = code;
      last_exit_code = 0;
      program_crashed = false;
      program_running = true;
    }) in
    record after { program_running = false }

unfoldable pub asm_run :
    (trampoline : RunState → RunState) → RunState → (code : List ℕ) → RunState × ℕ
asm_run trampoline s code =
    let after = run_program trampoline s code in
    if ltb code_buf_size (length code)
    then (s, 2 ^ 64 - 1)
    else if after.program_crashed
    then (after, 2 ^ 64 - 1)
    else (after, after.last_exit_code)
