-- ===== src/Instr/Jumps.antt =====
-- The jumps of src/LinchpinST/src/lpst_run.c.
use linchpin.Base.{ℕ, Bool, not, ◌==◌, if◌then◌else◌}
use linchpin.Ram.{false_sentinel}
use linchpin.Exec.{ExecState, Env, pop, decode_jump_target}
use linchpin.Instr.{signed_less}

-- The tests of the jumps that take one operand.
pub data Condition : Type 0 where
  is_zero : Condition
  is_not_zero : Condition
  is_false : Condition
  is_not_false : Condition
  is_positive : Condition
  is_not_positive : Condition
  is_negative : Condition
  is_not_negative : Condition

unfoldable pub holds : Condition → ℕ → Bool
holds is_zero val = val == 0
holds is_not_zero val = not (val == 0)
holds is_false val = val == false_sentinel
holds is_not_false val = not (val == false_sentinel)
holds is_positive val = signed_less 0 val
holds is_not_positive val = not (signed_less 0 val)
holds is_negative val = signed_less val 0
holds is_not_negative val = not (signed_less val 0)

abbrev pub go_if : Bool → ExecState → ℕ → ExecState
go_if taken s target = if taken then record s { program_counter = target } else s

unfoldable pub jump : Env → ℕ → ExecState → ExecState
jump env instruction_start s =
    let (target, s1) = decode_jump_target env s instruction_start in
    record s1 { program_counter = target }

unfoldable pub jump_if : Env → ℕ → Condition → ExecState → ExecState
jump_if env instruction_start condition s =
    let (target, s1) = decode_jump_target env s instruction_start in
    let (val, s2) = pop s1 in go_if (holds condition val) s2 target

-- The tests of the jumps that compare the top with the word below it.
pub data Comparison : Type 0 where
  is_less : Comparison
  is_at_most : Comparison
  is_at_least : Comparison
  is_greater : Comparison
  is_equal : Comparison
  is_not_equal : Comparison

unfoldable pub compares : Comparison → (top below : ℕ) → Bool
compares is_less top below = signed_less top below
compares is_at_most top below = not (signed_less below top)
compares is_at_least top below = not (signed_less top below)
compares is_greater top below = signed_less below top
compares is_equal top below = below == top
compares is_not_equal top below = not (below == top)

unfoldable pub jump_comparing : Env → ℕ → Comparison → ExecState → ExecState
jump_comparing env instruction_start comparison s =
    let (target, s1) = decode_jump_target env s instruction_start in
    let (top, s2) = pop s1 in
    let (below, s3) = pop s2 in go_if (compares comparison top below) s3 target
