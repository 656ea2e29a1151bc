-- ===== src/Instr/Bounded/Tables.antt =====
-- The bounds of the machine's arrays, kept by the opcode tables of src/LinchpinST/src/lpst_run.c and
-- lpst_run_dispatch.c.
use linchpin.Base.{ℕ, zero, suc, Option, List, [], ◌∷◌}
use linchpin.Base.Options.{Each, some-Each}
use linchpin.Instr.Order.{one_less}
use linchpin.Ram.{false_sentinel}
use linchpin.Exec.{ExecState, Env, fetch_byte}
use linchpin.Exec.Bounded.{IsBounded, push-IsBounded, pop-IsBounded, fetch_byte-IsBounded}
use linchpin.Exec.Bounded.Frames.{FitsImage, do_return-IsBounded}
use linchpin.Instr.{op_add, op_sub, op_mul, op_div, op_mod, op_and, op_or}
use linchpin.Instr.Jumps.{
  Condition, is_zero, is_not_zero, is_false, is_not_false, is_positive, is_not_positive,
  is_negative, is_not_negative, Comparison, is_less, is_at_most, is_at_least, is_greater, is_equal,
  is_not_equal,
}
use linchpin.Instr.Words.{shift_plain, shift_arithmetic}
use linchpin.Instr.Dispatch.{
  Instruction, Others, always, plain, constant, halting, instruction_at, tpop,
  extended_instructions, dispatch_extended, branch, compare_and_branch, data_instructions,
  control_instructions,
}
use linchpin.Instr.Bounded.{
  step_local-IsBounded, binary-IsBounded, negate-IsBounded, valloc-IsBounded, talloc-IsBounded,
  valloci-IsBounded, talloci-IsBounded, vfree-IsBounded,
}
use linchpin.Instr.Bounded.Vectors.{
  vloadw-IsBounded, vloadb-IsBounded, vputw-IsBounded, vputb-IsBounded, loadvb2-IsBounded,
  putvb2-IsBounded, vloadw_immediate-IsBounded, vloadb_immediate-IsBounded,
  vputw_immediate-IsBounded, vputb_immediate-IsBounded, jump-IsBounded, jump_if-IsBounded,
  jump_comparing-IsBounded, bitsvl-IsBounded, bitsv-IsBounded, bbsetvl-IsBounded, bbsetv-IsBounded,
  bsetvl-IsBounded, bsetv-IsBounded, vecsetw-IsBounded, vecsetb-IsBounded, veccpyw-IsBounded,
  veccpyb-IsBounded, strpos-IsBounded, memcmp-IsBounded, memcmpo-IsBounded, next_field-IsBounded,
  printable-IsBounded, unpack-IsBounded, stricmp-IsBounded, strcmp-IsBounded,
}
use linchpin.Instr.Bounded.Words.{
  shift-IsBounded, dup-IsBounded, drop-IsBounded, xor-IsBounded, complement-IsBounded,
  push_word-IsBounded, push_byte-IsBounded, inclv-IsBounded, putl-IsBounded, pushl-IsBounded,
  storel-IsBounded, loadg-IsBounded, putg-IsBounded, storeg-IsBounded, step_global-IsBounded,
}
use linchpin.Instr.Bounded.Control.{
  discard_results-IsBounded, return_popped-IsBounded, return_many-IsBounded, halt-IsBounded,
  next_page-IsBounded, longjmpr-IsBounded, longjmp-IsBounded, setjmp-IsBounded,
  discard_many-IsBounded, pinm-IsBounded, unpinm-IsBounded, call_near-IsBounded,
  call_near_popped-IsBounded, call_far-IsBounded, call_far_popped-IsBounded,
}

-- An instruction that keeps the bounds, and a table of them.
abbrev pub KeepsBounds : Instruction → Type 0
KeepsBounds i = (start : ℕ) (s : ExecState) → IsBounded s → Each IsBounded (i start s)

abbrev pub AllKeep : List Instruction → Type 0
AllKeep [] = Unit
AllKeep (x ∷ xs) = KeepsBounds x × AllKeep xs

always-KeepsBounds :
    (f : ExecState → ExecState)
    → ((s : ExecState) → IsBounded s → IsBounded (f s))
    → KeepsBounds (always f)
always-KeepsBounds f keeps start s b = some-Each (keeps s b)

constant-KeepsBounds : (value : ℕ) → KeepsBounds (constant value)
constant-KeepsBounds value start s b = some-Each (push-IsBounded s value b)

halting-KeepsBounds : KeepsBounds halting
halting-KeepsBounds start s b = some-Each b

pub instruction_at-KeepsBounds :
    (table : List Instruction) (i : ℕ) → AllKeep table → KeepsBounds (instruction_at table i)
instruction_at-KeepsBounds [] i all = halting-KeepsBounds
instruction_at-KeepsBounds (x ∷ xs) zero (keeps, all) = keeps
instruction_at-KeepsBounds (x ∷ xs) (suc i) (keeps, all) = instruction_at-KeepsBounds xs i all

-- The instructions that are not modelled, as far as they keep the bounds.
pub record OthersKeep (others : Others) : Type 0 where
  pub main : (opcode : ℕ) → KeepsBounds (others.main opcode)
  pub extended : (opcode : ℕ) → KeepsBounds (others.extended opcode)

-- A table's proof is written as the table is.
infixr 4 ◌&◌
◌&◌ : {P Q : Type 0} → P → Q → P × Q
p & q = (p, q)

some_of :
    {f : ExecState → Option ExecState}
    → ((s : ExecState) → IsBounded s → Each IsBounded (f s))
    → KeepsBounds (plain f)
some_of keeps start s b = keeps s b

tpop-IsBounded : (s : ExecState) → IsBounded s → IsBounded (tpop s)
tpop-IsBounded s b = pop-IsBounded s b

module _ (fuel : ℕ) (env : Env) (others : Others) (image : FitsImage env)
    (keep : OthersKeep others) where
  extended_instructions-AllKeep : AllKeep (extended_instructions fuel env others)
  unfolding extended_instructions
  extended_instructions-AllKeep =
      halting-KeepsBounds
      & always-KeepsBounds _ xor-IsBounded
      & always-KeepsBounds _ complement-IsBounded
      & halting-KeepsBounds
      & halting-KeepsBounds
      & some_of strpos-IsBounded
      & always-KeepsBounds _ (putg-IsBounded env)
      & halting-KeepsBounds
      & halting-KeepsBounds
      & some_of (longjmpr-IsBounded env)
      & some_of (longjmp-IsBounded env)
      & some_of (setjmp-IsBounded env)
      & keep.extended 0x0C
      & keep.extended 0x0D
      & keep.extended 0x0E
      & keep.extended 0x0F
      & keep.extended 0x10
      & keep.extended 0x11
      & keep.extended 0x12
      & keep.extended 0x13
      & keep.extended 0x14
      & keep.extended 0x15
      & always-KeepsBounds _ discard_results-IsBounded
      & keep.extended 0x17
      & keep.extended 0x18
      & keep.extended 0x19
      & keep.extended 0x1A
      & keep.extended 0x1B
      & always-KeepsBounds _ tpop-IsBounded
      & keep.extended 0x1D
      & keep.extended 0x1E
      & some_of (stricmp-IsBounded (λ h. h))
      & some_of (stricmp-IsBounded one_less)
      & keep.extended 0x21
      & keep.extended 0x22
      & some_of (strcmp-IsBounded fuel)
      & some_of memcmp-IsBounded
      & some_of memcmpo-IsBounded
      & some_of next_field-IsBounded
      & keep.extended 0x27
      & always-KeepsBounds _ (step_global-IsBounded env 65535)
      & always-KeepsBounds _ (discard_many-IsBounded env)
      & always-KeepsBounds _ (step_global-IsBounded env 1)
      & keep.extended 0x2B
      & keep.extended 0x2C
      & always-KeepsBounds _ (storeg-IsBounded env)
      & some_of (return_many-IsBounded env)
      & keep.extended 0x2F
      & some_of unpack-IsBounded
      & always-KeepsBounds _ (pinm-IsBounded env)
      & always-KeepsBounds _ (unpinm-IsBounded env)
      & always-KeepsBounds _ printable-IsBounded
      & keep.extended 0x34
      & keep.extended 0x35
      & keep.extended 0x36
      & keep.extended 0x37
      & tt

  dispatch_extended-KeepsBounds : KeepsBounds (dispatch_extended fuel env others)
  unfolding dispatch_extended
  dispatch_extended-KeepsBounds start s b =
      instruction_at-KeepsBounds (extended_instructions fuel env others) (fetch_byte env s).0
        extended_instructions-AllKeep start (fetch_byte env s).1 (fetch_byte-IsBounded env s b)

  branch-KeepsBounds : (c : Condition) → KeepsBounds (branch fuel env others c)
  branch-KeepsBounds c start s b = some-Each (jump_if-IsBounded env start c s b)

  compare-KeepsBounds : (c : Comparison) → KeepsBounds (compare_and_branch fuel env others c)
  compare-KeepsBounds c start s b = some-Each (jump_comparing-IsBounded env start c s b)

  pub data_instructions-AllKeep : AllKeep (data_instructions fuel env others)
  unfolding data_instructions
  data_instructions-AllKeep =
      halting-KeepsBounds
      & always-KeepsBounds _ (binary-IsBounded op_add)
      & always-KeepsBounds _ (binary-IsBounded op_sub)
      & always-KeepsBounds _ (binary-IsBounded op_mul)
      & always-KeepsBounds _ (binary-IsBounded op_div)
      & always-KeepsBounds _ (binary-IsBounded op_mod)
      & always-KeepsBounds _ negate-IsBounded
      & some_of (shift-IsBounded shift_arithmetic)
      & always-KeepsBounds _ (step_local-IsBounded env 1)
      & constant-KeepsBounds 8
      & constant-KeepsBounds 4
      & always-KeepsBounds _ (step_local-IsBounded env 65535)
      & constant-KeepsBounds 0xFFFF
      & constant-KeepsBounds 3
      & always-KeepsBounds _ (binary-IsBounded op_and)
      & always-KeepsBounds _ (binary-IsBounded op_or)
      & some_of (shift-IsBounded shift_plain)
      & some_of valloc-IsBounded
      & some_of valloci-IsBounded
      & always-KeepsBounds _ vfree-IsBounded
      & some_of talloc-IsBounded
      & some_of talloci-IsBounded
      & some_of vloadw-IsBounded
      & some_of vloadb-IsBounded
      & some_of (vloadw_immediate-IsBounded env)
      & some_of (vloadb_immediate-IsBounded env)
      & some_of vputw-IsBounded
      & some_of vputb-IsBounded
      & some_of (vputw_immediate-IsBounded env)
      & some_of (vputb_immediate-IsBounded env)
      & some_of vecsetw-IsBounded
      & some_of vecsetb-IsBounded
      & some_of veccpyw-IsBounded
      & some_of veccpyb-IsBounded
      & always-KeepsBounds _ (loadg-IsBounded env)
      & keep.main 0x23
      & constant-KeepsBounds 2
      & always-KeepsBounds _ (push_word-IsBounded env)
      & always-KeepsBounds _ (push_byte-IsBounded env)
      & constant-KeepsBounds false_sentinel
      & constant-KeepsBounds 0
      & always-KeepsBounds _ dup-IsBounded
      & constant-KeepsBounds 65528
      & constant-KeepsBounds 5
      & constant-KeepsBounds 1
      & keep.main 0x2D
      & constant-KeepsBounds 0xFF
      & always-KeepsBounds _ drop-IsBounded
      & tt

  pub control_instructions-AllKeep : AllKeep (control_instructions fuel env others)
  unfolding control_instructions
  control_instructions-AllKeep =
      (λ start s b. some-Each (jump-IsBounded env start s b))
      & branch-KeepsBounds is_zero
      & branch-KeepsBounds is_not_zero
      & branch-KeepsBounds is_false
      & branch-KeepsBounds is_not_false
      & branch-KeepsBounds is_positive
      & branch-KeepsBounds is_not_positive
      & branch-KeepsBounds is_negative
      & branch-KeepsBounds is_not_negative
      & compare-KeepsBounds is_less
      & compare-KeepsBounds is_at_most
      & compare-KeepsBounds is_at_least
      & compare-KeepsBounds is_greater
      & compare-KeepsBounds is_equal
      & compare-KeepsBounds is_not_equal
      & some_of (call_near-IsBounded env image fuel 0)
      & some_of (call_near-IsBounded env image fuel 1)
      & some_of (call_near-IsBounded env image fuel 2)
      & some_of (call_near-IsBounded env image fuel 3)
      & some_of (call_near_popped-IsBounded env image fuel)
      & always-KeepsBounds _ (call_far-IsBounded env image 0)
      & always-KeepsBounds _ (call_far-IsBounded env image 1)
      & always-KeepsBounds _ (call_far-IsBounded env image 2)
      & always-KeepsBounds _ (call_far-IsBounded env image 3)
      & always-KeepsBounds _ (call_far_popped-IsBounded env image)
      & always-KeepsBounds _ (return_popped-IsBounded env)
      & always-KeepsBounds _ (λ s. do_return-IsBounded env s (false_sentinel ∷ []))
      & always-KeepsBounds _ (λ s. do_return-IsBounded env s (0 ∷ []))
      & constant-KeepsBounds 6
      & always-KeepsBounds _ (halt-IsBounded env)
      & (λ start s b. some-Each (next_page-IsBounded env start s b))
      & constant-KeepsBounds 7
      & keep.main 0x50
      & some_of loadvb2-IsBounded
      & some_of putvb2-IsBounded
      & always-KeepsBounds _ (binary-IsBounded op_add)
      & always-KeepsBounds _ (inclv-IsBounded env)
      & always-KeepsBounds _ (λ s. do_return-IsBounded env s [])
      & always-KeepsBounds _ (putl-IsBounded env)
      & always-KeepsBounds _ (pushl-IsBounded env)
      & always-KeepsBounds _ (storel-IsBounded env)
      & some_of (bitsvl-IsBounded env)
      & some_of (bitsv-IsBounded env)
      & some_of (bbsetvl-IsBounded env)
      & some_of (bbsetv-IsBounded env)
      & some_of (bsetvl-IsBounded env)
      & some_of (bsetv-IsBounded env)
      & dispatch_extended-KeepsBounds
      & tt
