-- ===== src/Instr/Dispatch.antt =====
-- The opcode switches: `lpst_run` of src/LinchpinST/src/lpst_run.c and `dispatch_extended` of
-- src/LinchpinST/src/lpst_run_dispatch.c. `none` is what C leaves undefined, or the end of the fuel
-- of a private header's or a sort key's loop. The instructions that reach the module globals, the host, the channels
-- or real numbers are a parameter.
use linchpin.Base.{ℕ, zero, suc, ◌-◌, ◌/◌, ◌%◌, Option, some, leb, if◌then◌else◌, List, [], ◌∷◌}
use linchpin.Ram.{false_sentinel}
use linchpin.Heap.{pop_tuple}
use linchpin.Exec.{ExecState, Env, halt_fatal, push, pop, fetch_byte}
use linchpin.Exec.Entry.{do_return}
use linchpin.Instr.{
  store_local_peek, store_local_pop, load_local, step_local, op_add, op_sub, op_mul, op_div, op_mod,
  op_and, op_or, binary, negate,
}
use linchpin.Instr.Vectors.{
  valloc, talloc, valloci, talloci, vfree, vloadw_local, vloadw, vloadb, vloadw_immediate,
  vloadb_immediate, vputw, vputb, vputw_immediate, vputb_immediate,
}
use linchpin.Instr.Jumps.{
  Condition, is_zero, is_not_zero, is_false, is_not_false, is_positive, is_not_positive,
  is_negative, is_not_negative, jump, jump_if, Comparison, is_less, is_at_most, is_at_least,
  is_greater, is_equal, is_not_equal, jump_comparing,
}
use linchpin.Instr.Words.{
  shift_plain, shift_arithmetic, shift, push_word, push_byte, dup, drop, inclv, putl, pushl, storel,
  loadg, putg, storeg, step_global, xor, complement,
}
use linchpin.Instr.Blocks.{vecsetw, vecsetb, veccpyw, veccpyb}
use linchpin.Instr.Control.{
  call_near, call_near_popped, call_far, call_far_popped, return_popped, return_many, halt,
  next_page, longjmpr, longjmp, setjmp, discard_results, discard_many, pinm, unpinm,
}
use linchpin.Instr.Fields.{bitsvl, bitsv, bbsetvl, bbsetv, bsetvl, bsetv}
use linchpin.Instr.Order.{stricmp, one_less, strcmp}
use linchpin.Instr.Text.{strpos, memcmp, memcmpo, next_field, printable, unpack, loadvb2, putvb2}

-- An instruction on the state behind its opcode, which began at the given program counter.
abbrev pub Instruction : Type 0
Instruction = (instruction_start : ℕ) → ExecState → Option ExecState

-- The instructions that are not modelled here, by their opcodes.
pub record Others : Type 0 where
  pub main : ℕ → Instruction
  pub extended : ℕ → Instruction

-- An instruction that cannot be undefined.
abbrev pub always : (ExecState → ExecState) → Instruction
always f start s = some (f s)

abbrev pub plain : (ExecState → Option ExecState) → Instruction
plain f start s = f s

abbrev pub constant : ℕ → Instruction
constant value = always (λ s. push s value)

abbrev pub halting : Instruction
halting = always halt_fatal

abbrev pub instruction_at : List Instruction → ℕ → Instruction
instruction_at [] i = halting
instruction_at (x ∷ xs) zero = x
instruction_at (x ∷ xs) (suc i) = instruction_at xs i

abbrev pub tpop : ExecState → ExecState
tpop s = let (count, s1) = pop s in record s1 { memory = pop_tuple s1.memory count }

module _ (fuel : ℕ) (env : Env) (others : Others) where
  -- The extended opcodes from 0 on; one that is not listed halts.
  unfoldable pub extended_instructions : List Instruction
  extended_instructions =
      halting
      ∷ always xor
      ∷ always complement
      ∷ halting
      ∷ halting
      ∷ plain strpos
      ∷ always (putg env)
      ∷ halting
      ∷ halting
      ∷ plain (longjmpr env)
      ∷ plain (longjmp env)
      ∷ plain (setjmp env)
      ∷ others.extended 0x0C
      ∷ others.extended 0x0D
      ∷ others.extended 0x0E
      ∷ others.extended 0x0F
      ∷ others.extended 0x10
      ∷ others.extended 0x11
      ∷ others.extended 0x12
      ∷ others.extended 0x13
      ∷ others.extended 0x14
      ∷ others.extended 0x15
      ∷ always discard_results
      ∷ others.extended 0x17
      ∷ others.extended 0x18
      ∷ others.extended 0x19
      ∷ others.extended 0x1A
      ∷ others.extended 0x1B
      ∷ always tpop
      ∷ others.extended 0x1D
      ∷ others.extended 0x1E
      ∷ plain (stricmp (λ h. h))
      ∷ plain (stricmp one_less)
      ∷ others.extended 0x21
      ∷ others.extended 0x22
      ∷ plain (strcmp fuel)
      ∷ plain memcmp
      ∷ plain memcmpo
      ∷ plain next_field
      ∷ others.extended 0x27
      ∷ always (step_global env 65535)
      ∷ always (discard_many env)
      ∷ always (step_global env 1)
      ∷ others.extended 0x2B
      ∷ others.extended 0x2C
      ∷ always (storeg env)
      ∷ plain (return_many env)
      ∷ others.extended 0x2F
      ∷ plain unpack
      ∷ always (pinm env)
      ∷ always (unpinm env)
      ∷ always printable
      ∷ others.extended 0x34
      ∷ others.extended 0x35
      ∷ others.extended 0x36
      ∷ others.extended 0x37
      ∷ []

  unfoldable pub dispatch_extended : Instruction
  dispatch_extended start s =
      let (ext_op, s1) = fetch_byte env s in instruction_at extended_instructions ext_op start s1

  abbrev pub branch : Condition → Instruction
  branch condition start s = some (jump_if env start condition s)

  abbrev pub compare_and_branch : Comparison → Instruction
  compare_and_branch comparison start s = some (jump_comparing env start comparison s)

  -- The opcodes from 0 to 0x2F.
  unfoldable pub data_instructions : List Instruction
  data_instructions =
      halting
      ∷ always (binary op_add)
      ∷ always (binary op_sub)
      ∷ always (binary op_mul)
      ∷ always (binary op_div)
      ∷ always (binary op_mod)
      ∷ always negate
      ∷ plain (shift shift_arithmetic)
      ∷ always (step_local env 1)
      ∷ constant 8
      ∷ constant 4
      ∷ always (step_local env 65535)
      ∷ constant 0xFFFF
      ∷ constant 3
      ∷ always (binary op_and)
      ∷ always (binary op_or)
      ∷ plain (shift shift_plain)
      ∷ plain valloc
      ∷ plain valloci
      ∷ always vfree
      ∷ plain talloc
      ∷ plain talloci
      ∷ plain vloadw
      ∷ plain vloadb
      ∷ plain (vloadw_immediate env)
      ∷ plain (vloadb_immediate env)
      ∷ plain vputw
      ∷ plain vputb
      ∷ plain (vputw_immediate env)
      ∷ plain (vputb_immediate env)
      ∷ plain vecsetw
      ∷ plain vecsetb
      ∷ plain veccpyw
      ∷ plain veccpyb
      ∷ always (loadg env)
      ∷ others.main 0x23
      ∷ constant 2
      ∷ always (push_word env)
      ∷ always (push_byte env)
      ∷ constant false_sentinel
      ∷ constant 0
      ∷ always dup
      ∷ constant 65528
      ∷ constant 5
      ∷ constant 1
      ∷ others.main 0x2D
      ∷ constant 0xFF
      ∷ always drop
      ∷ []

  -- The opcodes from 0x30 to 0x5F.
  unfoldable pub control_instructions : List Instruction
  control_instructions =
      (λ start s. some (jump env start s))
      ∷ branch is_zero
      ∷ branch is_not_zero
      ∷ branch is_false
      ∷ branch is_not_false
      ∷ branch is_positive
      ∷ branch is_not_positive
      ∷ branch is_negative
      ∷ branch is_not_negative
      ∷ compare_and_branch is_less
      ∷ compare_and_branch is_at_most
      ∷ compare_and_branch is_at_least
      ∷ compare_and_branch is_greater
      ∷ compare_and_branch is_equal
      ∷ compare_and_branch is_not_equal
      ∷ plain (call_near fuel env 0)
      ∷ plain (call_near fuel env 1)
      ∷ plain (call_near fuel env 2)
      ∷ plain (call_near fuel env 3)
      ∷ plain (call_near_popped fuel env)
      ∷ always (call_far env 0)
      ∷ always (call_far env 1)
      ∷ always (call_far env 2)
      ∷ always (call_far env 3)
      ∷ always (call_far_popped env)
      ∷ always (return_popped env)
      ∷ always (λ s. do_return env s (false_sentinel ∷ []))
      ∷ always (λ s. do_return env s (0 ∷ []))
      ∷ constant 6
      ∷ always (halt env)
      ∷ (λ start s. some (next_page env start s))
      ∷ constant 7
      ∷ others.main 0x50
      ∷ plain loadvb2
      ∷ plain putvb2
      ∷ always (binary op_add)
      ∷ always (inclv env)
      ∷ always (λ s. do_return env s [])
      ∷ always (putl env)
      ∷ always (pushl env)
      ∷ always (storel env)
      ∷ plain (bitsvl env)
      ∷ plain (bitsv env)
      ∷ plain (bbsetvl env)
      ∷ plain (bbsetv env)
      ∷ plain (bsetvl env)
      ∷ plain (bsetv env)
      ∷ dispatch_extended
      ∷ []

  -- The opcodes from 0x60 on hold their operands.
  unfoldable pub execute : ℕ → Instruction
  execute opcode start s =
      if leb 0xE0 opcode
      then some (store_local_peek s (opcode % 32))
      else if leb 0xC0 opcode
      then some (store_local_pop s (opcode % 32))
      else if leb 0xA0 opcode
      then some (load_local s (opcode % 32))
      else if leb 0x60 opcode
      then vloadw_local s (opcode % 16) (opcode / 16 % 4)
      else if leb 0x30 opcode
      then instruction_at control_instructions (opcode - 0x30) start s
      else instruction_at data_instructions opcode start s
