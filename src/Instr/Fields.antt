-- ===== src/Instr/Fields.antt =====
-- The bit-field instructions BITSVL to BSETV of src/LinchpinST/src/lpst_run.c. The control word
-- follows the opcode; `none` is an access outside the RAM banks.
use linchpin.Base.{ℕ, ◌/◌, ◌%◌, Option, some, ◌>>=◌}
use linchpin.BitField.{
  extract_bit_field, extract_bit_field_from_local, replace_bit_field, replace_bit_field_in_local,
  replace_single_bit, replace_single_bit_in_local,
}
use linchpin.Exec.{ExecState, Env, push, pop, fetch_le16}
use linchpin.Instr.{local_or_sentinel}
use linchpin.Instr.Vectors.{with_ram}

-- The handle in the local that bits 4 to 7 of the control word name.
abbrev pub local_handle : ExecState → ℕ → ℕ
local_handle s control_word = local_or_sentinel s (control_word / 16 % 16)

unfoldable pub bitsvl : Env → ExecState → Option ExecState
bitsvl env s = do
  let (control, s1) = fetch_le16 env s
  value ← extract_bit_field_from_local s1.memory.ram (local_handle s1 control) control
  some (push s1 value)

unfoldable pub bitsv : Env → ExecState → Option ExecState
bitsv env s = do
  let (control, s1) = fetch_le16 env s
  let (handle, s2) = pop s1
  value ← extract_bit_field s2.memory.ram handle control
  some (push s2 value)

unfoldable pub bbsetvl : Env → ExecState → Option ExecState
bbsetvl env s = do
  let (control, s1) = fetch_le16 env s
  let handle = local_handle s1 control
  let (value, s2) = pop s1
  ram ← replace_bit_field_in_local s2.memory.ram handle control value
  some (with_ram s2 ram)

unfoldable pub bbsetv : Env → ExecState → Option ExecState
bbsetv env s = do
  let (control, s1) = fetch_le16 env s
  let (handle, s2) = pop s1
  let (value, s3) = pop s2
  ram ← replace_bit_field s3.memory.ram handle control value
  some (with_ram s3 ram)

unfoldable pub bsetvl : Env → ExecState → Option ExecState
bsetvl env s = do
  let (control, s1) = fetch_le16 env s
  ram ← replace_single_bit_in_local s1.memory.ram (local_handle s1 control) control
  some (with_ram s1 ram)

unfoldable pub bsetv : Env → ExecState → Option ExecState
bsetv env s = do
  let (control, s1) = fetch_le16 env s
  let (handle, s2) = pop s1
  ram ← replace_single_bit s2.memory.ram handle control
  some (with_ram s2 ram)
