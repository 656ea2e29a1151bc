-- ===== src/Instr/Order.antt =====
-- The comparisons of strings and sort keys: `compare_vm_strings_ignore_case` and
-- `compare_vm_strings` of src/LinchpinST/src/lpst_run_io.c, and the instructions STRICMP, STRICMP1
-- and STRCMP of lpst_run_dispatch.c that call them. `none` is an access outside the RAM banks.
pub mod Folded
use linchpin.Base.{
  ℕ, zero, suc, ◌+◌, ◌-◌, ◌*◌, ◌/◌, ◌%◌, ◌^◌, Bool, true, false, ◌&&◌, Option, none, some, ◌>>=◌,
  leb, ltb, ◌==◌, if◌then◌else◌, u16,
}
use linchpin.Ram.{Ram}
use linchpin.Aggregate.{read_aggregate_payload_byte}
use linchpin.Exec.{ExecState, push, pop}

-- Letters as capitals.
unfoldable pub fold_compare_byte : ℕ → ℕ
fold_compare_byte value = if leb 0x61 value && leb value 0x7A then value - 32 else value

unfoldable pub try_read_ignore_case_compare_byte : Ram → ℕ → ℕ → Option ℕ
try_read_ignore_case_compare_byte ram handle index = do
  byte ← read_aggregate_payload_byte ram handle index
  some (fold_compare_byte byte)

-- The loop, with as many bytes left of each string as its limit allows. Both strings are read before
-- it is asked which of them has ended.
unfoldable pub compare_folded_from : Ram → (h1 h2 left1 i1 left2 i2 : ℕ) → Option ℕ
compare_folded_from ram h1 h2 zero i1 zero i2 = some 0
compare_folded_from ram h1 h2 zero i1 (suc left2) i2 = do
  b ← try_read_ignore_case_compare_byte ram h2 i2
  some 1
compare_folded_from ram h1 h2 (suc left1) i1 zero i2 = do
  a ← try_read_ignore_case_compare_byte ram h1 i1
  some 65535
compare_folded_from ram h1 h2 (suc left1) i1 (suc left2) i2 =
    let rest = compare_folded_from ram h1 h2 left1 (i1 + 1) left2 (i2 + 1) in
    do
      a ← try_read_ignore_case_compare_byte ram h1 i1
      b ← try_read_ignore_case_compare_byte ram h2 i2
      if a == b then rest else some (if ltb a b then 1 else 65535)

unfoldable pub compare_vm_strings_ignore_case : Ram → (h1 offset1 length1 h2 length2 : ℕ) → Option ℕ
compare_vm_strings_ignore_case ram h1 offset1 length1 h2 length2 =
    compare_folded_from ram h1 h2 length1 offset1 length2 0

-- STRICMP and STRICMP1; the second form has the first handle with 1 added to it.
unfoldable pub stricmp : (ℕ → ℕ) → ExecState → Option ExecState
stricmp handle_of s = do
  let (first_length, s1) = pop s
  let (first_offset, s2) = pop s1
  let (second_length, s3) = pop s2
  let (first_handle, s4) = pop s3
  let (second_handle, s5) = pop s4
  result ←
      compare_vm_strings_ignore_case s5.memory.ram (handle_of first_handle) first_offset
        first_length second_handle second_length
  some (push s5 result)

abbrev pub one_less : ℕ → ℕ
one_less handle = u16 (handle + 65535)

-- A payload byte before the first one, at `-back`.
abbrev pub payload_before : Ram → ℕ → ℕ → Option ℕ
payload_before ram handle back = read_aggregate_payload_byte ram handle (4294967296 - back)

-- What is left of a key, or `none` once the count has gone below 0, from where it never comes back.
abbrev pub less_by : Option ℕ → ℕ → Option ℕ
less_by none n = none
less_by (some remaining) n = if ltb remaining n then none else some (remaining - n)

abbrev pub is_used_up : Option ℕ → Bool
is_used_up none = false
is_used_up (some remaining) = remaining == 0

-- The tie-break of structured keys.
abbrev pub combined : Ram → ℕ → Option ℕ
combined ram handle = do
  high ← read_aggregate_payload_byte ram handle 3
  low ← read_aggregate_payload_byte ram handle 2
  some (high % 64 * 2 ^ 8 + low)

-- The last tie-break; it never says that two keys are equal.
abbrev pub by_flags : Ram → ℕ → ℕ → Option ℕ
by_flags ram h1 h2 = do
  first_flag ← payload_before ram h1 2
  second_flag ← payload_before ram h2 2
  some (if ltb (first_flag % 64) (second_flag % 64) then 65535 else 1)

unfoldable pub break_tie : Ram → ℕ → ℕ → Option ℕ
break_tie ram h1 h2 = do
  flag ← payload_before ram h1 2
  let broken : Option ℕ = (do
    first_combined ← combined ram h1
    second_combined ← combined ram h2
    if ltb first_combined second_combined
        then some 65535
        else (if ltb second_combined first_combined then some 1 else by_flags ram h1 h2))
  if flag / 2 ^ 6 % 2 == 0 then some 0 else broken

-- The bytes of two fields, as many as both have; `some none` if they are equal.
unfoldable pub compare_fields : Ram → (h1 h2 left index : ℕ) → Option (Option ℕ)
compare_fields ram h1 h2 zero index = some none
compare_fields ram h1 h2 (suc left) index =
    let rest = compare_fields ram h1 h2 left (index + 1) in
    do
      a ← read_aggregate_payload_byte ram h1 index
      b ← read_aggregate_payload_byte ram h2 index
      if ltb b a then some (some 1) else (if ltb a b then some (some 65535) else rest)

-- What the lengths of two fields with equal bytes say.
abbrev pub by_lengths : (length1 length2 : ℕ) → Option ℕ → Option ℕ
by_lengths length1 length2 rest =
    if ltb length2 length1 then some 1 else (if ltb length1 length2 then some 65535 else rest)

abbrev pub decided_or : Option ℕ → Option ℕ → Option ℕ
decided_or none rest = rest
decided_or (some result) rest = some result

-- The loop over the fields. It has no bound in the code, and `none` also stands for the end of the
-- fuel.
unfoldable pub compare_keys_from : ℕ → Ram → (h1 h2 : ℕ) → Option ℕ → Option ℕ → ℕ → Option ℕ
compare_keys_from zero ram h1 h2 left1 left2 index = none
compare_keys_from (suc fuel) ram h1 h2 left1 left2 index =
    let fields : Option ℕ = (do
      length1 ← read_aggregate_payload_byte ram h1 index
      length2 ← read_aggregate_payload_byte ram h2 index
      let count = if ltb length1 length2 then length1 else length2
      decided ← compare_fields ram h1 h2 count (index + 1)
      decided_or decided (
          by_lengths length1 length2 (
            compare_keys_from fuel ram h1 h2 (less_by left1 (length1 + 1))
              (less_by left2 (length2 + 1)) (index + 1 + count)))) in
    if is_used_up left1
    then (if is_used_up left2 then break_tie ram h1 h2 else some 65535)
    else (if is_used_up left2 then some 1 else fields)

unfoldable pub compare_vm_strings : ℕ → Ram → ℕ → ℕ → Option ℕ
compare_vm_strings fuel ram h1 h2 = do
  first_remaining ← payload_before ram h1 1
  second_remaining ← payload_before ram h2 1
  compare_keys_from fuel ram h1 h2 (some first_remaining) (some second_remaining) 4

unfoldable pub strcmp : ℕ → ExecState → Option ExecState
strcmp fuel s = do
  let (second_handle, s1) = pop s
  let (first_handle, s2) = pop s1
  result ← compare_vm_strings fuel s2.memory.ram first_handle second_handle
  some (push s2 result)
