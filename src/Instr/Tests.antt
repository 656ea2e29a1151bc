-- ===== src/Instr/Tests.antt =====
-- Examples for the theorems on instructions and on the loop.
use linchpin.Base.{
  ℕ, zero, suc, ◌+◌, ◌-◌, ◌==◌, ◌%◌, ◌<◌, ◌≤◌, ◌≡◌, ◌≢◌, arith, refl, true, some, List, [], ◌∷◌,
  ltb, if◌then◌else◌, Array,
}
use linchpin.Ram.{Ram, read_ram_byte, read_ram_word}
use linchpin.Aggregate.{read_aggregate_word, read_aggregate_payload_byte, handle_to_byte_offset}
use linchpin.Exec.{ExecState, Env, push, peek}
use linchpin.Exec.Samples.{sample_memory, sample_state, sample_env}
use linchpin.Instr.Samples.{idle, sample_machine, sample_state-IsBounded}
use linchpin.Instr.Run.{lpst_run}
use linchpin.Instr.Run.Limits.{IsFinished, lpst_run-IsFinished}
use linchpin.Instr.Bounded.Steps.{StaysBounded, outside, lpst_run-IsBounded}
use linchpin.Instr.Order.{compare_vm_strings_ignore_case}
use linchpin.Instr.Order.Folded.{
  dictionary_order, capitals, compare_vm_strings_ignore_case-dictionary_order,
}
use linchpin.Instr.Text.{strpos, memcmp, memcmpo}
use linchpin.Instr.Text.Search.{IsSearched, IsCompared}
use linchpin.Instr.Text.Results.{
  payload, raw_from, strpos-IsSearched, memcmp-IsCompared, memcmpo-IsCompared,
}
use linchpin.Exec.Stack.{taken}
use linchpin.Instr.{modulus, load_local, store_local_pop}
use linchpin.Instr.Locals.{load_local-store_local_pop}
use linchpin.Instr.Modulus.{modulus-floored}

-- -7 modulo 3.
modulus-floored_example :
    (modulus 65529 3 < 3)
    × (65529 < 32768 → modulus 65529 3 ≡ 65529 % 3)
    × (32768 ≤ 65529 → modulus 65529 3 ≡ 2)
modulus-floored_example = modulus-floored 65529 3 (omega arith) (omega arith) (omega arith)

load_local-store_local_pop_example :
    let s' = load_local (store_local_pop sample_state 1) 1 in
    (s'.eval_stack_top ≡ 3)
    × (peek s' ≡ peek sample_state)
    × (s'.local_storage 1 ≡ peek sample_state)
    × ((i : ℕ) → i ≢ 1 → s'.local_storage i ≡ 10 + i)
load_local-store_local_pop_example =
    load_local-store_local_pop sample_state 1 (omega arith) (ground arith) (omega arith)

-- 8 + 3, and the end.
abbrev sample_code : Array ℕ
sample_code i = code_from (0x09 ∷ 0x0D ∷ 0x01 ∷ 0x4D ∷ 5 ∷ 0 ∷ []) i
  where
    code_from : List ℕ → ℕ → ℕ
    code_from [] i = 0
    code_from (x ∷ xs) zero = x
    code_from (x ∷ xs) (suc i) = code_from xs i

abbrev running_env : Env
running_env = record sample_env {
  file = record { seeks = λ p. true; delivered = λ p n. n; content = sample_code };
}

lpst_run-IsBounded_example :
    StaysBounded 1 running_env sample_machine (lpst_run 1 running_env outside 4 sample_machine)
lpst_run-IsBounded_example =
    lpst_run-IsBounded 1 running_env (λ i. tt) 4 sample_machine sample_state-IsBounded

lpst_run-IsFinished_example :
    IsFinished 1 running_env idle 3 sample_machine (lpst_run 1 running_env idle 4 sample_machine)
lpst_run-IsFinished_example =
    lpst_run-IsFinished 1 running_env idle 4 3 sample_machine refl (omega arith) (omega arith)
      (omega arith) (omega arith)

-- A string of three letters at the vector with handle 4.
abbrev letters : ℕ → ℕ
letters zero = 0x41
letters (suc zero) = 0x42
letters (suc (suc i)) = 0x43

abbrev text_ram : Ram
text_ram b i = if ltb i 10 then 0 else letters (i - 10)

letters-read : (j : ℕ) → 0 ≤ j → j < 3 → read_aggregate_payload_byte text_ram 4 j ≡ some (letters j)
unfolding read_aggregate_payload_byte read_ram_byte handle_to_byte_offset
letters-read zero low high = refl
letters-read (suc zero) low high = refl
letters-read (suc (suc zero)) low high = refl
letters-read (suc (suc (suc j))) low high = absurd (omega arith)

-- The string "ABC" with its length at handle 4, "ABD" at handle 8, and operands on the stack.
abbrev string_ram : Ram
string_ram b i =
    if i == 8
    then 3
    else if i == 10
    then 0x41
    else if i == 11
    then 0x42
    else if i == 12
    then 0x43
    else if i == 18
    then 0x41
    else if i == 19
    then 0x42
    else if i == 20
    then 0x44
    else 0

-- The operands, the last one on top.
abbrev with_operands : ℕ → ℕ → ℕ → ℕ → ExecState
with_operands a b c d = record sample_state {
  memory = record sample_memory { ram = string_ram };
  eval_stack = λ i. if i == 0 then a else if i == 1 then b else if i == 2 then c else d;
  eval_stack_top = 4;
}

strpos-IsSearched_example :
    (r : ℕ) × (strpos (with_operands 0 0 0x42 4)
      ≡ some (push (taken (with_operands 0 0 0x42 4) 2) r))
    × IsSearched (payload string_ram 4) 0x42 0 3 (some r)
unfolding read_aggregate_word read_ram_word read_ram_byte handle_to_byte_offset
strpos-IsSearched_example =
    strpos-IsSearched (with_operands 0 0 0x42 4) 3 (omega arith) (omega arith) refl (omega arith)

memcmp-IsCompared_example :
    (r : ℕ) × (memcmp (with_operands 0 8 4 3) ≡ some (push (taken (with_operands 0 8 4 3) 3) r))
    × IsCompared (payload string_ram 4) (payload string_ram 8) 0 3 (some r)
unfolding handle_to_byte_offset
memcmp-IsCompared_example =
    memcmp-IsCompared (with_operands 0 8 4 3) (omega arith) (omega arith) (omega arith)

memcmpo-IsCompared_example :
    (r : ℕ) × (memcmpo (with_operands 8 4 3 2) ≡ some (push (taken (with_operands 8 4 3 2) 4) r))
    × IsCompared (raw_from string_ram 4 2) (payload string_ram 8) 0 3 (some r)
unfolding handle_to_byte_offset
memcmpo-IsCompared_example =
    memcmpo-IsCompared (with_operands 8 4 3 2) (omega arith) (omega arith) (omega arith)

letters-read-from :
    (i count : ℕ)
    → i + count ≤ 3
    → (j : ℕ) → i ≤ j
    → j < i + count
    → read_aggregate_payload_byte text_ram 4 j ≡ some (letters j)
letters-read-from i count fits j low high = letters-read j (omega arith) (omega arith)

-- "BC" comes after "ABC".
compare_vm_strings_ignore_case-dictionary_order_example :
    compare_vm_strings_ignore_case text_ram 4 1 2 4 3
    ≡ some (dictionary_order (capitals letters 2 1) (capitals letters 3 0))
compare_vm_strings_ignore_case-dictionary_order_example =
    compare_vm_strings_ignore_case-dictionary_order text_ram 4 4 1 2 3 letters letters
      (letters-read-from 1 2 (omega arith)) (letters-read-from 0 3 (omega arith))
