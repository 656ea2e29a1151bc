-- ===== src/Instr/Text/Results.antt =====
-- What STRPOS, MEMCMP and MEMCMPO of src/LinchpinST/src/lpst_run_dispatch.c leave on the stack.
use mathlib.Core.Path.{subst}
use linchpin.Base.{
  ℕ, ◌+◌, ◌%◌, ◌≤◌, ◌<◌, ◌≡◌, ◌≢◌, ◌∙◌, refl, ap, arith, false, ◌==◌, Option, some, u32,
}
use linchpin.Ram.{Ram, full_ram_bytes, false_sentinel, read_ram_byte}
use linchpin.Ram.Access.{byte_at, read_ram_byte-eq}
use linchpin.Aggregate.{handle_to_byte_offset, read_aggregate_word, read_aggregate_payload_byte}
use linchpin.Exec.{ExecState, push}
use linchpin.Exec.Stack.{operand, taken, pop-operand, pop-first}
use linchpin.Instr.Text.{search_from, position, strpos, compare_from, memcmp, memcmpo}
use linchpin.Instr.Text.Search.{
  IsSearched, found, missing, search_from-IsSearched, IsCompared, equal, less, greater,
  compare_from-IsCompared,
}

-- Byte `j` of a vector behind the word of its length, and byte `j` behind an offset into it.
abbrev pub payload : Ram → ℕ → ℕ → ℕ
payload ram handle j = byte_at ram (handle_to_byte_offset handle + 2 + j)

abbrev pub raw_from : Ram → ℕ → ℕ → ℕ → ℕ
raw_from ram handle offset j = byte_at ram (handle_to_byte_offset handle + offset + j)

payload-read :
    (ram : Ram) (handle n j : ℕ)
    → handle_to_byte_offset handle + 2 + n ≤ full_ram_bytes
    → j < n
    → read_aggregate_payload_byte ram handle j ≡ some (payload ram handle j)
unfolding read_aggregate_payload_byte
payload-read ram handle n j fits lt =
    let o = handle_to_byte_offset handle + 2 + j in
    ap (read_ram_byte ram) (let e : u32 o ≡ o = omega arith in e)
    ∙ read_ram_byte-eq ram o (omega arith)

raw-read :
    (ram : Ram) (handle offset n j : ℕ)
    → handle_to_byte_offset handle + offset + n ≤ full_ram_bytes
    → j < n
    → read_ram_byte ram (u32 (handle_to_byte_offset handle + offset + j))
      ≡ some (raw_from ram handle offset j)
raw-read ram handle offset n j fits lt =
    let o = handle_to_byte_offset handle + offset + j in
    ap (read_ram_byte ram) (let e : u32 o ≡ o = omega arith in e)
    ∙ read_ram_byte-eq ram o (omega arith)

-- The result that a search or a comparison has, since its bytes can be read.
IsCompared-some :
    {a b : ℕ → ℕ} {ci bound : ℕ} {o : Option ℕ}
    → IsCompared a b ci bound o
    → (r : ℕ) × (o ≡ some r) × IsCompared a b ci bound (some r)
IsCompared-some (equal all) = (0, refl, equal all)
IsCompared-some (less i low high below before) = (1, refl, less i low high below before)
IsCompared-some (greater i low high above before) = (65535, refl, greater i low high above before)

IsSearched-some :
    {str : ℕ → ℕ} {target si bound : ℕ} {o : Option ℕ}
    → IsSearched str target si bound o
    → (r : ℕ) × (o ≡ some r) × IsSearched str target si bound (some r)
IsSearched-some (found i low high here byte before) = (_, refl, found i low high here byte before)
IsSearched-some (missing stop low high why before) = (_, refl, missing stop low high why before)

compared :
    (first second : ℕ → Option ℕ) (a b : ℕ → ℕ) (n : ℕ)
    → ((j : ℕ) → j < n → (first j ≡ some (a j)) × (second j ≡ some (b j)))
    → (r : ℕ) × (compare_from first second n 0 ≡ some r) × IsCompared a b 0 n (some r)
compared first second a b n reads = IsCompared-some (
    subst (λ bound. IsCompared a b 0 bound (compare_from first second n 0)) (omega arith)
      (compare_from-IsCompared first second a b n 0 (λ j low high. reads j (omega arith))))

searched :
    (ram : Ram) (handle target n : ℕ)
    → handle_to_byte_offset handle + 2 + n ≤ full_ram_bytes
    → (r : ℕ) × (search_from ram handle target n 0 ≡ some r)
      × IsSearched (payload ram handle) target 0 n (some r)
searched ram handle target n fits = IsSearched-some (
    subst
      (λ bound. IsSearched (payload ram handle) target 0 bound (search_from ram handle target n 0))
      (omega arith)
      (search_from-IsSearched ram handle target (payload ram handle) n 0
        (λ j low high. payload-read ram handle n j fits (omega arith))))

-- MEMCMP, with the number of bytes on top of the stack, the first vector's handle below it and the
-- second one's below that, takes these three and pushes what the payloads say, where they lie inside
-- the RAM: 0 if all the bytes are equal, and otherwise by the first byte that differs, 1 where the
-- first vector has the smaller one and the word of -1 where it has the greater one.
pub memcmp-IsCompared :
    (s : ExecState)
    → 3 ≤ s.eval_stack_top
    → handle_to_byte_offset (operand s 2) + 2 + operand s 1 ≤ full_ram_bytes
    → handle_to_byte_offset (operand s 3) + 2 + operand s 1 ≤ full_ram_bytes
    → (r : ℕ) × (memcmp s ≡ some (push (taken s 3) r))
      × IsCompared
          (payload s.memory.ram (operand s 2))
          (payload s.memory.ram (operand s 3))
          0
          (operand s 1)
          (some r)
unfolding memcmp
memcmp-IsCompared s full first second =
    let ram = s.memory.ram in
    let (r, is, by) =
      compared (read_aggregate_payload_byte ram (operand s 2))
        (read_aggregate_payload_byte ram (operand s 3)) (payload ram (operand s 2))
        (payload ram (operand s 3)) (operand s 1)
        (λ j lt. (
          payload-read ram (operand s 2) (operand s 1) j first lt,
          payload-read ram (operand s 3) (operand s 1) j second lt,
        )) in
    (
      r,
      rw
          (
            pop-first s (omega arith),
            pop-operand s 1 (omega arith),
            pop-operand s 2 (omega arith),
            is,
          )
          refl,
      by,
    )

-- MEMCMPO, with an offset on top of the stack, the number of bytes below it, and below that the first
-- and the second vector's handle, takes these four and pushes what a comparison of the bytes from the
-- offset into the first vector, its length word included, with the payload of the second one says,
-- where both lie inside the RAM: 0 if they are all equal, and otherwise by the first byte that
-- differs, 1 where the first vector has the smaller one and the word of -1 where it has the greater
-- one.
pub memcmpo-IsCompared :
    (s : ExecState)
    → 4 ≤ s.eval_stack_top
    → handle_to_byte_offset (operand s 3) + operand s 1 + operand s 2 ≤ full_ram_bytes
    → handle_to_byte_offset (operand s 4) + 2 + operand s 2 ≤ full_ram_bytes
    → (r : ℕ) × (memcmpo s ≡ some (push (taken s 4) r))
      × IsCompared
          (raw_from s.memory.ram (operand s 3) (operand s 1))
          (payload s.memory.ram (operand s 4))
          0
          (operand s 2)
          (some r)
unfolding memcmpo
memcmpo-IsCompared s full first second =
    let ram = s.memory.ram in
    let base = handle_to_byte_offset (operand s 3) in
    let (r, is, by) =
      compared (λ ci. read_ram_byte ram (u32 (base + operand s 1 + ci)))
        (read_aggregate_payload_byte ram (operand s 4)) (raw_from ram (operand s 3) (operand s 1))
        (payload ram (operand s 4)) (operand s 2)
        (λ j lt. (
          raw-read ram (operand s 3) (operand s 1) (operand s 2) j first lt,
          payload-read ram (operand s 4) (operand s 2) j second lt,
        )) in
    (
      r,
      rw
          (
            pop-first s (omega arith),
            pop-operand s 1 (omega arith),
            pop-operand s 2 (omega arith),
            pop-operand s 3 (omega arith),
            is,
          )
          refl,
      by,
    )

-- STRPOS, with the string's handle on top of the stack and the character below it, takes both. Where
-- the string's length word can be read and its payload lies inside the RAM, it pushes the place,
-- counted from 1, of the first byte that is the low byte of the character, if no zero byte stands
-- before it; and otherwise the sentinel. So a zero byte ends the search, also where the byte looked
-- for follows it inside the payload.
pub strpos-IsSearched :
    (s : ExecState) (str_len : ℕ)
    → 2 ≤ s.eval_stack_top
    → operand s 1 ≢ false_sentinel
    → read_aggregate_word s.memory.ram (operand s 1) 0 ≡ some str_len
    → handle_to_byte_offset (operand s 1) + 2 + str_len ≤ full_ram_bytes
    → (r : ℕ) × (strpos s ≡ some (push (taken s 2) r))
      × IsSearched (payload s.memory.ram (operand s 1)) (operand s 2 % 256) 0 str_len (some r)
unfolding strpos position
strpos-IsSearched s str_len full real len fits =
    let (r, is, by) = searched s.memory.ram (operand s 1) (operand s 2 % 256) str_len fits in
    let usable : (operand s 1 == false_sentinel) ≡ false = ground arith in
    (r, rw (pop-first s (omega arith), pop-operand s 1 (omega arith), usable, len, is) refl, by)
