-- ===== src/Extract.antt =====
-- Packed records: the measuring and the selection of records for the EXTRACT instruction of
-- src/LinchpinST/src/lpst_run_dispatch_ext37.c. The instruction itself, which moves and displays what
-- was selected, is not modelled here.
pub mod Result
pub mod Fields
pub mod Inside
mod Tests
use linchpin.Base.{
  ℕ, zero, suc, ◌+◌, ◌-◌, ◌*◌, ◌/◌, ◌%◌, ◌^◌, Bool, true, false, ◌&&◌, ◌||◌, leb, ltb, ◌==◌,
  if◌then◌else◌, Option, none, some,
}
use linchpin.Ram.{Ram, false_sentinel}
use linchpin.Aggregate.{read_aggregate_word, read_aggregate_payload_byte}
use linchpin.Extract.Result.{Tried, found, absent, undefined, ◌>>=◌, ◌>>◌, reading, require}

pub record Selection : Type 0 where
  pub word_offset : ℕ
  pub word_length : ℕ
  pub payload_byte_offset : ℕ
  pub payload_byte_length : ℕ
  pub tag : ℕ
  pub component_count : ℕ

-- The length in bytes and in words of a field whose length byte is given.
abbrev pub field_lengths : ℕ → ℕ × ℕ
field_lengths logical =
    if logical / 2 ^ 7 % 2 == 1 then (8, 4) else (logical + 1, (logical + 1 + 1) / 2)

unfoldable pub try_measure_ext37_packed_field : Ram → (handle offset remaining : ℕ) → Tried (ℕ × ℕ)
try_measure_ext37_packed_field ram handle offset remaining = do
  require (ltb 0 remaining)
  logical ← reading (read_aggregate_payload_byte ram handle offset)
  require (leb (field_lengths logical).1 remaining)
  found (field_lengths logical)

-- The loop over the fields, with the bytes and the words that are used so far.
unfoldable pub measure_fields :
    Ram → (handle left cursor remaining bytes_used words_used : ℕ) → Tried (ℕ × ℕ)
measure_fields ram handle zero cursor remaining bytes_used words_used =
    found (bytes_used, words_used)
measure_fields ram handle (suc left) cursor remaining bytes_used words_used = do
  field ← try_measure_ext37_packed_field ram handle cursor (remaining - words_used)
  measure_fields ram handle left (cursor + field.1 * 2) remaining (bytes_used + field.0)
      (words_used + field.1)

unfoldable pub try_measure_ext37_payload :
    Ram → (handle offset remaining component_count : ℕ) → Tried (ℕ × ℕ)
try_measure_ext37_payload ram handle offset remaining component_count =
    if component_count == 0
    then try_measure_ext37_packed_field ram handle offset remaining
    else measure_fields ram handle component_count offset remaining 0 0

unfoldable pub try_measure_ext37_record : Ram → (handle word_offset remaining : ℕ) → Tried Selection
try_measure_ext37_record ram handle word_offset remaining = do
  require (ltb 0 remaining)
  header ← reading (read_aggregate_word ram handle word_offset)
  payload ←
      try_measure_ext37_payload ram handle (word_offset * 2 + 2) (remaining - 1) (header / 2 ^ 8)
  require (leb (1 + payload.1) remaining)
  found (record {
    word_offset = word_offset;
    word_length = 1 + payload.1;
    payload_byte_offset = word_offset * 2 + 2;
    payload_byte_length = payload.0;
    tag = header % 256;
    component_count = header / 2 ^ 8;
  })

-- The loop that passes over records.
unfoldable pub skip_records : Ram → (handle left offset remaining : ℕ) → Tried (ℕ × ℕ)
skip_records ram handle zero offset remaining = found (offset, remaining)
skip_records ram handle (suc left) offset remaining = do
  skipped ← try_measure_ext37_record ram handle offset remaining
  skip_records ram handle left (offset + skipped.word_length) (remaining - skipped.word_length)

-- The loop that looks for a tag. The fuel is the number of the words that remain: each record has at
-- least one, so that where the fuel ends no words remain and the loop ends too.
unfoldable pub search_records : Ram → (handle tag fuel offset remaining : ℕ) → Tried Selection
search_records ram handle tag zero offset remaining = absent
search_records ram handle tag (suc fuel) offset remaining = do
  require (ltb 0 remaining)
  candidate ← try_measure_ext37_record ram handle offset remaining
  if candidate.tag == tag
      then found candidate
      else search_records ram handle tag fuel (offset + candidate.word_length)
          (remaining - candidate.word_length)

abbrev pub start_of : ℕ → ℕ
start_of initial_word_offset =
    if initial_word_offset == false_sentinel then 0 else initial_word_offset

unfoldable pub try_select_ext37_record :
    Ram → (handle available_span initial_word_offset tag_selector skip_count : ℕ) → Tried Selection
try_select_ext37_record ram handle available_span initial_word_offset tag_selector skip_count = do
  require (ltb 0 available_span)
  place ←
      skip_records ram handle (if skip_count == false_sentinel then 0 else skip_count)
        (start_of initial_word_offset) available_span
  if tag_selector == false_sentinel
      then try_measure_ext37_record ram handle place.0 place.1
      else search_records ram handle (tag_selector % 256) place.1 place.0 place.1
