-- ===== src/Extract/Fields.antt =====
-- Typed fields and subfields: the other measurements of
-- src/LinchpinST/src/lpst_run_dispatch_ext37.c.
use linchpin.Base.{
  ℕ, zero, suc, ◌+◌, ◌-◌, ◌*◌, ◌/◌, ◌%◌, ◌^◌, Bool, true, false, ◌&&◌, not, leb, ltb, ◌==◌,
  if◌then◌else◌, u8, u16, Option,
}
use linchpin.Ram.{Ram, false_sentinel}
use linchpin.Aggregate.{
  read_aggregate_word, read_aggregate_payload_byte, is_usable_aggregate_handle,
}
use linchpin.Extract.{Selection, try_measure_ext37_packed_field}
use linchpin.Extract.Result.{Tried, found, absent, undefined, ◌>>=◌, ◌>>◌, reading, require}

-- The length of a typed field in words, and of its payload in bytes, by its header word.
unfoldable pub typed_lengths : Ram → (handle word_offset remaining header : ℕ) → Tried (ℕ × ℕ)
typed_lengths ram handle word_offset remaining header =
    let kind = header % 256 in
    let count = header / 2 ^ 8 in
    let counted : Tried (ℕ × ℕ) = (do
      require (not (ltb remaining 2))
      length ← reading (read_aggregate_word ram handle (word_offset + 1))
      require (ltb 0 length)
      found (length, (length - 1) * 2)) in
    if header == 0
    then found (1, 0)
    else (if kind == 0 then counted else found (1 + count * ((kind + 1) / 2), count * kind))

unfoldable pub try_measure_ext37_typed_field :
    Ram → (handle word_offset remaining : ℕ) → Tried Selection
try_measure_ext37_typed_field ram handle word_offset remaining = do
  require (ltb 0 remaining)
  header ← reading (read_aggregate_word ram handle word_offset)
  lengths ← typed_lengths ram handle word_offset remaining header
  require (leb lengths.0 remaining)
  found (record {
    word_offset = word_offset;
    word_length = lengths.0;
    payload_byte_offset = word_offset * 2;
    payload_byte_length = lengths.1;
    tag = header % 256;
    component_count = header / 2 ^ 8;
  })

-- The field that is `left` fields further on.
unfoldable pub select_typed_from : Ram → (handle left offset remaining : ℕ) → Tried Selection
select_typed_from ram handle zero offset remaining =
    try_measure_ext37_typed_field ram handle offset remaining
select_typed_from ram handle (suc left) offset remaining = do
  candidate ← try_measure_ext37_typed_field ram handle offset remaining
  select_typed_from ram handle left (offset + candidate.word_length)
      (remaining - candidate.word_length)

-- The field at a place, and the field that many fields behind another one.
abbrev pub typed_field_at : Ram → (handle span offset : ℕ) → Tried Selection
typed_field_at ram handle span offset = do
  require (ltb offset span)
  try_measure_ext37_typed_field ram handle offset (span - offset)

abbrev pub typed_field_behind : Ram → (handle span offset ordinal : ℕ) → Tried Selection
typed_field_behind ram handle span offset ordinal = do
  skipped ← typed_field_at ram handle span offset
  require (ltb 0 ordinal)
  select_typed_from ram handle (ordinal - 1) (offset + skipped.word_length)
      (span - (offset + skipped.word_length))

unfoldable pub try_select_ext37_typed_field_fallback :
    Ram → (handle available_span initial_word_offset tag_selector skip_count : ℕ) → Tried Selection
try_select_ext37_typed_field_fallback ram handle available_span initial_word_offset tag_selector
      skip_count =
    do
      require (initial_word_offset == false_sentinel && not (tag_selector == false_sentinel))
      if skip_count == false_sentinel
          then typed_field_at ram handle available_span tag_selector
          else typed_field_behind ram handle available_span skip_count tag_selector

pub record Subfield : Type 0 where
  pub byte_length : ℕ
  pub data_byte_offset : ℕ
  pub encoded_byte_length : ℕ
  pub word_length : ℕ

-- The packed field that is `left` fields further on, with its place.
unfoldable pub resolve_from : Ram → (handle left cursor remaining : ℕ) → Tried (ℕ × ℕ × ℕ)
resolve_from ram handle zero cursor remaining = do
  field ← try_measure_ext37_packed_field ram handle cursor remaining
  found (cursor, field.0, field.1)
resolve_from ram handle (suc left) cursor remaining = do
  field ← try_measure_ext37_packed_field ram handle cursor remaining
  resolve_from ram handle left (cursor + field.1 * 2) (remaining - field.1)

unfoldable pub try_resolve_ext37_subfield : Ram → ℕ → Selection → ℕ → Tried Subfield
try_resolve_ext37_subfield ram handle selection mode = do
  require (not (selection.component_count == 0) && leb mode selection.component_count)
  require (ltb 0 mode)
  (cursor, bytes, words) ←
      resolve_from ram handle (mode - 1) selection.payload_byte_offset (selection.word_length - 1)
  length ← reading (read_aggregate_payload_byte ram handle cursor)
  found (record {
    byte_length = length;
    data_byte_offset = cursor + 1;
    encoded_byte_length = bytes;
    word_length = words;
  })

-- A component of a typed field: packed, or of the size that the tag says.
abbrev pub packed_component : Ram → ℕ → Selection → ℕ → Tried Subfield
packed_component ram handle selection mode = do
  (cursor, bytes, words) ←
      resolve_from ram handle (mode - 1) selection.payload_byte_offset (selection.word_length - 2)
  found (record {
    byte_length = u8 (bytes - 1);
    data_byte_offset = cursor + 1;
    encoded_byte_length = bytes;
    word_length = words;
  })

abbrev pub fixed_component : Selection → ℕ → Tried Subfield
fixed_component selection mode = found (record {
  byte_length = selection.tag;
  data_byte_offset = selection.payload_byte_offset + (mode - 1) * ((selection.tag + 1) / 2) * 2;
  encoded_byte_length = selection.tag;
  word_length = (selection.tag + 1) / 2;
})

unfoldable pub try_resolve_ext37_typed_subfield : Ram → ℕ → Selection → ℕ → Tried Subfield
try_resolve_ext37_typed_subfield ram handle selection mode = do
  require (
      not (selection.component_count == 0) && not (mode == 0) && leb mode selection.component_count)
  if selection.tag == 0
      then packed_component ram handle selection mode
      else fixed_component selection mode

-- Whether a byte that is not 0 is read, at one of so many places.
unfoldable pub contains_non_zero : (ℕ → Option ℕ) → (left offset : ℕ) → Tried Bool
contains_non_zero bytes zero offset = found false
contains_non_zero bytes (suc left) offset = do
  byte ← reading (bytes offset)
  if byte == 0 then contains_non_zero bytes left (offset + 1) else found true

unfoldable pub can_write_ext37_destination : Ram → (destination_handle byte_length : ℕ) → Tried Bool
can_write_ext37_destination ram destination_handle byte_length =
    let room : Tried Bool = (do
      length ← reading (read_aggregate_word ram destination_handle 0)
      found (leb byte_length length)) in
    if is_usable_aggregate_handle destination_handle then room else found false

-- The walk over typed fields ends at one that cannot be measured.
unfoldable pub walk_from : Ram → (handle available_span left offset : ℕ) → Tried ℕ
walk_from ram handle available_span zero offset = found offset
walk_from ram handle available_span (suc left) offset =
    go_on (try_measure_ext37_typed_field ram handle offset (available_span - offset))
      (λ field. walk_from ram handle available_span left (offset + field.word_length))
  where
    go_on : Tried Selection → (Selection → Tried ℕ) → Tried ℕ
    go_on (found field) rest = rest field
    go_on absent rest = found offset
    go_on undefined rest = undefined

unfoldable pub compute_ext37_skip_offset :
    Ram → (handle available_span tag_selector skip_count : ℕ) → Tried ℕ
compute_ext37_skip_offset ram handle available_span tag_selector skip_count = do
  offset ← walk_from ram handle available_span tag_selector skip_count
  found (u16 offset)
