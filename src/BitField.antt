-- ===== src/BitField.antt =====
-- Bit fields of aggregate words: src/LinchpinST/src/lpst_run_dispatch_bits.c. A 16-bit `&` with a
-- complement `~m` is `&` with `65535 - m`, since the other operand has 16 bits.
pub mod Laws
pub mod RoundTrip
mod Tests
use linchpin.Base.{
  ℕ, ◌+◌, ◌-◌, ◌*◌, ◌/◌, ◌%◌, ◌^◌, Bool, not, Option, some, ◌>>=◌, bit_and, bit_or, ◌==◌,
  if◌then◌else◌, u16,
}
use linchpin.Ram.{Ram}
use linchpin.Aggregate.{read_aggregate_word, write_aggregate_word}

-- `(control_word >> 12) & 0x0F`
abbrev pub shift_of : ℕ → ℕ
shift_of control_word = control_word / 2 ^ 12 % 16

-- `(control_word >> 8) & 0x0F`
abbrev pub width_of : ℕ → ℕ
width_of control_word = control_word / 2 ^ 8 % 16

unfoldable pub value_mask : ℕ → ℕ
value_mask width = if width == 0 then 0 else u16 (1 * 2 ^ width - 1)

-- The value that `extract_bit_field_core` takes out of `word`.
unfoldable pub extracted : ℕ → ℕ → ℕ
extracted word control_word =
    u16 (bit_and (word / 2 ^ shift_of control_word) (value_mask (width_of control_word)))

-- The word that `replace_bit_field_core` stores in place of `word`.
unfoldable pub replaced : ℕ → ℕ → ℕ → ℕ
replaced word control_word value =
    let shift = shift_of control_word in
    let mask = value_mask (width_of control_word) in
    let word_mask = u16 (mask * 2 ^ shift) in
    u16 (bit_or (bit_and word (65535 - word_mask)) (bit_and value mask * 2 ^ shift))

-- The word that `replace_single_bit_core` stores in place of `word`.
unfoldable pub with_bit : ℕ → ℕ → ℕ
with_bit word control_word =
    let bit_number = shift_of control_word in
    let bit_value = not (control_word / 2 ^ 8 % 2 == 0) in
    let mask = u16 (1 * 2 ^ bit_number) in
    if bit_value then u16 (bit_or word mask) else u16 (bit_and word (65535 - mask))

unfoldable pub extract_bit_field_core : Ram → ℕ → ℕ → ℕ → Option ℕ
extract_bit_field_core ram handle word_index control_word = do
  word ← read_aggregate_word ram handle word_index
  some (extracted word control_word)

unfoldable pub extract_bit_field : Ram → ℕ → ℕ → Option ℕ
unfolding extract_bit_field_core
extract_bit_field ram handle control_word =
    extract_bit_field_core ram handle (control_word % 256) control_word

unfoldable pub extract_bit_field_from_local : Ram → ℕ → ℕ → Option ℕ
unfolding extract_bit_field_core
extract_bit_field_from_local ram handle control_word =
    extract_bit_field_core ram handle (control_word % 16) control_word

unfoldable pub replace_bit_field_core : Ram → ℕ → ℕ → ℕ → ℕ → Option Ram
replace_bit_field_core ram handle word_index control_word value = do
  word ← read_aggregate_word ram handle word_index
  write_aggregate_word ram handle word_index (replaced word control_word value)

unfoldable pub replace_bit_field : Ram → ℕ → ℕ → ℕ → Option Ram
unfolding replace_bit_field_core
replace_bit_field ram handle control_word value =
    replace_bit_field_core ram handle (control_word % 256) control_word value

unfoldable pub replace_bit_field_in_local : Ram → ℕ → ℕ → ℕ → Option Ram
unfolding replace_bit_field_core
replace_bit_field_in_local ram handle control_word value =
    replace_bit_field_core ram handle (control_word % 16) control_word value

unfoldable pub replace_single_bit_core : Ram → ℕ → ℕ → ℕ → Option Ram
replace_single_bit_core ram handle word_index control_word = do
  word ← read_aggregate_word ram handle word_index
  write_aggregate_word ram handle word_index (with_bit word control_word)

unfoldable pub replace_single_bit : Ram → ℕ → ℕ → Option Ram
unfolding replace_single_bit_core
replace_single_bit ram handle control_word =
    replace_single_bit_core ram handle (control_word % 256) control_word

unfoldable pub replace_single_bit_in_local : Ram → ℕ → ℕ → Option Ram
unfolding replace_single_bit_core
replace_single_bit_in_local ram handle control_word =
    replace_single_bit_core ram handle (control_word % 16) control_word
