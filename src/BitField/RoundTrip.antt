-- ===== src/BitField/RoundTrip.antt =====
-- Putting a field into an aggregate word and taking it out again, through the RAM.
use linchpin.Base.{ℕ, ◌+◌, ◌%◌, ◌^◌, ◌≤◌, ◌≡◌, ◌≢◌, some, arith}
use linchpin.Ram.{Ram}
use linchpin.Aggregate.{read_aggregate_word}
use linchpin.Aggregate.Laws.{
  IsBytes, InRam, read_aggregate_word-lt, read_aggregate_word-write_aggregate_word,
}
use linchpin.BitField.{shift_of, width_of, replaced, extract_bit_field, replace_bit_field}
use linchpin.BitField.Laws.{replaced-lt, extracted-replaced}

-- With the word inside the RAM and the field inside the word, `replace_bit_field` succeeds;
-- `extract_bit_field` with the same control word then returns the value cut to the field's width,
-- every other word of the aggregate reads as before, and all cells are still bytes.
pub extract_bit_field-replace_bit_field :
    (ram : Ram) (h control value j : ℕ)
    → IsBytes ram
    → InRam h (control % 256)
    → shift_of control + width_of control ≤ 16
    → InRam h j
    → j ≢ control % 256
    → (ram' : Ram) × (replace_bit_field ram h control value ≡ some ram')
      × IsBytes ram'
      × (extract_bit_field ram' h control ≡ some (value % 2 ^ width_of control))
      × (read_aggregate_word ram' h j ≡ read_aggregate_word ram h j)
unfolding extract_bit_field replace_bit_field
extract_bit_field-replace_bit_field ram h control value j bytes inside narrow at_j other =
    let i = control % 256 in
    let (word, read, small) = read_aggregate_word-lt ram h i bytes inside in
    let new = replaced word control value in
    let (ram', written, bytes', back) =
      read_aggregate_word-write_aggregate_word ram h i i new bytes inside inside
        (replaced-lt word control value) in
    let (ram2, written2, _, kept) =
      read_aggregate_word-write_aggregate_word ram h i j new bytes inside at_j
        (replaced-lt word control value) in
    (
      ram',
      rw read written,
      bytes',
      ground (arith, extracted-replaced word control value narrow),
      ground arith,
    )
