-- ===== src/Aggregate/Tests.antt =====
-- Examples for the theorems on aggregates.
use linchpin.Base.{◌+◌, ◌*◌, ◌%◌, ◌≡◌, refl, some, ◌==◌, if◌then◌else◌, arith}
use linchpin.Ram.{Ram}
use linchpin.Aggregate.{
  handle_to_byte_offset, encode_handle, read_aggregate_word, write_aggregate_word,
}
use linchpin.Aggregate.Handles.{handle_to_byte_offset-encode_handle}
use linchpin.Aggregate.Laws.{IsBytes, read_aggregate_word-write_aggregate_word}

abbrev sample_ram : Ram
sample_ram b i = (b * 7 + i) % 256

sample_ram-IsBytes : IsBytes sample_ram
sample_ram-IsBytes p = omega arith

handle_to_byte_offset-encode_handle_example :
    handle_to_byte_offset (encode_handle 0x10004) ≡ 0x10004
handle_to_byte_offset-encode_handle_example =
    handle_to_byte_offset-encode_handle 0x10004 (omega arith) refl

read_aggregate_word-write_aggregate_word_example :
    (ram' : Ram) × (write_aggregate_word sample_ram 0x8002 1 0xabcd ≡ some ram')
    × IsBytes ram'
    × (read_aggregate_word ram' 0x8002 3
        ≡ (if 3 == 1 then some 0xabcd else read_aggregate_word sample_ram 0x8002 3))
unfolding handle_to_byte_offset
read_aggregate_word-write_aggregate_word_example =
    read_aggregate_word-write_aggregate_word sample_ram 0x8002 1 3 0xabcd sample_ram-IsBytes
      (omega arith) (omega arith) (omega arith)
