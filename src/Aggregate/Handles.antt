-- ===== src/Aggregate/Handles.antt =====
-- Handles and byte offsets name the same words.
use linchpin.Base.{ℕ, ◌+◌, ◌/◌, ◌%◌, ◌<◌, ◌≡◌, ◌∙◌, arith, leb, if◌then◌else◌}
use linchpin.Base.Bits.{bit_or-shl, bit_or_comm}
use linchpin.Ram.{full_ram_bytes, segment_size_bytes}
use linchpin.Aggregate.{handle_to_byte_offset, encode_handle}

pub encode_handle-eq :
    (o : ℕ)
    → o < full_ram_bytes
    → encode_handle o ≡ (if leb segment_size_bytes o then 0x8000 else 0) + o % 0x10000 / 2
unfolding encode_handle
encode_handle-eq o lt = ground (
  arith,
  bit_or_comm 0x8000 (o % 0x10000 / 2),
  bit_or-shl 15 1 (o % 0x10000 / 2),
  bit_or_comm 0 (o % 0x10000 / 2),
  bit_or-shl 15 0 (o % 0x10000 / 2),
)

-- The handle of an even offset inside the RAM leads back to that offset.
pub handle_to_byte_offset-encode_handle :
    (o : ℕ) → o < full_ram_bytes → o % 2 ≡ 0 → handle_to_byte_offset (encode_handle o) ≡ o
unfolding handle_to_byte_offset
handle_to_byte_offset-encode_handle o lt even = ground (arith, encode_handle-eq o lt)

-- Every 16-bit handle stands for an even offset inside the RAM.
pub handle_to_byte_offset-lt :
    (h : ℕ)
    → h < 65536
    → (handle_to_byte_offset h + 1 < full_ram_bytes) × (handle_to_byte_offset h % 2 ≡ 0)
unfolding handle_to_byte_offset
handle_to_byte_offset-lt h lt = ground arith

-- The offset of a 16-bit handle has that handle.
pub encode_handle-handle_to_byte_offset :
    (h : ℕ) → h < 65536 → encode_handle (handle_to_byte_offset h) ≡ h
unfolding handle_to_byte_offset
encode_handle-handle_to_byte_offset h lt =
    encode_handle-eq (handle_to_byte_offset h) (ground arith) ∙ ground arith
