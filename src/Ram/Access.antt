-- ===== src/Ram/Access.antt =====
-- The flat view of the four banks, and what one access does in it.
use linchpin.Base.{ℕ, ◌/◌, ◌%◌, ◌≤◌, ◌<◌, ◌≡◌, Option, none, some, arith, ◌==◌, if◌then◌else◌}
use linchpin.Ram.{
  Ram, full_ram_bytes, ram_bank_index_for_offset, ram_bank_offset_for_offset, read_ram_byte, put,
  write_ram_byte,
}

-- The byte at an absolute offset.
abbrev pub byte_at : Ram → ℕ → ℕ
byte_at ram offset = ram (offset / 0x8000) (offset % 0x8000)

-- `ram'` holds `f` at every offset, and `op` made it.
pub record Holds (op : Option Ram) (f : ℕ → ℕ) : Type 0 where
  pub ram : Ram
  pub made : op ≡ some ram
  pub bytes : (p : ℕ) → byte_at ram p ≡ f p

pub read_ram_byte-eq :
    (ram : Ram) (o : ℕ) → o < full_ram_bytes → read_ram_byte ram o ≡ some (byte_at ram o)
unfolding read_ram_byte
read_ram_byte-eq ram o lt = ground arith

pub read_ram_byte-outside : (ram : Ram) (o : ℕ) → full_ram_bytes ≤ o → read_ram_byte ram o ≡ none
unfolding read_ram_byte
read_ram_byte-outside ram o le = ground arith

pub write_ram_byte-Holds :
    (ram : Ram) (o v : ℕ)
    → o < full_ram_bytes
    → Holds (write_ram_byte ram o v) (λ p. if p == o then v else byte_at ram p)
unfolding write_ram_byte
write_ram_byte-Holds ram o v lt = record {
  ram = put ram (ram_bank_index_for_offset o) (ram_bank_offset_for_offset o) v;
  made = ground arith;
  bytes = λ p. ground arith;
}
