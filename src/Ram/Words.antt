-- ===== src/Ram/Words.antt =====
-- 16-bit words in the RAM, low byte first.
use linchpin.Base.{ℕ, ◌+◌, ◌/◌, ◌%◌, ◌*◌, ◌<◌, ◌≡◌, some, arith, ◌==◌, if◌then◌else◌, u8}
use linchpin.Base.Bits.{bit_or-shl}
use linchpin.Ram.{Ram, full_ram_bytes, read_ram_word, write_ram_word}
use linchpin.Ram.Access.{byte_at, Holds, read_ram_byte-eq, write_ram_byte-Holds}

-- The word at `o`, as a number.
abbrev pub word_at : Ram → ℕ → ℕ
word_at ram o = byte_at ram o + 256 * byte_at ram (o + 1)

-- The bytes of `ram`, but for the word `v` at `o`.
abbrev pub with_word : Ram → ℕ → ℕ → ℕ → ℕ
with_word ram o v p = if p == o then v % 256 else (if p == o + 1 then v / 256 else byte_at ram p)

pub read_ram_word-eq :
    (ram : Ram) (o : ℕ)
    → o + 1 < full_ram_bytes
    → byte_at ram o < 256
    → byte_at ram (o + 1) < 256
    → read_ram_word ram o ≡ some (word_at ram o)
unfolding read_ram_word
read_ram_word-eq ram o lt lo hi = ground (
  arith,
  read_ram_byte-eq ram o,
  read_ram_byte-eq ram (o + 1),
  bit_or-shl 8 (byte_at ram (o + 1)) (byte_at ram o),
)

pub write_ram_word-Holds :
    (ram : Ram) (o v : ℕ)
    → o + 1 < full_ram_bytes
    → v < 65536
    → Holds (write_ram_word ram o v) (with_word ram o v)
unfolding write_ram_word
write_ram_word-Holds ram o v lt small =
    let first = write_ram_byte-Holds ram o (v % 256) (omega arith) in
    let second = write_ram_byte-Holds first.ram (o + 1) (u8 (v / 256)) lt in
    record {
      ram = second.ram;
      made = ground (arith, first.made, second.made);
      bytes = λ p. ground (arith, first.bytes p, second.bytes p);
    }
