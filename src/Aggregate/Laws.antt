-- ===== src/Aggregate/Laws.antt =====
-- What is written to a word of an aggregate is read back, and no other word changes.
use linchpin.Base.{ℕ, ◌+◌, ◌*◌, ◌<◌, ◌≡◌, some, arith, ◌==◌, if◌then◌else◌}
use linchpin.Ram.{Ram, full_ram_bytes}
use linchpin.Ram.Access.{byte_at}
use linchpin.Ram.Words.{word_at, read_ram_word-eq, write_ram_word-Holds}
use linchpin.Aggregate.{handle_to_byte_offset, read_aggregate_word, write_aggregate_word}

-- Every cell of the RAM is a byte.
abbrev pub IsBytes : Ram → Type 0
IsBytes ram = (p : ℕ) → byte_at ram p < 256

-- The word lies inside the RAM.
abbrev pub InRam : ℕ → ℕ → Type 0
InRam h i = handle_to_byte_offset h + i * 2 + 1 < full_ram_bytes

-- `write_aggregate_word` of a 16-bit value inside the RAM succeeds, `read_aggregate_word` then
-- returns that value at its index, and what it returned before at every other index of the same
-- aggregate inside the RAM; all cells are still bytes.
pub read_aggregate_word-write_aggregate_word :
    (ram : Ram) (h i j v : ℕ)
    → IsBytes ram
    → InRam h i
    → InRam h j
    → v < 65536
    → (ram' : Ram) × (write_aggregate_word ram h i v ≡ some ram')
      × IsBytes ram'
      × (read_aggregate_word ram' h j ≡ (if j == i then some v else read_aggregate_word ram h j))
unfolding read_aggregate_word write_aggregate_word
read_aggregate_word-write_aggregate_word ram h i j v bytes at_i at_j small =
    let base = handle_to_byte_offset h in
    let w = write_ram_word-Holds ram (base + i * 2) v at_i small in
    let here = base + j * 2 in
    (
      w.ram,
      ground (arith, w.made),
      λ p. ground (arith, w.bytes p, bytes p),
      ground (
        arith,
        read_ram_word-eq w.ram here at_j,
        read_ram_word-eq ram here at_j (bytes here) (bytes (here + 1)),
        w.bytes here,
        w.bytes (here + 1),
        bytes here,
        bytes (here + 1),
      ),
    )

-- A word inside the RAM is read, and has 16 bits.
pub read_aggregate_word-lt :
    (ram : Ram) (h i : ℕ)
    → IsBytes ram
    → InRam h i
    → (v : ℕ) × (read_aggregate_word ram h i ≡ some v) × (v < 65536)
unfolding read_aggregate_word
read_aggregate_word-lt ram h i bytes inside =
    let o = handle_to_byte_offset h + i * 2 in
    (
      word_at ram o,
      ground (arith, read_ram_word-eq ram o inside (bytes o) (bytes (o + 1))),
      omega (arith, bytes o, bytes (o + 1)),
    )
