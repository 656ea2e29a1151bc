-- ===== src/Heap/Invariant.antt =====
-- The allocator's invariant, and that every operation keeps it.
use linchpin.Base.{
  ℕ, ◌+◌, ◌-◌, ◌*◌, ◌%◌, ◌≤◌, ◌<◌, ◌≡◌, ◌≢◌, ◌⊎◌, inl, inr, arith, leb, Bool-cases, true, false,
}
use linchpin.Ram.{Ram, full_ram_bytes, segment_size_bytes}
use linchpin.Heap.{Memory, size_of, cached, free_list_buckets}

-- `[o, o + n)` has been handed out by an arena: it is even, and lies below the arena's next byte.
abbrev pub IsUsed : Memory → ℕ → ℕ → Type 0
IsUsed m o n =
    (o % 2 ≡ 0)
    × ((o + n ≤ m.next_low_arena_byte)
        ⊎ ((segment_size_bytes ≤ o) × (o + n ≤ m.next_high_arena_byte)))

-- The arenas and the tuple stack lie in their parts of the RAM, in order, at even offsets, and each
-- block of the free list has been handed out by an arena.
pub record IsHeap (m : Memory) : Type 0 where
  pub low : m.next_low_arena_byte ≤ segment_size_bytes
  pub low_even : m.next_low_arena_byte % 2 ≡ 0
  pub high : segment_size_bytes ≤ m.next_high_arena_byte
  pub high_even : m.next_high_arena_byte % 2 ≡ 0
  pub high_floor : m.next_high_arena_byte ≤ m.tuple_stack_floor_byte
  pub floor_top : m.tuple_stack_floor_byte ≤ m.tuple_stack_byte
  pub top : m.tuple_stack_byte ≤ full_ram_bytes
  pub top_even : m.tuple_stack_byte % 2 ≡ 0
  pub freed :
      (i : ℕ) → i < free_list_buckets → m.free_list i ≢ 0 → IsUsed m (m.free_list i) ((i + 1) * 2)

-- Which way `allocate_vector` goes.
pub data Source (m : Memory) (word_count : ℕ) : Type 0 where
  from_free_list :
      0 < word_count
      → word_count ≤ free_list_buckets
      → m.free_list (word_count - 1) ≢ 0
      → Source m word_count
  from_low_arena :
      cached m word_count ≡ false
      → m.next_low_arena_byte + size_of word_count ≤ segment_size_bytes
      → Source m word_count
  from_high_arena :
      cached m word_count ≡ false
      → segment_size_bytes < m.next_low_arena_byte + size_of word_count
      → m.next_high_arena_byte + size_of word_count ≤ m.tuple_stack_floor_byte
      → Source m word_count
  exhausted :
      cached m word_count ≡ false
      → segment_size_bytes < m.next_low_arena_byte + size_of word_count
      → m.tuple_stack_floor_byte < m.next_high_arena_byte + size_of word_count
      → Source m word_count

cached-cases :
    (m : Memory) (wc : ℕ)
    → cached m wc ≡ true
    → (0 < wc) × (wc ≤ free_list_buckets) × (m.free_list (wc - 1) ≢ 0)
cached-cases m wc h = ground arith

pub source : (m : Memory) (wc : ℕ) → Source m wc
source m wc = elim (Bool-cases (cached m wc)) [
  | inl hit ↦ let (a, b, c) = cached-cases m wc hit in from_free_list a b c
  | inr miss ↦ elim (Bool-cases (leb (m.next_low_arena_byte + size_of wc) segment_size_bytes)) [
    | inl fits ↦ from_low_arena miss (ground arith)
    | inr full ↦
        elim (Bool-cases (leb (m.next_high_arena_byte + size_of wc) m.tuple_stack_floor_byte)) [
          | inl fits ↦ from_high_arena miss (ground arith) (ground arith)
          | inr out ↦ exhausted miss (ground arith) (ground arith)
        ]
  ]
]

-- The invariant says nothing of the contents of the RAM.
pub IsHeap-ram : {m : Memory} (ram : Ram) → IsHeap m → IsHeap (record m { ram = ram })
IsHeap-ram ram h = record {
  low = h.low;
  low_even = h.low_even;
  high = h.high;
  high_even = h.high_even;
  high_floor = h.high_floor;
  floor_top = h.floor_top;
  top = h.top;
  top_even = h.top_even;
  freed = h.freed;
}
