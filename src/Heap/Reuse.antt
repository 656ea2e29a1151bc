-- ===== src/Heap/Reuse.antt =====
-- Giving blocks back: `release_vector` and TPOP.
use linchpin.Base.{ap, ℕ, ◌+◌, ◌-◌, ◌*◌, ◌≤◌, ◌<◌, ◌≡◌, ◌≢◌, refl, false, some, arith, update}
use linchpin.Ram.{full_ram_bytes, segment_size_bytes, false_sentinel}
use linchpin.Ram.Access.{byte_at}
use linchpin.Ram.Zero.{zeroed, zero_ram_bytes-Holds}
use linchpin.Aggregate.{handle_to_byte_offset, encode_handle}
use linchpin.Aggregate.Handles.{encode_handle-handle_to_byte_offset}
use linchpin.Heap.{
  Memory, size_of, cached, free_list_buckets, allocate_vector, allocate_tuple, release_vector,
  pop_tuple,
}
use linchpin.Heap.Invariant.{IsUsed, IsHeap}
use linchpin.Heap.Alloc.{allocate_tuple-Tuple}

-- Releasing a block that an arena has handed out keeps the invariant.
pub release_vector-IsHeap :
    (m : Memory) (handle word_count : ℕ)
    → IsHeap m
    → IsUsed m (handle_to_byte_offset handle) (word_count * 2)
    → IsHeap (release_vector m handle word_count)
unfolding release_vector
release_vector-IsHeap m handle wc h used = record {
  low = ground (arith, h.low);
  low_even = ground (arith, h.low_even);
  high = ground (arith, h.high);
  high_even = ground (arith, h.high_even);
  high_floor = ground (arith, h.high_floor);
  floor_top = ground (arith, h.floor_top);
  top = ground (arith, h.top);
  top_even = ground (arith, h.top_even);
  freed = λ i lt hit. ground (arith, h.freed i lt);
}

-- A released vector of 1 to 64 words, whose size had no freed block, is what the next request of
-- that size gets: the same handle. The arenas, the tuple stack, its floor and the free list are then
-- those of before the release, the bytes of the block are 0, and every other byte of the RAM is as
-- before.
pub allocate_vector-release_vector :
    (m : Memory) (handle word_count : ℕ)
    → handle < 65536
    → handle ≢ false_sentinel
    → handle_to_byte_offset handle ≢ 0
    → handle_to_byte_offset handle + word_count * 2 ≤ full_ram_bytes
    → 0 < word_count
    → word_count ≤ free_list_buckets
    → m.free_list (word_count - 1) ≡ 0
    → (after : Memory) × (allocate_vector (release_vector m handle word_count) word_count
        ≡ some (handle, after))
      × (after.next_low_arena_byte ≡ m.next_low_arena_byte)
      × (after.next_high_arena_byte ≡ m.next_high_arena_byte)
      × (after.tuple_stack_byte ≡ m.tuple_stack_byte)
      × (after.tuple_stack_floor_byte ≡ m.tuple_stack_floor_byte)
      × ((i : ℕ) → after.free_list i ≡ m.free_list i)
      × ((p : ℕ)
          → byte_at after.ram p ≡ zeroed m.ram (handle_to_byte_offset handle) (word_count * 2) p)
unfolding release_vector allocate_vector
allocate_vector-release_vector m handle wc word real nonzero fits pos small empty =
    let o = handle_to_byte_offset handle in
    let z = zero_ram_bytes-Holds m.ram o (wc * 2) fits in
    (
      record m { ram = z.ram; free_list = update (update m.free_list (wc - 1) o) (wc - 1) 0 },
      ground (arith, z.made, encode_handle-handle_to_byte_offset handle word),
      refl,
      refl,
      refl,
      refl,
      λ i. ground arith,
      z.bytes,
    )

-- TPOP of a tuple's word count takes the tuple stack back to where it stood before the tuple was
-- allocated, when the allocation succeeded on a heap that meets the invariant.
pub pop_tuple-allocate_tuple :
    (m after : Memory) (handle word_count : ℕ)
    → IsHeap m
    → allocate_tuple m word_count ≡ some (handle, after)
    → handle ≢ false_sentinel
    → (pop_tuple after word_count).tuple_stack_byte ≡ m.tuple_stack_byte
unfolding pop_tuple
pop_tuple-allocate_tuple m after handle wc h made real =
    let t = allocate_tuple-Tuple m wc h in ground (arith, t.made, t.outcome, h.top)

sentinel_offset : encode_handle (segment_size_bytes + 2) ≡ false_sentinel
unfolding encode_handle
sentinel_offset = refl

-- A fault of the handle coding: with the low arena full and the high arena one word into its
-- segment, a vector that still fits is taken from the arena, but its handle is
-- `LPST_FALSE_SENTINEL`, which the callers read as out of memory.
pub allocate_vector-false_sentinel :
    (m : Memory) (word_count : ℕ)
    → IsHeap m
    → cached m word_count ≡ false
    → segment_size_bytes < m.next_low_arena_byte + size_of word_count
    → m.next_high_arena_byte ≡ segment_size_bytes + 2
    → m.next_high_arena_byte + size_of word_count ≤ m.tuple_stack_floor_byte
    → (after : Memory) × (allocate_vector m word_count ≡ some (false_sentinel, after))
      × (after.next_high_arena_byte ≡ m.next_high_arena_byte + size_of word_count)
unfolding allocate_vector
allocate_vector-false_sentinel m wc h miss full at_two fits =
    let z =
      zero_ram_bytes-Holds m.ram m.next_high_arena_byte (size_of wc)
        (omega (arith, h.floor_top, h.top)) in
    (
      record m { ram = z.ram; next_high_arena_byte = m.next_high_arena_byte + size_of wc },
      ground (arith, z.made, ap encode_handle at_two, sentinel_offset, h.low, h.floor_top, h.top),
      refl,
    )
