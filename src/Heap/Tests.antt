-- ===== src/Heap/Tests.antt =====
-- Examples for the theorems on the allocator.
use linchpin.Base.{ℕ, ◌+◌, ◌≡◌, ◌⊎◌, inl, inr, refl, some, [], ◌∷◌, arith}
use linchpin.Ram.{clear, zero_loop, zero_ram_bytes, false_sentinel}
use linchpin.Aggregate.{handle_to_byte_offset, encode_handle}
use linchpin.Ram.Access.{byte_at}
use linchpin.Ram.Zero.{zeroed}
use linchpin.Heap.{Memory, size_of, allocate_vector, allocate_tuple, release_vector, pop_tuple}
use linchpin.Heap.Invariant.{IsHeap}
use linchpin.Heap.Alloc.{Vector, Tuple, allocate_vector-Vector, allocate_tuple-Tuple}
use linchpin.Heap.Live.{Blocks, IsLive, allocate_vector-IsLive, release_vector-IsLive}
use linchpin.Heap.Reuse.{
  allocate_vector-release_vector, pop_tuple-allocate_tuple, allocate_vector-false_sentinel,
}

-- 32 bytes of the low arena are handed out.
abbrev sample_heap : Memory
sample_heap = record {
  ram = λ b i. 0;
  next_low_arena_byte = 0x20;
  next_high_arena_byte = 0x10000;
  tuple_stack_byte = 0x20000;
  tuple_stack_floor_byte = 0x1fc00;
  free_list = λ i. 0;
}

sample_heap-IsHeap : IsHeap sample_heap
sample_heap-IsHeap = record {
  low = omega arith;
  low_even = refl;
  high = omega arith;
  high_even = refl;
  high_floor = omega arith;
  floor_top = omega arith;
  top = omega arith;
  top_even = refl;
  freed = λ i lt used. absurd (used refl);
}

-- Four words at 0x10, the vector with handle 8, and four at 0.
abbrev sample_blocks : Blocks
sample_blocks = (0x10, 8) ∷ (0, 8) ∷ []

sample_blocks-IsLive : IsLive sample_heap sample_blocks
sample_blocks-IsLive = record {
  used = ((refl, inl (omega arith)), ((refl, inl (omega arith)), tt));
  disjoint = ((inr (omega arith), tt), (tt, tt));
  free = λ i lt used. absurd (used refl);
  slots = λ i j lt lt' differ used used'. absurd (used refl);
}

allocate_vector-IsLive_example :
    (handle : ℕ) × (after : Memory) × (allocate_vector sample_heap 5 ≡ some (handle, after))
    × (IsLive after ((handle_to_byte_offset handle, size_of 5) ∷ sample_blocks)
        ⊎ ((handle ≡ false_sentinel) × (after ≡ sample_heap)))
allocate_vector-IsLive_example =
    allocate_vector-IsLive sample_heap 5 sample_blocks sample_heap-IsHeap (omega arith)
      sample_blocks-IsLive

release_vector-IsLive_example : IsLive (release_vector sample_heap 8 4) ((0, 8) ∷ [])
unfolding handle_to_byte_offset
release_vector-IsLive_example =
    release_vector-IsLive sample_heap 8 4 ((0, 8) ∷ []) (omega arith) sample_blocks-IsLive

allocate_vector-Vector_example : Vector sample_heap 5 (allocate_vector sample_heap 5)
allocate_vector-Vector_example =
    allocate_vector-Vector sample_heap 5 sample_heap-IsHeap (omega arith)

allocate_tuple-Tuple_example : Tuple sample_heap (size_of 3) (allocate_tuple sample_heap 3)
allocate_tuple-Tuple_example = allocate_tuple-Tuple sample_heap 3 sample_heap-IsHeap

allocate_vector-release_vector_example :
    (after : Memory) × (allocate_vector (release_vector sample_heap 8 4) 4 ≡ some (8, after))
    × (after.next_low_arena_byte ≡ sample_heap.next_low_arena_byte)
    × (after.next_high_arena_byte ≡ sample_heap.next_high_arena_byte)
    × (after.tuple_stack_byte ≡ sample_heap.tuple_stack_byte)
    × (after.tuple_stack_floor_byte ≡ sample_heap.tuple_stack_floor_byte)
    × ((i : ℕ) → after.free_list i ≡ sample_heap.free_list i)
    × ((p : ℕ) → byte_at after.ram p ≡ zeroed sample_heap.ram 0x10 8 p)
unfolding handle_to_byte_offset
allocate_vector-release_vector_example =
    allocate_vector-release_vector sample_heap 8 4 (omega arith) (ground arith) (ground arith)
      (omega arith) (omega arith) (omega arith) refl

-- The heap after a tuple of one word.
abbrev tupled_heap : Memory
tupled_heap = record sample_heap { ram = clear (λ b i. 0) 3 0x7ffe 2; tuple_stack_byte = 0x1fffe }

pop_tuple-allocate_tuple_example : (pop_tuple tupled_heap 1).tuple_stack_byte ≡ 0x20000
unfolding allocate_tuple encode_handle zero_ram_bytes zero_loop
pop_tuple-allocate_tuple_example =
    pop_tuple-allocate_tuple sample_heap tupled_heap 0xffff 1 sample_heap-IsHeap refl (ground arith)

-- The low arena is full, and one word of the high arena is handed out.
abbrev full_heap : Memory
full_heap = record sample_heap { next_low_arena_byte = 0x10000; next_high_arena_byte = 0x10002 }

full_heap-IsHeap : IsHeap full_heap
full_heap-IsHeap = record {
  low = omega arith;
  low_even = refl;
  high = omega arith;
  high_even = refl;
  high_floor = omega arith;
  floor_top = omega arith;
  top = omega arith;
  top_even = refl;
  freed = λ i lt used. absurd (used refl);
}

allocate_vector-false_sentinel_example :
    (after : Memory) × (allocate_vector full_heap 5 ≡ some (false_sentinel, after))
    × (after.next_high_arena_byte ≡ 0x10002 + size_of 5)
allocate_vector-false_sentinel_example =
    allocate_vector-false_sentinel full_heap 5 full_heap-IsHeap refl (omega arith) refl
      (omega arith)
