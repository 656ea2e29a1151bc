-- ===== src/Heap/Alloc.antt =====
-- What the two allocators hand out, on every branch.
use linchpin.Base.{
  ℕ, ◌+◌, ◌-◌, ◌≤◌, ◌<◌, ◌≡◌, ◌≢◌, ◌⊎◌, inl, inr, refl, Option, some, ◌>>=◌, arith, leb, update,
  Bool-cases,
}
use linchpin.Ram.{Ram, full_ram_bytes, false_sentinel}
use linchpin.Ram.Access.{byte_at}
use linchpin.Ram.Zero.{zeroed, zero_ram_bytes-Holds}
use linchpin.Aggregate.{handle_to_byte_offset, encode_handle}
use linchpin.Aggregate.Handles.{handle_to_byte_offset-encode_handle}
use linchpin.Heap.{Memory, size_of, zeroing, free_list_buckets, allocate_vector, allocate_tuple}
use linchpin.Heap.Invariant.{
  IsUsed, IsHeap, Source, from_free_list, from_low_arena, from_high_arena, exhausted, source,
  IsHeap-ram,
}

-- The block `[offset, offset + n)` has been handed out: the handle names it, its bytes are 0, and
-- no other byte of the RAM has changed.
pub record Granted (m : Memory) (n handle : ℕ) (after : Memory) : Type 0 where
  pub offset : ℕ
  pub fits : offset + n ≤ full_ram_bytes
  pub encoded : handle ≡ encode_handle offset
  pub names : handle_to_byte_offset handle ≡ offset
  pub cleared : (p : ℕ) → byte_at after.ram p ≡ zeroed m.ram offset n p

-- Where `allocate_vector` took the block at `o` from, and what of the allocator's fields changed.
pub data Taken (m after : Memory) (word_count o : ℕ) : Type 0 where
  slot :
      0 < word_count
      → word_count ≤ free_list_buckets
      → o ≢ 0
      → o ≡ m.free_list (word_count - 1)
      → after.free_list ≡ update m.free_list (word_count - 1) 0
      → after.next_low_arena_byte ≡ m.next_low_arena_byte
      → after.next_high_arena_byte ≡ m.next_high_arena_byte
      → Taken m after word_count o
  low_arena :
      o ≡ m.next_low_arena_byte
      → after.next_low_arena_byte ≡ o + size_of word_count
      → after.next_high_arena_byte ≡ m.next_high_arena_byte
      → after.free_list ≡ m.free_list
      → Taken m after word_count o
  high_arena :
      o ≡ m.next_high_arena_byte
      → after.next_high_arena_byte ≡ o + size_of word_count
      → after.next_low_arena_byte ≡ m.next_low_arena_byte
      → after.free_list ≡ m.free_list
      → Taken m after word_count o

-- `allocate` has granted a block of `n` bytes that an arena has handed out, or has refused with
-- `LPST_FALSE_SENTINEL` and changed nothing.
pub record Vector (m : Memory) (wc : ℕ) (allocate : Option (ℕ × Memory)) : Type 0 where
  pub handle : ℕ
  pub after : Memory
  pub made : allocate ≡ some (handle, after)
  pub heap : IsHeap after
  pub tuples : after.tuple_stack_byte ≡ m.tuple_stack_byte
  pub outcome :
      ((g : Granted m (size_of wc) handle after) × IsUsed after g.offset (size_of wc)
        × Taken m after wc g.offset)
      ⊎ ((handle ≡ false_sentinel) × (after ≡ m))

-- The source of a block does not depend on the contents of the RAM.
Taken-ram :
    {m after : Memory} {wc o : ℕ} (ram : Ram)
    → Taken m after wc o
    → Taken m (record after { ram = ram }) wc o
Taken-ram ram (slot a b c d e f g) = slot a b c d e f g
Taken-ram ram (low_arena a b c d) = low_arena a b c d
Taken-ram ram (high_arena a b c d) = high_arena a b c d

module _ (m : Memory) (wc : ℕ) (h : IsHeap m) (word : wc < 65536) where
  grant :
      (taken : Memory) (o : ℕ)
      → taken.ram ≡ m.ram
      → IsHeap taken
      → taken.tuple_stack_byte ≡ m.tuple_stack_byte
      → IsUsed taken o (size_of wc)
      → Taken m taken wc o
      → allocate_vector m wc ≡ (zeroing taken o (size_of wc) >>= λ m'. some (encode_handle o, m'))
      → Vector m wc (allocate_vector m wc)
  grant taken o same heap tuples used from by =
      let n = size_of wc in
      let fits : o + n ≤ full_ram_bytes =
        ground (arith, heap.low, heap.high_floor, heap.floor_top, heap.top) in
      let inside : o < full_ram_bytes = ground (arith, heap.low) in
      let z = zero_ram_bytes-Holds taken.ram o n fits in
      record {
        handle = encode_handle o;
        after = record taken { ram = z.ram };
        made = ground (arith, z.made);
        heap = IsHeap-ram z.ram heap;
        tuples = tuples;
        outcome = inl (
          record {
            offset = o;
            fits = fits;
            encoded = refl;
            names = handle_to_byte_offset-encode_handle o inside (ground arith);
            cleared = λ p. ground (arith, z.bytes p);
          },
          used,
          Taken-ram z.ram from,
        );
      }

  by_source : Source m wc → Vector m wc (allocate_vector m wc)
  by_source (from_free_list pos small hit) =
      grant (record m { free_list = update m.free_list (wc - 1) 0 }) (m.free_list (wc - 1)) refl
        (record {
          low = h.low;
          low_even = h.low_even;
          high = h.high;
          high_even = h.high_even;
          high_floor = h.high_floor;
          floor_top = h.floor_top;
          top = h.top;
          top_even = h.top_even;
          freed = λ i lt ne. ground (arith, h.freed i lt);
        })
        refl (ground (arith, h.freed (wc - 1))) (slot pos small hit refl refl refl refl)
        (unfold allocate_vector in ground arith)
  by_source (from_low_arena miss fits) =
      grant (record m { next_low_arena_byte = m.next_low_arena_byte + size_of wc })
        m.next_low_arena_byte refl
        (record {
          low = fits;
          low_even = omega (arith, h.low_even);
          high = h.high;
          high_even = h.high_even;
          high_floor = h.high_floor;
          floor_top = h.floor_top;
          top = h.top;
          top_even = h.top_even;
          freed = λ i lt ne. ground (arith, h.freed i lt ne);
        })
        refl (ground (arith, h.low_even)) (low_arena refl refl refl refl)
        (unfold allocate_vector in ground (arith, h.low))
  by_source (from_high_arena miss full fits) =
      grant (record m { next_high_arena_byte = m.next_high_arena_byte + size_of wc })
        m.next_high_arena_byte refl
        (record {
          low = h.low;
          low_even = h.low_even;
          high = omega (arith, h.high);
          high_even = omega (arith, h.high_even);
          high_floor = fits;
          floor_top = h.floor_top;
          top = h.top;
          top_even = h.top_even;
          freed = λ i lt ne. ground (arith, h.freed i lt ne);
        })
        refl (ground (arith, h.high_even, h.high)) (high_arena refl refl refl refl)
        (unfold allocate_vector in ground (arith, h.low, h.high_floor, h.floor_top, h.top))
  by_source (exhausted miss full over) = record {
    handle = false_sentinel;
    after = m;
    made = unfold allocate_vector in ground (arith, h.low, h.high_floor, h.floor_top, h.top);
    heap = h;
    tuples = refl;
    outcome = inr (refl, refl);
  }

-- On a heap that meets the invariant and for every 16-bit word count, `allocate_vector` reaches no
-- byte outside the RAM and keeps the invariant and the tuple stack. Either it grants a block of
-- `size_of word_count` bytes out of what the arenas have handed out, whose bytes are then 0 while
-- all others are as before, or it refuses with `LPST_FALSE_SENTINEL` and changes nothing.
pub allocate_vector-Vector :
    (m : Memory) (word_count : ℕ)
    → IsHeap m
    → word_count < 65536
    → Vector m word_count (allocate_vector m word_count)
allocate_vector-Vector m word_count h word = by_source m word_count h word (source m word_count)

-- `allocate` has granted the block just below the tuple stack, or has refused with
-- `LPST_FALSE_SENTINEL` and changed nothing.
pub record Tuple (m : Memory) (n : ℕ) (allocate : Option (ℕ × Memory)) : Type 0 where
  pub handle : ℕ
  pub after : Memory
  pub made : allocate ≡ some (handle, after)
  pub heap : IsHeap after
  pub outcome :
      (Granted m n handle after
        × (after.tuple_stack_byte + n ≡ m.tuple_stack_byte)
        × (m.tuple_stack_floor_byte ≤ after.tuple_stack_byte))
      ⊎ ((handle ≡ false_sentinel)
          × (after ≡ m)
          × (m.tuple_stack_byte < m.tuple_stack_floor_byte + n))

module _ (m : Memory) (wc : ℕ) (h : IsHeap m) where
  tuple_refused :
      m.tuple_stack_byte < m.tuple_stack_floor_byte + size_of wc
      → allocate_tuple m wc ≡ some (false_sentinel, m)
  unfolding allocate_tuple
  tuple_refused over = ground arith

  Tuple-granted :
      m.tuple_stack_floor_byte + size_of wc ≤ m.tuple_stack_byte
      → Tuple m (size_of wc) (allocate_tuple m wc)
  unfolding allocate_tuple
  Tuple-granted room =
      let n = size_of wc in
      let top = m.tuple_stack_byte - n in
      let z = zero_ram_bytes-Holds m.ram top n (omega (arith, h.top)) in
      let above : m.next_high_arena_byte ≤ top = omega (arith, h.high_floor) in
      record {
        handle = encode_handle top;
        after = record m { tuple_stack_byte = top; ram = z.ram };
        made = ground (arith, z.made);
        heap = record {
          low = h.low;
          low_even = h.low_even;
          high = h.high;
          high_even = h.high_even;
          high_floor = h.high_floor;
          floor_top = omega arith;
          top = omega (arith, h.top);
          top_even = omega (arith, h.top_even);
          freed = h.freed;
        };
        outcome = inl (
          record {
            offset = top;
            fits = omega (arith, h.top);
            encoded = refl;
            names =
                handle_to_byte_offset-encode_handle top (ground (arith, h.top))
                  (omega (arith, h.top_even));
            cleared = z.bytes;
          },
          omega arith,
          omega arith,
        );
      }

-- On a heap that meets the invariant `allocate_tuple` reaches no byte outside the RAM and keeps the
-- invariant. It grants the `size_of word_count` bytes below the tuple stack, cleared, when they lie
-- above the floor, and otherwise refuses with `LPST_FALSE_SENTINEL` and changes nothing.
pub allocate_tuple-Tuple :
    (m : Memory) (word_count : ℕ)
    → IsHeap m
    → Tuple m (size_of word_count) (allocate_tuple m word_count)
allocate_tuple-Tuple m wc h =
    elim (Bool-cases (leb (m.tuple_stack_floor_byte + size_of wc) m.tuple_stack_byte)) [
      | inl room ↦ Tuple-granted m wc h (ground arith)
      | inr over ↦
          let short : m.tuple_stack_byte < m.tuple_stack_floor_byte + size_of wc = ground arith in
          record {
            handle = false_sentinel;
            after = m;
            made = tuple_refused m wc h short;
            heap = h;
            outcome = inr (refl, refl, short);
          }
    ]
