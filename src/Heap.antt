-- ===== src/Heap.antt =====
-- The allocator: `allocate_vector`, `allocate_tuple` and `release_vector` of
-- src/LinchpinST/src/lpst_run_runtime.c, and the reclaiming of a tuple by the TPOP instruction of
-- lpst_run_dispatch.c. `none` is an access outside the RAM banks.
pub mod Invariant
pub mod Alloc
pub mod Reuse
pub mod Live
mod Tests
use linchpin.Base.{
  ℕ, ◌+◌, ◌-◌, ◌*◌, Bool, ◌&&◌, ◌||◌, not, Option, some, ◌>>=◌, ltb, leb, ◌==◌, if◌then◌else◌, u32,
  Array, update,
}
use linchpin.Ram.{Ram, full_ram_bytes, segment_size_bytes, false_sentinel, zero_ram_bytes}
use linchpin.Aggregate.{handle_to_byte_offset, encode_handle}

abbrev pub free_list_buckets : ℕ
free_list_buckets = 64

-- The RAM with the allocator's fields of `lpst_exec_state`. `free_list` holds the byte offset of a
-- freed block for each size, and 0 for none.
pub record Memory : Type 0 where
  pub ram : Ram
  pub next_low_arena_byte : ℕ
  pub next_high_arena_byte : ℕ
  pub tuple_stack_byte : ℕ
  pub tuple_stack_floor_byte : ℕ
  pub free_list : Array ℕ

-- `byte_size` of a request.
abbrev pub size_of : ℕ → ℕ
size_of word_count = (if ltb 0 word_count then word_count else 1) * 2

-- `zero_ram_bytes` on the state's RAM.
abbrev pub zeroing : Memory → ℕ → ℕ → Option Memory
zeroing m offset byte_count = do
  ram ← zero_ram_bytes m.ram offset byte_count
  some (record m { ram = ram })

-- Whether the free list has a block of the size.
abbrev pub cached : Memory → ℕ → Bool
cached m word_count =
    ltb 0 word_count && leb word_count free_list_buckets && not (m.free_list (word_count - 1) == 0)

unfoldable pub allocate_vector : Memory → ℕ → Option (ℕ × Memory)
allocate_vector m word_count =
    let byte_size = size_of word_count in
    let from_free_list = do
      m' ←
          zeroing (record m { free_list = update m.free_list (word_count - 1) 0 })
            (m.free_list (word_count - 1)) byte_size
      some (encode_handle (m.free_list (word_count - 1)), m')
    in let from_low_arena = do
      m' ←
          zeroing (record m { next_low_arena_byte = u32 (m.next_low_arena_byte + byte_size) })
            m.next_low_arena_byte byte_size
      some (encode_handle m.next_low_arena_byte, m')
      in let from_high_arena = do
        m' ←
            zeroing (record m { next_high_arena_byte = u32 (m.next_high_arena_byte + byte_size) })
              m.next_high_arena_byte byte_size
        some (encode_handle m.next_high_arena_byte, m')
        in if cached m word_count
          then from_free_list
          else (if leb (u32 (m.next_low_arena_byte + byte_size)) segment_size_bytes
              then from_low_arena
              else (if leb (u32 (m.next_high_arena_byte + byte_size)) m.tuple_stack_floor_byte
                  then from_high_arena
                  else some (false_sentinel, m)))

unfoldable pub allocate_tuple : Memory → ℕ → Option (ℕ × Memory)
allocate_tuple m word_count =
    let byte_size = size_of word_count in
    let new_top = m.tuple_stack_byte - byte_size in
    let allocated = do
      m' ← zeroing (record m { tuple_stack_byte = new_top }) new_top byte_size
      some (encode_handle new_top, m')
    in if ltb m.tuple_stack_byte byte_size
      then some (false_sentinel, m)
      else (if ltb new_top m.tuple_stack_floor_byte then some (false_sentinel, m) else allocated)

unfoldable pub release_vector : Memory → ℕ → ℕ → Memory
release_vector m handle word_count =
    if (handle == false_sentinel) || (word_count == 0)
    then m
    else (if leb word_count free_list_buckets && (m.free_list (word_count - 1) == 0)
        then record m {
          free_list = update m.free_list (word_count - 1) (handle_to_byte_offset handle);
        }
        else m)

-- TPOP: the extended opcode 0x1C, after its word count is popped.
unfoldable pub pop_tuple : Memory → ℕ → Memory
pop_tuple m word_count =
    let raised = u32 (m.tuple_stack_byte + size_of word_count) in
    record m { tuple_stack_byte = if ltb full_ram_bytes raised then full_ram_bytes else raised }
