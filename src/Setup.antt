-- ===== src/Setup.antt =====
-- The set-up of a machine: src/LinchpinST/src/lpst_vm.c, and the parts of
-- src/LinchpinST/src/lpst_exec.c that size the code cache and start the allocator. A `size_t` is
-- taken as wide enough for the sums of sizes that the code forms.
pub mod CachePages
pub mod Seed
pub mod Start
mod Tests
use linchpin.Base.{
  ℕ, zero, suc, ◌+◌, ◌-◌, ◌*◌, ◌/◌, ◌%◌, ◌^◌, Bool, true, false, ◌&&◌, ◌||◌, not, Option, none,
  some, ◌>>=◌, bit_or, ltb, leb, ◌==◌, if◌then◌else◌, u16, u32, Array, update, List, [], ◌∷◌,
}
use linchpin.Ram.{
  Ram, put, full_ram_bytes, segment_size_bytes, false_sentinel, ram_bank_index_for_offset,
  ram_bank_offset_for_offset,
}
use linchpin.Image.{Initializer}
use linchpin.Heap.{Memory}
use linchpin.Exec.{Frame}

abbrev pub tuple_stack_reserve_bytes : ℕ
tuple_stack_reserve_bytes = 0x400

unfoldable pub lpst_align_even : ℕ → ℕ
lpst_align_even value = value + 1 - (value + 1) % 2

-- The bank and the place in it, by `lpst_ram_ptr`, where the offset is one of the RAM.
unfoldable pub lpst_ram_ptr : ℕ → Option (ℕ × ℕ)
lpst_ram_ptr offset =
    if leb full_ram_bytes offset || leb 4 (offset / 0x8000)
    then none
    else some (offset / 0x8000, offset % 0x8000)

-- A write that fails returns false; `none` then, here and below.
unfoldable pub lpst_write_byte : Ram → ℕ → ℕ → Option Ram
lpst_write_byte ram offset value = do
  (bank, place) ← lpst_ram_ptr offset
  some (put ram bank place value)

unfoldable pub lpst_write_word : Ram → ℕ → ℕ → Option Ram
lpst_write_word ram offset value = do
  ram' ← lpst_write_byte ram offset (value % 256)
  lpst_write_byte ram' (offset + 1) (value / 256)

-- The loop of `lpst_fill_zero`, with so many bytes left.
unfoldable pub lpst_fill_zero : Ram → ℕ → ℕ → Option Ram
lpst_fill_zero ram offset zero = some ram
lpst_fill_zero ram offset (suc left) = do
  ram' ← lpst_write_byte ram offset 0
  lpst_fill_zero ram' (offset + 1) left

-- The loop of `lpst_copy_bytes` from an index on, with so many bytes left.
unfoldable pub copy_loop : Ram → ℕ → Array ℕ → ℕ → ℕ → Option Ram
copy_loop ram offset source zero index = some ram
copy_loop ram offset source (suc left) index = do
  ram' ← lpst_write_byte ram (offset + index) (source index)
  copy_loop ram' offset source left (index + 1)

unfoldable pub lpst_copy_bytes : Ram → ℕ → Array ℕ → ℕ → Option Ram
lpst_copy_bytes ram offset source length = copy_loop ram offset source length 0

-- The four words of an arena's header.
unfoldable pub write_header : Ram → ℕ → ℕ → ℕ → Option Ram
write_header ram offset handle size = do
  ram1 ← lpst_write_word ram offset 0
  ram2 ← lpst_write_word ram1 (offset + 2) handle
  ram3 ← lpst_write_word ram2 (offset + 6) handle
  lpst_write_word ram3 (offset + 8) size

unfoldable pub lpst_seed_arena : Ram → ℕ → ℕ → Option Ram
lpst_seed_arena ram arena_offset segment_extent_bytes =
    let segment_base = arena_offset - arena_offset % 0x10000 in
    let intra = arena_offset - segment_base in
    let handle = bit_or (if segment_base == 0 then 0 else 0x8000) (u16 (intra / 2)) in
    if ltb full_ram_bytes (arena_offset + 10) || ltb segment_extent_bytes (intra + 10)
    then none
    else write_header ram arena_offset (u16 (handle + 3)) (u16 (segment_extent_bytes - (intra + 8)))

-- The loop over the initializers, which ends at one that names no local.
unfoldable pub overlay : Array ℕ → ℕ → List Initializer → Bool × Array ℕ
overlay locals local_count [] = (true, locals)
overlay locals local_count (x ∷ initializers) =
    let rest = overlay (update locals x.local_index x.value) local_count initializers in
    if leb local_count x.local_index then (false, locals) else rest

unfoldable pub lpst_bootstrap_locals : Array ℕ → ℕ → List Initializer → Bool × Array ℕ
lpst_bootstrap_locals locals local_count initializers =
    overlay (λ i. if ltb i local_count then false_sentinel else locals i) local_count initializers

-- `initial_ram_bytes` is `none` where it is NULL.
unfoldable pub lpst_seed_initial_ram : Ram → Option (Array ℕ) → ℕ → Option Ram
lpst_seed_initial_ram ram none initial_ram_size = none
lpst_seed_initial_ram ram (some initial_ram_bytes) initial_ram_size =
    let seeded : Option Ram = (do
      ram1 ← lpst_fill_zero ram 0 full_ram_bytes
      ram2 ← lpst_copy_bytes ram1 0 initial_ram_bytes initial_ram_size
      ram3 ← lpst_seed_arena ram2 (lpst_align_even initial_ram_size) segment_size_bytes
      lpst_seed_arena ram3 segment_size_bytes (segment_size_bytes - tuple_stack_reserve_bytes)) in
    if ltb segment_size_bytes initial_ram_size then none else seeded

unfoldable pub lpst_initialize_frame : ℕ → ℕ → ℕ → ℕ → ℕ → Frame
lpst_initialize_frame module_id procedure_index procedure_start_offset code_offset local_count =
    record {
      module_id = module_id;
      procedure_index = procedure_index;
      procedure_start_offset = procedure_start_offset;
      code_offset = code_offset;
      local_count = local_count;
    }

-- The allocator's part of `lpst_exec_init`.
unfoldable pub initial_memory : Ram → ℕ → Memory
initial_memory ram initial_ram_size = record {
  ram = ram;
  next_low_arena_byte = u32 (initial_ram_size + 1 - (initial_ram_size + 1) % 2);
  next_high_arena_byte = segment_size_bytes;
  tuple_stack_byte = full_ram_bytes;
  tuple_stack_floor_byte = full_ram_bytes - tuple_stack_reserve_bytes;
  free_list = λ i. 0;
}

unfoldable pub compute_total_code_pages : ℕ → ℕ
compute_total_code_pages code_end_offset =
    if code_end_offset == 0 then 1 else (code_end_offset + 255) / 256

abbrev pub budget_of : ℕ → ℕ
budget_of available_bytes =
    if ltb 65536 available_bytes
    then (available_bytes - 65536) / 4
    else (if ltb 0 available_bytes then available_bytes / 4 else 0)

-- The slots that the budget buys: 128 where it buys none, at most one for each page, at least one.
abbrev pub clamped_entries : ℕ → ℕ → ℕ
clamped_entries bought total =
    let desired = if ltb bought 1 then 128 else bought in
    let wanted = if ltb total desired then total else desired in if ltb wanted 1 then 1 else wanted

-- `available_bytes` is what the operating system reports, `entry_bytes` the size of an entry.
unfoldable pub choose_code_cache_entry_count : (available_bytes entry_bytes code_end_offset : ℕ) → ℕ
choose_code_cache_entry_count available_bytes entry_bytes code_end_offset =
    clamped_entries (budget_of available_bytes / entry_bytes)
      (compute_total_code_pages code_end_offset)

-- The loop of `allocate_code_cache`: half as many after each `calloc` that fails. `calloc` says of
-- each call in turn whether so many entries can be had; the fuel is the first count.
unfoldable pub halving : (ℕ → ℕ → Bool) → ℕ → ℕ → ℕ → Option ℕ
halving calloc zero call entry_count = none
halving calloc (suc fuel) call entry_count =
    let half = entry_count / 2 in
    let rest = halving calloc fuel (call + 1) (if ltb half 1 then 1 else half) in
    if ltb entry_count 1
    then none
    else (if calloc call entry_count
        then some entry_count
        else (if entry_count == 1 then none else rest))

unfoldable pub allocate_code_cache :
    (ℕ → ℕ → Bool) → (available_bytes entry_bytes code_end_offset : ℕ) → Option ℕ
allocate_code_cache calloc available_bytes entry_bytes code_end_offset =
    let entry_count = choose_code_cache_entry_count available_bytes entry_bytes code_end_offset in
    halving calloc entry_count 0 entry_count
