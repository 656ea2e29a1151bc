-- ===== src/Loader/Tables.antt =====
-- The tables of the MME file: `load_file`, `align_to_page`, `infer_initial_ram_size` and the first
-- half of `lpst_image_load` of src/LinchpinST/src/lpst_image.c.
use linchpin.Base.{
  ℕ, zero, suc, ◌+◌, ◌*◌, ◌/◌, ◌%◌, ◌^◌, Bool, ◌&&◌, ◌||◌, leb, ltb, ◌==◌, if◌then◌else◌, Array,
  List, [], ◌∷◌, ◌++◌, Option, none, some,
}
use linchpin.Loader.Result.{
  err_io, err_alloc, Outcome, ok, fails, undefined, Loading, return, ◌>>=◌, ◌>>◌, require, allocate,
  need_memory,
}
use linchpin.Loader.Header.{read_le16}
use linchpin.Loader.Modules.{of_outcome}

-- A file as the C library opens it. `tells` is its length, where `ftell` finds one.
pub record File : Type 0 where
  pub opens : Bool
  pub seeks_end : Bool
  pub tells : Option ℕ
  pub rewinds : Bool
  pub delivered : ℕ → ℕ
  pub bytes : Array ℕ

-- The bytes of a file with their number.
pub record Buffer : Type 0 where
  pub size : ℕ
  pub bytes : Array ℕ

-- The length of an open file.
abbrev pub told : Option ℕ → Loading ℕ
told none n = fails err_io
told (some size) n = ok (size, n)

-- The whole file in memory; every failure is reported as one of reading.
unfoldable pub load_file : (ℕ → Bool) → File → Loading Buffer
load_file malloc file = do
  require file.opens err_io
  require file.seeks_end err_io
  size ← told file.tells
  b ← allocate malloc
  require b err_io
  require (file.delivered size == size) err_io
  return (record { size = size; bytes = file.bytes })

unfoldable pub align_to_page : ℕ → ℕ
align_to_page value = (value + 0xFF) % 2 ^ 32 / 2 ^ 8 * 2 ^ 8

unfoldable pub infer_initial_ram_size : ℕ → ℕ → ℕ
infer_initial_ram_size raw available_bytes =
    if leb (raw * 2) available_bytes then raw * 2 else (if leb raw available_bytes then raw else 0)

abbrev pub max_modules : ℕ
max_modules = 16

abbrev pub header_byte_count : ℕ
header_byte_count = 96

-- `read_le16(&mme[cursor])`, which is not defined beyond the end of the buffer.
unfoldable pub word_at : Buffer → ℕ → Outcome ℕ
word_at mme cursor =
    if ltb (cursor + 1) mme.size then ok (read_le16 mme.bytes cursor) else undefined

-- `count` words from the cursor on.
unfoldable pub words_at : Buffer → ℕ → ℕ → Loading (List ℕ)
words_at mme cursor zero = return []
words_at mme cursor (suc count) = do
  word ← of_outcome (word_at mme cursor)
  words ← words_at mme (cursor + 2) count
  return (word ∷ words)

-- The globals of the modules, one after the other.
unfoldable pub module_globals_at : (ℕ → Bool) → Buffer → ℕ → List ℕ → Loading (List (List ℕ))
module_globals_at malloc mme cursor [] = return []
module_globals_at malloc mme cursor (count ∷ counts) =
    let some_globals : Loading (List ℕ) = (do need_memory malloc; words_at mme cursor count) in
    (do
      globals ← if ltb 0 count then some_globals else return []
      rest ← module_globals_at malloc mme (cursor + count * 2) counts
      return (globals ∷ rest))

-- The first pass over the module header table: the number of procedures of each module.
unfoldable pub proc_counts_at : Buffer → ℕ → ℕ → Loading (List ℕ)
proc_counts_at mme cursor zero = return []
proc_counts_at mme cursor (suc modules) = do
  count ← of_outcome (word_at mme cursor)
  counts ← proc_counts_at mme (cursor + 2 + count * 2) modules
  return (count ∷ counts)

-- The second pass: the offsets of the procedures.
unfoldable pub proc_offsets_at : Buffer → ℕ → ℕ → Loading (List ℕ)
proc_offsets_at mme cursor zero = return []
proc_offsets_at mme cursor (suc modules) = do
  count ← of_outcome (word_at mme cursor)
  offsets ← words_at mme (cursor + 2) count
  rest ← proc_offsets_at mme (cursor + 2 + count * 2) modules
  return (offsets ++ rest)

abbrev pub total : List ℕ → ℕ
total [] = 0
total (x ∷ xs) = x + total xs

-- A call of `calloc` whose failure matters only where something was asked for.
abbrev pub need_memory_for : (ℕ → Bool) → ℕ → Loading (Unit {0})
need_memory_for malloc count = do b ← allocate malloc; require (b || count == 0) err_alloc

pub record Tables : Type 0 where
  pub module_offset_pages : List ℕ
  pub program_globals : List ℕ
  pub module_globals : List (List ℕ)
  pub proc_counts : List ℕ
  pub proc_offsets : List ℕ

-- The tables behind the header and the module header table, for at most 16 modules.
unfoldable pub read_tables : (ℕ → Bool) → Buffer → ℕ → Loading Tables
read_tables malloc mme mod_hdr_offset = do
  found ← of_outcome (word_at mme header_byte_count)
  let module_count = if ltb max_modules found then max_modules else found
  let counts = header_byte_count + 2 + module_count * 2
  let globals = counts + 2 + module_count * 2
  pages ← words_at mme (header_byte_count + 2) module_count
  program_global_count ← of_outcome (word_at mme counts)
  module_global_counts ← words_at mme (counts + 2) module_count
  need_memory_for malloc program_global_count
  program_globals ← words_at mme globals program_global_count
  b ← allocate malloc
  c ← allocate malloc
  require (b && c || module_count == 0) err_alloc
  module_globals ←
      module_globals_at malloc mme (globals + program_global_count * 2) module_global_counts
  proc_counts ← proc_counts_at mme mod_hdr_offset module_count
  need_memory_for malloc (total proc_counts)
  proc_offsets ← proc_offsets_at mme mod_hdr_offset module_count
  return (record {
    module_offset_pages = pages;
    program_globals = program_globals;
    module_globals = module_globals;
    proc_counts = proc_counts;
    proc_offsets = proc_offsets;
  })
