-- ===== src/Loader/Load.antt =====
-- Loading an image: `lpst_image_load` of src/LinchpinST/src/lpst_image.c, from the opened files to
-- the checked entry point. The paths that it keeps are not modelled here.
pub mod Accepted
pub mod Short
pub mod Runs
use linchpin.Base.{
  ℕ, zero, suc, ◌+◌, ◌-◌, ◌*◌, ◌/◌, ◌%◌, ◌^◌, Bool, true, false, ◌&&◌, ◌||◌, leb, ltb, ◌==◌, not,
  if◌then◌else◌, Array, List, [], ◌∷◌, length, Option, none, some,
}
use linchpin.Image.{Procedure, CodeModule}
use linchpin.Loader.Result.{
  LoadError, err_io, err_mme_too_small, err_obj_too_short, err_module_header_truncated,
  err_initial_ram_truncated, err_entry_out_of_range, err_alloc, Outcome, Loading, return, ◌>>=◌,
  ◌>>◌, require, need_memory,
}
use linchpin.Loader.Header.{read_le16}
use linchpin.Loader.Modules.{Disk, parse_modules}
use linchpin.Loader.Tables.{
  File, Buffer, told, load_file, align_to_page, infer_initial_ram_size, header_byte_count, Tables,
  read_tables,
}

-- `lpst_image`. A count of the source is the length of its list.
pub record LoadedImage : Type 0 where
  pub mme_size : ℕ
  pub obj_size : ℕ
  pub header_words : Array ℕ
  pub code_end_offset : ℕ
  pub entry_module_id : ℕ
  pub entry_procedure_index : ℕ
  pub module_header_offset : ℕ
  pub module_header_length_words : ℕ
  pub program_globals : List ℕ
  pub module_globals : List (List ℕ)
  pub modules : List CodeModule
  pub initial_ram_offset : ℕ
  pub initial_ram_size : ℕ
  pub initial_ram_bytes : Array ℕ

-- The object file, opened and measured.
unfoldable pub open_obj : File → Loading ℕ
open_obj file = do
  require file.opens err_io
  require file.seeks_end err_io
  size ← told file.tells
  require file.rewinds err_io
  return size

-- The words of the header, and what they say.
unfoldable pub header_word : Buffer → ℕ → ℕ
header_word mme i = read_le16 mme.bytes (i * 2)

abbrev pub code_end : Buffer → ℕ
code_end mme = (header_word mme 7 + 1) * 0x200

abbrev pub entry_module : Buffer → ℕ
entry_module mme = header_word mme 8 / 2 ^ 8

abbrev pub entry_procedure : Buffer → ℕ
entry_procedure mme = header_word mme 8 % 2 ^ 8

abbrev pub mod_hdr : Buffer → ℕ
mod_hdr mme = header_word mme 13 * 0x100

abbrev pub mod_hdr_end : Buffer → ℕ
mod_hdr_end mme = mod_hdr mme + header_word mme 15 * 2

-- The sizes that the header says fit the two files.
unfoldable pub check_header : Buffer → ℕ → Loading (Unit {0})
check_header mme obj_size = do
  require (not (ltb mme.size header_byte_count)) err_mme_too_small
  require (leb (code_end mme) obj_size) err_obj_too_short
  require (leb (mod_hdr_end mme) mme.size) err_module_header_truncated

-- Where the initial RAM begins, and how long it is. What is left of the file is a `size_t`.
abbrev pub ram_offset : Buffer → ℕ
ram_offset mme = align_to_page (mod_hdr_end mme)

abbrev pub ram_size : Buffer → ℕ
ram_size mme =
    infer_initial_ram_size (header_word mme 11) ((mme.size + 2 ^ 64 - ram_offset mme) % 2 ^ 64)

abbrev pub initial_ram : (ℕ → Bool) → Buffer → Loading (Array ℕ)
initial_ram malloc mme = do
  require (not (ram_size mme == 0 || ltb mme.size ((ram_offset mme + ram_size mme) % 2 ^ 64)))
      err_initial_ram_truncated
  need_memory malloc
  return (λ j. mme.bytes (ram_offset mme + j))

-- The number of procedures of `modules[i]`.
abbrev pub procedure_count : List CodeModule → ℕ → ℕ
procedure_count [] i = 0
procedure_count (m ∷ ms) zero = length m.procedures
procedure_count (m ∷ ms) (suc i) = procedure_count ms i

unfoldable pub check_entry : Buffer → List CodeModule → Loading (Unit {0})
check_entry mme modules = do
  require (not (ltb (entry_module mme) 1 || ltb (length modules) (entry_module mme)))
      err_entry_out_of_range
  require (ltb (entry_procedure mme) (procedure_count modules (entry_module mme - 1)))
      err_entry_out_of_range

unfoldable pub lpst_image_load : Disk → (mme_file obj_file : File) → Loading LoadedImage
lpst_image_load disk mme_file obj_file = do
  mme ← load_file disk.malloc mme_file
  obj_size ← open_obj obj_file
  check_header mme obj_size
  tables ← read_tables disk.malloc mme (mod_hdr mme)
  modules ←
      parse_modules disk obj_size (code_end mme) tables.module_offset_pages tables.proc_offsets
        tables.proc_counts
  ram ← initial_ram disk.malloc mme
  check_entry mme modules
  return (record {
    mme_size = mme.size;
    obj_size = obj_size;
    header_words = header_word mme;
    code_end_offset = code_end mme;
    entry_module_id = entry_module mme;
    entry_procedure_index = entry_procedure mme;
    module_header_offset = mod_hdr mme;
    module_header_length_words = header_word mme 15;
    program_globals = tables.program_globals;
    module_globals = tables.module_globals;
    modules = modules;
    initial_ram_offset = ram_offset mme;
    initial_ram_size = ram_size mme;
    initial_ram_bytes = ram;
  })
