-- ===== src/Loader/Modules.antt =====
-- The module and procedure records: `load_module_bytes` and `parse_modules` of
-- src/LinchpinST/src/lpst_image.c.
pub mod Spans
use linchpin.Base.{
  ℕ, zero, suc, ◌+◌, ◌-◌, ◌*◌, ◌%◌, Bool, true, false, ◌&&◌, leb, ltb, ◌==◌, if◌then◌else◌, u16,
  Array, List, [], ◌∷◌, get_elem?, Option, none, some,
}
use linchpin.Image.{Initializer, Procedure, ProcHeader, CodeModule, Image}
use linchpin.Cache.{ObjFile}
use linchpin.Loader.Result.{
  LoadError, err_io, err_alloc, err_module_span_invalid, err_procedure_out_of_range, Outcome, ok,
  fails, undefined, Loading, return, ◌>>=◌, ◌>>◌, require, allocate, need_memory,
}
use linchpin.Loader.Header.{parse_procedure_header}

-- The C library as the loader uses it.
pub record Disk : Type 0 where
  pub malloc : ℕ → Bool
  pub obj : ObjFile

-- An entry of a table, 0 beyond its end.
abbrev pub entry : List ℕ → ℕ → ℕ
entry [] i = 0
entry (x ∷ xs) zero = x
entry (x ∷ xs) (suc i) = entry xs i

-- A module of no bytes has no buffer; no byte of it is read.
unfoldable pub load_module_bytes : Disk → ℕ → ℕ → Loading (Array ℕ)
load_module_bytes disk module_offset module_length =
    let loaded : Loading (Array ℕ) = (do
      b ← allocate disk.malloc
      require b err_io
      require (disk.obj.seeks module_offset) err_io
      require (disk.obj.delivered module_offset module_length == module_length) err_io
      return (λ j. disk.obj.content (module_offset + j))) in
    if module_length == 0 then return (λ j. 0) else loaded

abbrev pub of_outcome {ℓ} : {A : Type ℓ} → Outcome A → Loading A
of_outcome (ok a) n = ok (a, n)
of_outcome (fails e) n = fails e
of_outcome undefined n = undefined

-- Memory for the initializers of a procedure, if it has any.
abbrev pub keep_initializers : (ℕ → Bool) → List Initializer → Loading (Unit {0})
keep_initializers malloc [] = return tt
keep_initializers malloc (x ∷ xs) = need_memory malloc

-- Procedure `j` at its offset; `upper_bound` is where the next one starts, or the module ends.
unfoldable pub parse_procedure : Disk → Array ℕ → ℕ → ℕ → ℕ → ℕ → Loading Procedure
parse_procedure disk bytes module_length j proc_off upper_bound = do
  require (ltb proc_off module_length) err_procedure_out_of_range
  header ← of_outcome (parse_procedure_header bytes module_length proc_off)
  keep_initializers disk.malloc header.initializers
  return (record {
    exported_index = j;
    start_offset = proc_off;
    code_offset = u16 (proc_off + header.header_size);
    upper_bound = upper_bound;
    local_count = header.local_count;
    initializers = header.initializers;
  })

-- The procedures from `j` on, `left` of them, of the offsets that begin at `base` in the table.
unfoldable pub parse_procedures : Disk → Array ℕ → ℕ → List ℕ → ℕ → ℕ → ℕ → Loading (List Procedure)
parse_procedures disk bytes module_length offsets base j zero = return []
parse_procedures disk bytes module_length offsets base j (suc left) = do
  p ←
      parse_procedure disk bytes module_length j (entry offsets (base + j))
        (if ltb 0 left then entry offsets (base + j + 1) else u16 module_length)
  ps ← parse_procedures disk bytes module_length offsets base (j + 1) left
  return (p ∷ ps)

-- The memory and the bytes that the procedures need, if there are any.
abbrev pub procedure_bytes : Disk → ℕ → ℕ → ℕ → Loading (Array ℕ)
procedure_bytes disk proc_count mod_offset mod_length =
    let loaded : Loading (Array ℕ) = (do
      need_memory disk.malloc
      load_module_bytes disk mod_offset mod_length) in
    if ltb 0 proc_count then loaded else return (λ j. 0)

-- Module `i`, from its offset to that of the next.
unfoldable pub parse_module :
    Disk
    → (obj_size i mod_offset next_offset : ℕ) → List ℕ
    → (base proc_count : ℕ) → Loading CodeModule
parse_module disk obj_size i mod_offset next_offset offsets base proc_count = do
  require (leb mod_offset next_offset && leb next_offset obj_size) err_module_span_invalid
  bytes ← procedure_bytes disk proc_count mod_offset (next_offset - mod_offset)
  procedures ← parse_procedures disk bytes (next_offset - mod_offset) offsets base 0 proc_count
  return (record {
    module_id = u16 (i + 1);
    object_offset = mod_offset;
    length = next_offset - mod_offset;
    procedures = procedures;
  })

-- Where the module after one on the page ends up, or the code ends.
abbrev pub end_of : ℕ → List ℕ → ℕ
end_of code_end [] = code_end
end_of code_end (page ∷ pages) = page * 0x100

-- The loop over the modules, from module `i` on, whose first pages are listed; their procedures'
-- offsets begin at `base`.
unfoldable pub parse_from :
    Disk
    → (obj_size code_end i : ℕ) → (pages offsets : List ℕ) → ℕ
    → List ℕ
    → Loading (List CodeModule)
parse_from disk obj_size code_end i [] offsets base counts = return []
parse_from disk obj_size code_end i (page ∷ pages) offsets base counts = do
  m ←
      parse_module disk obj_size i (page * 0x100) (end_of code_end pages) offsets base
        (entry counts i)
  ms ← parse_from disk obj_size code_end (i + 1) pages offsets (base + entry counts i) counts
  return (m ∷ ms)

unfoldable pub parse_modules :
    Disk
    → (obj_size code_end : ℕ) → (module_offset_pages proc_offset_table proc_counts : List ℕ)
    → Loading (List CodeModule)
parse_modules disk obj_size code_end module_offset_pages proc_offset_table proc_counts = do
  need_memory disk.malloc
  parse_from disk obj_size code_end 0 module_offset_pages proc_offset_table 0 proc_counts
