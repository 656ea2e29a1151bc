-- ===== src/Loader/Load/Accepted.antt =====
-- What `lpst_image_load` of src/LinchpinST/src/lpst_image.c promises of an image that it accepts.
use linchpin.Base.{
  ℕ, zero, suc, ◌+◌, ◌-◌, ◌*◌, ◌%◌, ◌^◌, ◌≤◌, ◌<◌, ◌≡◌, refl, ◌||◌, ltb, leb, not, ◌==◌, arith,
  Array, List, length, if◌then◌else◌, Bool, ap, ◌∙◌,
}
use linchpin.Image.{CodeModule}
use linchpin.Loader.Result.{
  err_obj_too_short, err_module_header_truncated, err_initial_ram_truncated, err_entry_out_of_range,
  ok, Ensures, then_with-Ensures, ok-Ensures, require-Ensures, both-Ensures, mono-Ensures,
  skip-Ensures, Ensures-ok,
}
use linchpin.Loader.Header.{read_le16}
use linchpin.Loader.Modules.{Disk, end_of}
use linchpin.Loader.Modules.Spans.{Tiles, parse_modules-Tiles, parse_modules-length}
use linchpin.Loader.Tables.{
  File, Buffer, load_file, align_to_page, infer_initial_ram_size, read_tables, words_at,
}
use linchpin.Loader.Load.{
  LoadedImage, header_word, code_end, entry_module, entry_procedure, mod_hdr, mod_hdr_end,
  check_header, ram_offset, ram_size, procedure_count, check_entry, lpst_image_load, initial_ram,
}

-- An image that the loader accepts, of the MME file: where its modules, its entry point and its
-- initial RAM lie.
pub record IsLoaded (file : File) (image : LoadedImage) : Type 0 where
  pub few : length image.modules ≤ 16
  pub start : ℕ
  pub tiles : Tiles 0 start image.code_end_offset image.obj_size image.modules
  pub inside : image.code_end_offset ≤ image.obj_size
  pub entry_module : (1 ≤ image.entry_module_id) × (image.entry_module_id ≤ length image.modules)
  pub entry_procedure :
      image.entry_procedure_index < procedure_count image.modules (image.entry_module_id - 1)
  pub ram_aligned : image.initial_ram_offset % 256 ≡ 0
  pub ram_behind :
      image.module_header_offset + image.module_header_length_words * 2 ≤ image.initial_ram_offset
  pub ram_some : 0 < image.initial_ram_size
  pub ram_fits : image.initial_ram_offset + image.initial_ram_size ≤ image.mme_size
  pub ram_bytes : (j : ℕ) → image.initial_ram_bytes j ≡ file.bytes (image.initial_ram_offset + j)

header_word-bound : (mme : Buffer) (i : ℕ) → header_word mme i < 65536
unfolding header_word read_le16
header_word-bound mme i = omega arith

align_to_page_lem :
    (v : ℕ)
    → v < 2 ^ 31
    → (align_to_page v % 256 ≡ 0) × (v ≤ align_to_page v) × (align_to_page v < v + 256)
unfolding align_to_page
align_to_page_lem v small = (omega arith, omega arith, omega arith)

infer_initial_ram_size-bound : (raw available : ℕ) → infer_initial_ram_size raw available ≤ raw * 2
unfolding infer_initial_ram_size
infer_initial_ram_size-bound raw available = ground (arith)

load_file-Ensures :
    (malloc : ℕ → Bool) (file : File) (n : ℕ)
    → Ensures (λ mme. ◌≡◌ {A = Array ℕ} mme.bytes file.bytes) (load_file malloc file n)
unfolding load_file
load_file-Ensures malloc file n = skip-Ensures _ λ _ n1. skip-Ensures _ λ _ n2.
    skip-Ensures _ λ size n3.
      skip-Ensures _ λ b n4. skip-Ensures _ λ _ n5. skip-Ensures _ λ _ n6. ok-Ensures refl

check_header-Ensures :
    (mme : Buffer) (obj_size n : ℕ)
    → Ensures
        (λ _. (code_end mme ≤ obj_size) × (mod_hdr_end mme ≤ mme.size))
        (check_header mme obj_size n)
unfolding check_header
check_header-Ensures mme obj_size n = skip-Ensures _ λ _ n1.
    then_with-Ensures (require-Ensures (leb (code_end mme) obj_size) err_obj_too_short n1)
      λ _ n2 code.
        mono-Ensures (λ _ hdr. (ground (arith), ground (arith)))
          (require-Ensures (leb (mod_hdr_end mme) mme.size) err_module_header_truncated n2)

words_at-length :
    (mme : Buffer) (cursor count n : ℕ)
    → Ensures (λ ws. length ws ≡ count) (words_at mme cursor count n)
unfolding words_at
words_at-length mme cursor zero n = ok-Ensures refl
words_at-length mme cursor (suc count) n = skip-Ensures _ λ w n1.
    then_with-Ensures (words_at-length mme (cursor + 2) count n1)
      λ ws n2 same. ok-Ensures (ap suc same)

read_tables-Ensures :
    (malloc : ℕ → Bool) (mme : Buffer) (hdr n : ℕ)
    → Ensures (λ t. length t.module_offset_pages ≤ 16) (read_tables malloc mme hdr n)
unfolding read_tables
read_tables-Ensures malloc mme hdr n = skip-Ensures _ λ found n1.
    let small : (if ltb 16 found then 16 else found) ≤ 16 = ground (arith) in
    then_with-Ensures (words_at-length mme _ _ n1) λ pages n2 same. skip-Ensures _ λ _ n3.
      skip-Ensures _ λ _ n4. skip-Ensures _ λ _ n5. skip-Ensures _ λ _ n6. skip-Ensures _ λ _ n7.
        skip-Ensures _ λ _ n8. skip-Ensures _ λ _ n9. skip-Ensures _ λ _ n10.
          skip-Ensures _
            λ _ n11. skip-Ensures _ λ _ n12. skip-Ensures _ λ _ n13. ok-Ensures (rw same small)

ram_place : (mme : Buffer) → (ram_offset mme % 256 ≡ 0) × (mod_hdr_end mme ≤ ram_offset mme)
ram_place mme =
    let pages = header_word-bound mme 13 in
    let words = header_word-bound mme 15 in
    let (aligned, behind, _) = align_to_page_lem (mod_hdr_end mme) (omega arith) in
    (aligned, behind)

initial_ram-Ensures :
    (malloc : ℕ → Bool) (mme : Buffer) (n : ℕ)
    → Ensures
        (λ ram.
          (0 < ram_size mme)
          × (ram_offset mme + ram_size mme ≤ mme.size)
          × ((j : ℕ) → ram j ≡ mme.bytes (ram_offset mme + j)))
        (initial_ram malloc mme n)
initial_ram-Ensures malloc mme n =
    let pages = header_word-bound mme 13 in
    let words = header_word-bound mme 15 in
    let fits = align_to_page_lem (mod_hdr_end mme) (omega arith) in
    let small =
      infer_initial_ram_size-bound (header_word mme 11)
        ((mme.size + 2 ^ 64 - ram_offset mme) % 2 ^ 64) in
    let word = header_word-bound mme 11 in
    then_with-Ensures
      (require-Ensures
        (not (ram_size mme == 0 || ltb mme.size ((ram_offset mme + ram_size mme) % 2 ^ 64)))
        err_initial_ram_truncated n)
      λ _ n1 test. skip-Ensures _ λ _ n2. ok-Ensures (ground arith, ground arith, λ j. refl)

check_entry-Ensures :
    (mme : Buffer) (modules : List CodeModule) (n : ℕ)
    → Ensures
        (λ _.
          (1 ≤ entry_module mme)
          × (entry_module mme ≤ length modules)
          × (entry_procedure mme < procedure_count modules (entry_module mme - 1)))
        (check_entry mme modules n)
unfolding check_entry
check_entry-Ensures mme modules n =
    then_with-Ensures
      (require-Ensures (not (ltb (entry_module mme) 1 || ltb (length modules) (entry_module mme)))
        err_entry_out_of_range n)
      λ _ n1 there.
        mono-Ensures (λ _ inside. (ground arith, ground arith, ground arith))
          (require-Ensures
            (ltb (entry_procedure mme) (procedure_count modules (entry_module mme - 1)))
            err_entry_out_of_range n1)

-- An image that loading returns has at most 16 modules, which begin at pages and lie one behind the
-- other up to the end of the code inside the object file. Each of their procedures starts before the
-- end of its module, has its code at an offset no further than that end, has at most 127 locals and
-- 64 initializers, and is recorded as ending where the next one starts, the last one at the module's
-- length modulo 65536. The entry point is a procedure of one of the modules, and the initial RAM is a
-- nonempty slice of the MME file that begins at a page behind the module header table.
pub lpst_image_load-IsLoaded :
    (disk : Disk) (mme_file obj_file : File) (n : ℕ) {image : LoadedImage} {n' : ℕ}
    → lpst_image_load disk mme_file obj_file n ≡ ok (image, n')
    → IsLoaded mme_file image
unfolding lpst_image_load
lpst_image_load-IsLoaded disk mme_file obj_file n is =
    Ensures-ok
      (then_with-Ensures (load_file-Ensures disk.malloc mme_file n) λ mme n1 same.
        skip-Ensures _ λ obj_size n2.
          then_with-Ensures (check_header-Ensures mme obj_size n2) λ _ n3 (code, hdr).
            then_with-Ensures (read_tables-Ensures disk.malloc mme (mod_hdr mme) n3) λ t n4 few.
              then_with-Ensures
                (both-Ensures
                  (parse_modules-Tiles disk obj_size (code_end mme) t.module_offset_pages
                    t.proc_offsets t.proc_counts n4)
                  (parse_modules-length disk obj_size (code_end mme) t.module_offset_pages
                    t.proc_offsets t.proc_counts n4))
                λ ms n5 (tiles, count).
                  then_with-Ensures (initial_ram-Ensures disk.malloc mme n5)
                    λ ram n6 (some_ram, fits, slice).
                      then_with-Ensures (check_entry-Ensures mme ms n6) λ _ n7 (first, last, proc).
                        ok-Ensures {P = IsLoaded mme_file} (record {
                          few = rw count few;
                          start = end_of (code_end mme) t.module_offset_pages;
                          tiles = tiles;
                          inside = code;
                          entry_module = (first, last);
                          entry_procedure = proc;
                          ram_aligned = (ram_place mme).0;
                          ram_behind = (ram_place mme).1;
                          ram_some = some_ram;
                          ram_fits = fits;
                          ram_bytes = λ j. slice j ∙ ap (λ b. b (ram_offset mme + j)) same;
                        }))
      is
