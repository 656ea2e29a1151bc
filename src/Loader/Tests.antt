-- ===== src/Loader/Tests.antt =====
-- Examples for the theorems on the loader: a program of one module with one procedure, in an MME
-- file of 514 bytes and an object file of one page.
use linchpin.Base.{
  ℕ, ◌-◌, ◌/◌, ◌%◌, ◌≡◌, refl, true, some, [], ◌∷◌, arith, Array, ◌==◌, ltb, if◌then◌else◌,
}
use linchpin.Instr.Run.{lpst_run}
use linchpin.Instr.Bounded.Steps.{StaysBounded, outside}
use linchpin.Instr.Samples.{sample_machine, sample_state-IsBounded}
use linchpin.Loader.Load.Runs.{environment, lpst_run-lpst_image_load}
use linchpin.Loader.Result.{then_with, Outcome, ok, fails, undefined}
use linchpin.Loader.Header.{parse_procedure_header, parse_initializers, read_le16}
use linchpin.Loader.Header.RoundTrip.{short, long, parse_procedure_header-encode_header}
use linchpin.Loader.Modules.{
  Disk, entry, parse_modules, parse_from, parse_module, load_module_bytes, parse_procedures,
  parse_procedure,
}
use linchpin.Loader.Tables.{
  File, load_file, read_tables, word_at, words_at, module_globals_at, proc_counts_at,
  proc_offsets_at, align_to_page, infer_initial_ram_size,
}
use linchpin.Loader.Load.{
  LoadedImage, open_obj, check_header, check_entry, header_word, lpst_image_load,
}
use linchpin.Loader.Load.Accepted.{IsLoaded, lpst_image_load-IsLoaded}
use linchpin.Loader.Load.Short.{lpst_image_load-undefined}

abbrev sample_bytes : Array ℕ
sample_bytes i = entry (5 ∷ 9 ∷ 9 ∷ 132 ∷ 66 ∷ 255 ∷ 131 ∷ 1 ∷ 2 ∷ []) i

-- At offset 3: four locals, local 2 begins as -1 and local 3 as 0x201.
parse_procedure_header-encode_header_example :
    parse_procedure_header sample_bytes 9 3
    ≡ ok (record {
      local_count = 4;
      header_size = 6;
      initializers =
          record { local_index = 2; value = 65535 } ∷ record { local_index = 3; value = 513 } ∷ [];
    })
parse_procedure_header-encode_header_example =
    parse_procedure_header-encode_header sample_bytes 9 3 4 (short 2 255 ∷ long 3 513 ∷ [])
      (omega arith) ((omega arith, omega arith), ((omega arith, omega arith), tt)) (omega arith)
      (refl, (refl, (refl, (refl, (refl, (refl, tt)))))) (omega arith)

-- The words of the MME file, by their place: the header, the tables behind it, and the module header
-- table on the second page.
abbrev sample_word : ℕ → ℕ
sample_word i =
    if i == 8
    then 0x100
    else if ltb i 48
    then entry (0 ∷ 0 ∷ 0 ∷ 0 ∷ 0 ∷ 0 ∷ 0 ∷ 0 ∷ 0 ∷ 0 ∷ 0 ∷ 1 ∷ 0 ∷ 1 ∷ 0 ∷ 2 ∷ []) i
    else if ltb i 54
    then entry (1 ∷ 0 ∷ 1 ∷ 1 ∷ 7 ∷ 9 ∷ []) (i - 48)
    else if i == 128
    then 1
    else 0

abbrev sample_mme : File
sample_mme = record {
  opens = true;
  seeks_end = true;
  tells = some 514;
  rewinds = true;
  delivered = λ n. n;
  bytes = λ j. if j % 2 == 0 then sample_word (j / 2) % 256 else sample_word (j / 2) / 256;
}

abbrev sample_obj : File
sample_obj = record sample_mme { tells = some 512; bytes = λ j. if j == 0 then 3 else 0 }

abbrev sample_disk : Disk
sample_disk = record {
  malloc = λ n. true;
  obj = record { seeks = λ p. true; delivered = λ p n. n; content = sample_obj.bytes };
}

abbrev empty_image : LoadedImage
empty_image = record {
  mme_size = 0;
  obj_size = 0;
  header_words = λ i. 0;
  code_end_offset = 0;
  entry_module_id = 0;
  entry_procedure_index = 0;
  module_header_offset = 0;
  module_header_length_words = 0;
  program_globals = [];
  module_globals = [];
  modules = [];
  initial_ram_offset = 0;
  initial_ram_size = 0;
  initial_ram_bytes = λ i. 0;
}

-- The image that was loaded.
abbrev image_of : Outcome (LoadedImage × ℕ) → LoadedImage
image_of (ok (image, n)) = image
image_of (fails e) = empty_image
image_of undefined = empty_image

abbrev sample_image : LoadedImage
sample_image = image_of (lpst_image_load sample_disk sample_mme sample_obj 0)

lpst_image_load-IsLoaded_example : IsLoaded sample_mme sample_image
unfolding lpst_image_load load_file open_obj check_header read_tables word_at words_at
    module_globals_at proc_counts_at proc_offsets_at parse_modules parse_from parse_module
    load_module_bytes parse_procedures parse_procedure parse_procedure_header parse_initializers
    check_entry header_word read_le16 align_to_page infer_initial_ram_size then_with
lpst_image_load-IsLoaded_example =
    lpst_image_load-IsLoaded sample_disk sample_mme sample_obj 0 {image = sample_image} {n' = 10}
      refl

-- The same file, cut behind its header, with no module header table.
abbrev short_mme : File
short_mme = record sample_mme { tells = some 96; bytes = λ j. 0 }

lpst_image_load-undefined_example : lpst_image_load sample_disk short_mme sample_obj 0 ≡ undefined
unfolding header_word read_le16
lpst_image_load-undefined_example =
    lpst_image_load-undefined sample_disk short_mme sample_obj 96 512 0
      (record { opens = refl; seeks_end = refl; tells = refl; rewinds = refl; delivers = refl })
      (record { opens = refl; seeks_end = refl; tells = refl; rewinds = refl; delivers = refl })
      refl (omega arith) (omega arith) (omega arith) (omega arith)

-- The loaded program runs on the sample machine.
lpst_run-lpst_image_load_example :
    StaysBounded 1
      (environment sample_disk sample_image)
      sample_machine
      (lpst_run 1 (environment sample_disk sample_image) outside 2 sample_machine)
unfolding lpst_image_load load_file open_obj check_header read_tables word_at words_at
    module_globals_at proc_counts_at proc_offsets_at parse_modules parse_from parse_module
    load_module_bytes parse_procedures parse_procedure parse_procedure_header parse_initializers
    check_entry header_word read_le16 align_to_page infer_initial_ram_size then_with
lpst_run-lpst_image_load_example =
    lpst_run-lpst_image_load sample_disk sample_mme sample_obj 0 {image = sample_image} {n' = 10}
      refl 1 2 sample_machine sample_state-IsBounded
