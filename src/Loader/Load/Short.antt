-- ===== src/Loader/Load/Short.antt =====
-- What `lpst_image_load` of src/LinchpinST/src/lpst_image.c does with a file that ends behind its
-- header.
use linchpin.Base.{ℕ, ◌+◌, ◌≤◌, ◌<◌, ◌≡◌, refl, Bool, true, false, ◌==◌, ltb, leb, arith, some}
use linchpin.Loader.Result.{ok, undefined, then_with}
use linchpin.Loader.Modules.{Disk}
use linchpin.Loader.Tables.{File, Buffer, load_file, word_at, read_tables}
use linchpin.Loader.Load.{open_obj, code_end, mod_hdr, mod_hdr_end, check_header, lpst_image_load}

-- A file that the C library opens, measures and delivers.
pub record IsReadable (file : File) (size : ℕ) : Type 0 where
  pub opens : file.opens ≡ true
  pub seeks_end : file.seeks_end ≡ true
  pub tells : file.tells ≡ some size
  pub rewinds : file.rewinds ≡ true
  pub delivers : file.delivered size ≡ size

load_file-IsReadable :
    (malloc : ℕ → Bool) (file : File) (size n : ℕ)
    → IsReadable file size
    → malloc n ≡ true
    → load_file malloc file n ≡ ok (record { size = size; bytes = file.bytes }, n + 1)
unfolding load_file then_with
load_file-IsReadable malloc file size n readable memory =
    let same : (size == size) ≡ true = ground arith in
    rw (readable.opens, readable.seeks_end, readable.tells, memory, readable.delivers, same) refl

open_obj-IsReadable :
    (file : File) (size n : ℕ) → IsReadable file size → open_obj file n ≡ ok (size, n)
unfolding open_obj then_with
open_obj-IsReadable file size n readable =
    rw (readable.opens, readable.seeks_end, readable.tells, readable.rewinds) refl

check_header-fits :
    (mme : Buffer) (obj_size n : ℕ)
    → 96 ≤ mme.size
    → code_end mme ≤ obj_size
    → mod_hdr_end mme ≤ mme.size
    → check_header mme obj_size n ≡ ok (tt, n)
unfolding check_header then_with
check_header-fits mme obj_size n header code table =
    let a : ltb mme.size 96 ≡ false = ground arith in
    let b : leb (code_end mme) obj_size ≡ true = ground arith in
    let c : leb (mod_hdr_end mme) mme.size ≡ true = ground arith in rw (a, b, c) refl

read_tables-undefined :
    (malloc : ℕ → Bool) (mme : Buffer) (hdr n : ℕ)
    → mme.size < 98
    → read_tables malloc mme hdr n ≡ undefined
unfolding read_tables then_with word_at
read_tables-undefined malloc mme hdr n short =
    let a : ltb 97 mme.size ≡ false = ground arith in rw a refl

-- An MME file of 96 or 97 bytes, which are as many as the header has, is not refused as too small
-- when the sizes in its header fit: the number of modules is then read from beyond the buffer.
pub lpst_image_load-undefined :
    (disk : Disk) (mme_file obj_file : File) (size obj_size n : ℕ)
    → IsReadable mme_file size
    → IsReadable obj_file obj_size
    → disk.malloc n ≡ true
    → 96 ≤ size
    → size < 98
    → code_end (record { size = size; bytes = mme_file.bytes }) ≤ obj_size
    → mod_hdr_end (record { size = size; bytes = mme_file.bytes }) ≤ size
    → lpst_image_load disk mme_file obj_file n ≡ undefined
unfolding lpst_image_load then_with
lpst_image_load-undefined disk mme_file obj_file size obj_size n mme obj memory header short code
      table =
    let buffer : Buffer = record { size = size; bytes = mme_file.bytes } in
    rw
      (
        load_file-IsReadable disk.malloc mme_file size n mme memory,
        open_obj-IsReadable obj_file obj_size (n + 1) obj,
        check_header-fits buffer obj_size (n + 1) header code table,
        read_tables-undefined disk.malloc buffer (mod_hdr buffer) (n + 1) short,
      )
      refl
