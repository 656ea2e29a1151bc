-- ===== src/Setup/Seed.antt =====
-- What `lpst_seed_initial_ram` of src/LinchpinST/src/lpst_vm.c leaves in the RAM.
use linchpin.Base.{
  ℕ, zero, suc, ◌+◌, ◌-◌, ◌/◌, ◌%◌, ◌<◌, ◌≤◌, ◌≡◌, ◌∙◌, refl, arith, false, ◌&&◌, ◌||◌, Option,
  some, ◌>>=◌, bit_or, ltb, leb, ◌==◌, if◌then◌else◌, u16, Array,
}
use linchpin.Base.Bits.{zero-bit_or}
use linchpin.Ram.{Ram, put, full_ram_bytes, segment_size_bytes}
use linchpin.Ram.Access.{byte_at, Holds}
use linchpin.Ram.Zero.{zeroed}
use linchpin.Setup.{
  lpst_align_even, lpst_ram_ptr, lpst_write_byte, lpst_write_word, lpst_fill_zero, copy_loop,
  lpst_copy_bytes, write_header, lpst_seed_arena, lpst_seed_initial_ram,
}

-- The bytes `f` with the word `v` at `o`.
abbrev pub set_word : (ℕ → ℕ) → ℕ → ℕ → ℕ → ℕ
set_word f o v p = if p == o then v % 256 else (if p == o + 1 then v / 256 else f p)

-- The bytes `f` with an arena's header at `o`; the word at `o + 4` is left alone.
abbrev pub headed : (ℕ → ℕ) → ℕ → ℕ → ℕ → ℕ → ℕ
headed f o handle size =
    set_word (set_word (set_word (set_word f o 0) (o + 2) handle) (o + 6) handle) (o + 8) size

-- The bytes `f` with those of `source` from `index` on, `n` of them, at their offsets from `o`.
abbrev pub copied : (ℕ → ℕ) → ℕ → Array ℕ → ℕ → ℕ → ℕ → ℕ
copied f o source index n p =
    if leb (o + index) p && ltb p (o + index + n) then source (p - o) else f p

module _ {op : Option Ram} {f : ℕ → ℕ} (first : Holds op f) where
  Holds-then :
      (next : Ram → Option Ram) (g : ℕ → ℕ) → Holds (next first.ram) g → Holds (op >>= next) g
  Holds-then next g second = record {
    ram = second.ram;
    made = ground (arith, first.made, second.made);
    bytes = second.bytes;
  }

  Holds-as : (g : ℕ → ℕ) → ((p : ℕ) → f p ≡ g p) → Holds op g
  Holds-as g same = record {
    ram = first.ram;
    made = first.made;
    bytes = λ p. first.bytes p ∙ same p;
  }

lpst_write_byte-Holds :
    (ram : Ram) (o v : ℕ)
    → o < full_ram_bytes
    → Holds (lpst_write_byte ram o v) (λ p. if p == o then v else byte_at ram p)
unfolding lpst_write_byte lpst_ram_ptr
lpst_write_byte-Holds ram o v lt = record {
  ram = put ram (o / 0x8000) (o % 0x8000) v;
  made = ground arith;
  bytes = λ p. ground arith;
}

lpst_write_word-Holds :
    (ram : Ram) (o v : ℕ)
    → o + 1 < full_ram_bytes
    → Holds (lpst_write_word ram o v) (set_word (byte_at ram) o v)
unfolding lpst_write_word
lpst_write_word-Holds ram o v lt =
    let first = lpst_write_byte-Holds ram o (v % 256) (omega arith) in
    let second = lpst_write_byte-Holds first.ram (o + 1) (v / 256) lt in
    Holds-as (Holds-then first _ _ second) (set_word (byte_at ram) o v)
      (λ p. ground (arith, first.bytes p))

lpst_fill_zero-Holds :
    (ram : Ram) (o n : ℕ) → o + n ≤ full_ram_bytes → Holds (lpst_fill_zero ram o n) (zeroed ram o n)
unfolding lpst_fill_zero
lpst_fill_zero-Holds ram o zero fits = record { ram = ram; made = refl; bytes = λ p. ground arith }
lpst_fill_zero-Holds ram o (suc n) fits =
    let first = lpst_write_byte-Holds ram o 0 (omega arith) in
    let rest = lpst_fill_zero-Holds first.ram (o + 1) n (omega arith) in
    Holds-as (Holds-then first _ _ rest) (zeroed ram o (suc n)) (λ p. ground (arith, first.bytes p))

copy_loop-Holds :
    (ram : Ram) (o : ℕ) (source : Array ℕ) (n index : ℕ)
    → o + index + n ≤ full_ram_bytes
    → Holds (copy_loop ram o source n index) (copied (byte_at ram) o source index n)
unfolding copy_loop
copy_loop-Holds ram o source zero index fits = record {
  ram = ram;
  made = refl;
  bytes = λ p. ground arith;
}
copy_loop-Holds ram o source (suc n) index fits =
    let first = lpst_write_byte-Holds ram (o + index) (source index) (omega arith) in
    let rest = copy_loop-Holds first.ram o source n (index + 1) (omega arith) in
    Holds-as (Holds-then first _ _ rest) (copied (byte_at ram) o source index (suc n))
      (λ p. ground (arith, first.bytes p))

write_header-Holds :
    (ram : Ram) (o handle size : ℕ)
    → o + 9 < full_ram_bytes
    → Holds (write_header ram o handle size) (headed (byte_at ram) o handle size)
unfolding write_header
write_header-Holds ram o handle size fits =
    let a = lpst_write_word-Holds ram o 0 (omega arith) in
    let b = lpst_write_word-Holds a.ram (o + 2) handle (omega arith) in
    let c = lpst_write_word-Holds b.ram (o + 6) handle (omega arith) in
    let d = lpst_write_word-Holds c.ram (o + 8) size (omega arith) in
    Holds-as (Holds-then a _ _ (Holds-then b _ _ (Holds-then c _ _ d)))
      (headed (byte_at ram) o handle size) (λ p. ground (arith, a.bytes p, b.bytes p, c.bytes p))

-- The low arena's header, behind the initial RAM, and the high arena's, at the segment's start.
lpst_seed_arena-low :
    (ram : Ram) (o : ℕ)
    → o + 10 ≤ segment_size_bytes
    → Holds
        (lpst_seed_arena ram o segment_size_bytes)
        (headed (byte_at ram) o (o / 2 + 3) (65528 - o))
unfolding lpst_seed_arena
lpst_seed_arena-low ram o fits =
    rw (guards, handle, size) (write_header-Holds ram o (o / 2 + 3) (65528 - o) (omega arith))
  where
    base : o - o % 0x10000 ≡ 0
    base = omega arith

    guards :
        (ltb full_ram_bytes (o + 10) || ltb segment_size_bytes (o - (o - o % 0x10000) + 10)) ≡ false
    guards = ground arith

    handle :
        u16 (
          bit_or (if o - o % 0x10000 == 0 then 0 else 0x8000) (u16 ((o - (o - o % 0x10000)) / 2))
          + 3)
        ≡ o / 2 + 3
    handle = ground (arith, zero-bit_or (u16 ((o - (o - o % 0x10000)) / 2)))

    size : u16 (segment_size_bytes - (o - (o - o % 0x10000) + 8)) ≡ 65528 - o
    size = omega arith

lpst_seed_arena-high :
    (ram : Ram)
    → Holds (lpst_seed_arena ram 0x10000 0xfc00) (headed (byte_at ram) 0x10000 0x8003 0xfbf8)
unfolding lpst_seed_arena
lpst_seed_arena-high ram = write_header-Holds ram 0x10000 0x8003 0xfbf8 (omega arith)

-- The bytes of the RAM of a new machine.
abbrev pub initial_bytes : Ram → Array ℕ → ℕ → ℕ → ℕ
initial_bytes ram image size p =
    if ltb p size then image p else (if ltb p full_ram_bytes then 0 else byte_at ram p)

-- With an initial RAM of at most 65,526 bytes the seeding succeeds. The RAM then holds the initial
-- RAM from offset 0 on, behind it, at the next even offset `o`, a header with the handle word of
-- `o` and 6 bytes and with the size `65528 - o`, at 0x10000 one with the handle 0x8003 and the size
-- 0xFBF8, and 0 everywhere else. (The comment of `lpst_seed_arena` gives the size without the offset:
-- its segment's extent less 8.)
pub lpst_seed_initial_ram-Holds :
    (ram : Ram) (image : Array ℕ) (size : ℕ)
    → size ≤ 65526
    → let o = size + size % 2 in
      Holds (lpst_seed_initial_ram ram (some image) size) (
        headed
          (headed (initial_bytes ram image size) o (o / 2 + 3) (65528 - o))
          0x10000
          0x8003
          0xfbf8)
unfolding lpst_seed_initial_ram lpst_align_even lpst_copy_bytes
lpst_seed_initial_ram-Holds ram image size fits =
    let o = size + size % 2 in
    let even : size + 1 - (size + 1) % 2 ≡ size + size % 2 = omega arith in
    let guard : ltb segment_size_bytes size ≡ false = ground arith in
    let a = lpst_fill_zero-Holds ram 0 full_ram_bytes (omega arith) in
    let b = copy_loop-Holds a.ram 0 image size 0 (omega arith) in
    let c = lpst_seed_arena-low b.ram o (omega arith) in
    let d = lpst_seed_arena-high c.ram in
    rw (guard, even)
      (Holds-as (Holds-then a _ _ (Holds-then b _ _ (Holds-then c _ _ d))) _
        (λ p. ground (arith, a.bytes p, b.bytes p, c.bytes p)))
