-- ===== src/Cache/Loads.antt =====
-- `load_code_page` and the reads through it, over a cache that agrees with the OBJ file.
use linchpin.Base.{
  ℕ, ◌+◌, ◌-◌, ◌%◌, ◌≤◌, ◌<◌, ◌≡◌, ◌∙◌, ◌⊎◌, inl, inr, refl, Bool, true, false, ◌&&◌, ◌||◌, not,
  Option, none, some, ltb, leb, min, ap, ◌==◌, if◌then◌else◌, arith, Bool-cases, u32,
}
use linchpin.Image.{CodeModule}
use linchpin.Cache.{
  ObjFile, Entry, CodeCache, set_entry, code_page_size, bind_current_code_page,
  touch_code_cache_entry, fill_slot, fill_victim, serve, byte_of, load_code_page,
  find_code_cache_entry, select_code_cache_victim, read_into, read_code_byte_at, fetch_from,
  fetch_at,
}
use linchpin.Cache.Victim.{
  Found, find_code_cache_entry-Found, Victim, select_code_cache_victim-Victim,
}
use linchpin.Cache.Coherent.{
  IsPage, Coherent, WholeReads, touch-SamePage, touch-rest, touch_bind-Coherent, Coherent-SamePage,
}

-- The outcome of a load: the cache still agrees with the file, and the slot, if there is one, holds
-- the page.
pub record Loaded (file : ObjFile) (base : ℕ) (result : CodeCache × Option ℕ) : Type 0 where
  pub coherent : Coherent file result.0
  pub slot :
      (s : ℕ)
      → result.1 ≡ some s
      → (s < result.0.entry_count)
        × ((result.0.entries s).valid ≡ true)
        × ((result.0.entries s).page_base ≡ base)

-- A slot that is touched and bound.
bound-Loaded :
    (file : ObjFile) (c : CodeCache) (s base : ℕ)
    → ((i : ℕ) → i < c.entry_count → (c.entries i).valid ≡ true → IsPage file (c.entries i))
    → s < c.entry_count
    → (c.entries s).valid ≡ true
    → (c.entries s).page_base ≡ base
    → Loaded file base (bind_current_code_page (touch_code_cache_entry c s) s, some s)
bound-Loaded file c s base pages lt ok at_base = record {
  coherent = touch_bind-Coherent file c s pages lt ok;
  slot = λ s' is.
      let here : s' ≡ s = ground arith in
      let t = touch-SamePage c s s in
      rw here (
        unfold bind_current_code_page in
        (
          ground (arith, touch-rest c s, t.valid),
          ground (arith, t.valid),
          ground (arith, t.valid, t.base),
        ));
}

IsPage-if :
    (file : ObjFile) (b : Bool) (e old : Entry)
    → (b ≡ true → IsPage file e)
    → (b ≡ false → IsPage file old)
    → IsPage file (if b then e else old)
IsPage-if file true e old new kept = new refl
IsPage-if file false e old new kept = kept refl

module _ (file : ObjFile) (whole : WholeReads file) (c : CodeCache) (v base to_read : ℕ)
    (coherent : Coherent file c) (lt : v < c.entry_count) (small : to_read ≤ code_page_size)
    (some_bytes : 0 < to_read) (aligned : base % 256 ≡ 0)
    (bounded : base + to_read < 4294967296) where
  -- A failed read of no bytes leaves the slot as it was.
  unread_Loaded :
      file.delivered base to_read ≡ 0
      → Loaded file base (
        set_entry
            (record c {
              evictions = if (c.entries v).valid then u32 (c.evictions + 1) else c.evictions;
            })
            v
            (record (c.entries v) {
              bytes = read_into file base (file.delivered base to_read) (c.entries v).bytes;
            }),
        none,
      )
  unread_Loaded nothing = record {
    coherent =
        Coherent-SamePage file c _ refl refl refl refl
          (λ i. record {
            base = ground arith;
            size = ground arith;
            pins = ground arith;
            valid = ground arith;
            bytes = λ j. ground arith;
          })
          coherent;
    slot = λ s is. cc;
  }

  fill_slot-Loaded : Loaded file base (fill_slot file c v base to_read)
  unfolding fill_slot
  fill_slot-Loaded = elim (Bool-cases (file.seeks base)) [
    | inr fails ↦ rw fails (record {
      coherent =
          Coherent-SamePage file c _ refl refl refl refl
            (λ i. record { base = refl; size = refl; pins = refl; valid = refl; bytes = λ j. refl })
            coherent;
      slot = λ s is. cc;
    })
    | inl ok ↦ elim (Bool-cases (file.delivered base to_read == to_read)) [
      | inr short ↦ rw (ok, short) (unread_Loaded (ground (arith, whole base to_read)))
      | inl full ↦
          rw (ok, full)
            (bound-Loaded file _ v base
              (λ i lt' valid.
                IsPage-if file (i == v) _ (c.entries i)
                  (λ here. record {
                    size = small;
                    aligned = aligned;
                    bounded = bounded;
                    same = λ j below. ground arith;
                  })
                  (λ there. coherent.pages i lt' (ground arith)))
              lt (ground arith) (ground arith))
    ]
  ]

-- A victim is one of the slots.
victim-lt : (c : CodeCache) (v : ℕ) → select_code_cache_victim c ≡ some v → v < c.entry_count
victim-lt c v is = go (select_code_cache_victim c) (select_code_cache_victim-Victim c) is
  where
    go : (o : Option ℕ) → Victim c c.entry_count o → o ≡ some v → v < c.entry_count
    go none (inl (w, e, lt, a, b)) e' = cc
    go none (inr all) e' = cc
    go (some w) (inl (u, e, lt, a, b)) e' = ground arith
    go (some w) (inr all) e' = ground (arith, all.0)

module _ (file : ObjFile) (whole : WholeReads file) (base to_read : ℕ)
    (small : to_read ≤ code_page_size) (some_bytes : 0 < to_read) (aligned : base % 256 ≡ 0)
    (bounded : base + to_read < 4294967296) where
  fill_victim-Loaded :
      (c : CodeCache) (v : Option ℕ)
      → select_code_cache_victim c ≡ v
      → Coherent file c
      → Loaded file base (fill_victim file c v base to_read)
  unfolding fill_victim
  fill_victim-Loaded c none is coherent = record { coherent = coherent; slot = λ s e. cc }
  fill_victim-Loaded c (some v) is coherent =
      fill_slot-Loaded file whole c v base to_read coherent (victim-lt c v is) small some_bytes
        aligned bounded

  serve-Loaded :
      (c : CodeCache) (found : Option ℕ)
      → Found c base 0 c.entry_count found
      → Coherent file c
      → Loaded file base (serve file c found base to_read)
  unfolding serve
  serve-Loaded c none found coherent =
      fill_victim-Loaded (record c { misses = u32 (c.misses + 1) }) _ refl
        (record { pages = coherent.pages; bound = coherent.bound })
  serve-Loaded c (some s) found coherent =
      bound-Loaded file (record c { hits = u32 (c.hits + 1) }) s base coherent.pages found.1 found.2
        found.3

-- With a cache that agrees with the file, and reads that deliver everything or nothing,
-- `load_code_page` leaves a cache that agrees with the file; the slot that it returns is valid and
-- holds the page of the offset.
pub load_code_page-Loaded :
    (file : ObjFile) (c : CodeCache) (mod_ : CodeModule) (offset : ℕ)
    → WholeReads file
    → Coherent file c
    → let abs = u32 (mod_.object_offset + offset) in
      Loaded file (abs - abs % 256) (load_code_page file c mod_ offset)
unfolding load_code_page
load_code_page-Loaded file c mod_ offset whole coherent =
    let abs = u32 (mod_.object_offset + offset) in
    let base = abs - abs % 256 in
    let module_end = u32 (mod_.object_offset + mod_.length) in
    elim (Bool-cases (not c.is_open || leb module_end abs || (c.entry_count == 0))) [
      | inl refused ↦ rw refused (record { coherent = coherent; slot = λ s is. cc })
      | inr goes ↦
          let inside : abs < module_end = ground arith in
          rw goes (
            serve-Loaded file whole base (min (module_end - base) code_page_size) (omega arith)
              (omega arith) (omega arith) (omega arith) c (find_code_cache_entry c base)
              (find_code_cache_entry-Found c base) coherent)
    ]

-- With a cache that agrees with the file, and reads that deliver everything or nothing, what
-- `read_code_byte_at` returns is the byte of the file at the module's offset, or the machine halts;
-- the cache still agrees with the file.
pub read_code_byte_at-content :
    (file : ObjFile) (c : CodeCache) (mod_ : CodeModule) (offset : ℕ)
    → WholeReads file
    → Coherent file c
    → let (c', byte) = read_code_byte_at file c mod_ offset in
      Coherent file c'
      × ((byte ≡ none) ⊎ (byte ≡ some (file.content (u32 (mod_.object_offset + offset)))))
unfolding read_code_byte_at
read_code_byte_at-content file c mod_ offset whole coherent =
    let l = load_code_page-Loaded file c mod_ offset whole coherent in
    (l.coherent, byte_right l ((load_code_page file c mod_ offset).1) refl)
  where
    abs : ℕ
    abs = u32 (mod_.object_offset + offset)

    byte_right :
        Loaded file (abs - abs % 256) (load_code_page file c mod_ offset)
        → (entry : Option ℕ) → (load_code_page file c mod_ offset).1 ≡ entry
        → let byte = byte_of (load_code_page file c mod_ offset).0 entry (abs % 256) in
          (byte ≡ none) ⊎ (byte ≡ some (file.content abs))
    byte_right l none is = inl refl
    byte_right l (some s) is =
        let c' = (load_code_page file c mod_ offset).0 in
        let (lt, ok, at_base) = l.slot s is in
        let p = l.coherent.pages s lt ok in
        elim (Bool-cases (leb (c'.entries s).page_size (abs % 256))) [
          | inl beyond ↦ inl (rw beyond refl)
          | inr within ↦ inr (
              rw within
                (ap some (p.same (abs % 256) (ground arith) ∙ ap file.content (omega arith))))
        ]

-- With a cache that agrees with the file, and reads that deliver everything or nothing, what
-- `fetch_byte` reads, from the bound page or by a new load, is the byte of the file at the program
-- counter, or the machine halts; the cache still agrees with the file.
pub fetch_at-content :
    (file : ObjFile) (c : CodeCache) (mod_ : CodeModule) (program_counter : ℕ)
    → WholeReads file
    → Coherent file c
    → let (c', byte) = fetch_at file c mod_ program_counter in
      Coherent file c'
      × ((byte ≡ none) ⊎ (byte ≡ some (file.content (u32 (mod_.object_offset + program_counter)))))
unfolding fetch_at
fetch_at-content file c mod_ pc whole coherent = go c.current refl
  where
    abs : ℕ
    abs = u32 (mod_.object_offset + pc)

    Right : CodeCache × Option ℕ → Type 0
    Right (c', byte) = Coherent file c' × ((byte ≡ none) ⊎ (byte ≡ some (file.content abs)))

    go : (current : Option ℕ) → c.current ≡ current → Right (fetch_from file c mod_ pc current)
    go none is = unfold fetch_from in read_code_byte_at-content file c mod_ pc whole coherent
    go (some s) is =
        let (lt, ok, at_base, at_limit) = coherent.bound s is in
        let p = coherent.pages s lt ok in
        elim (Bool-cases (leb c.current_base abs && ltb abs c.current_limit)) [
          | inl covered ↦
              unfold fetch_from in
              rw covered (
                coherent,
                inr (
                    ap some (
                      p.same (abs - c.current_base) (ground arith)
                      ∙ ap file.content (ground arith))),
              )
          | inr apart ↦
              unfold fetch_from in
              rw apart (read_code_byte_at-content file c mod_ pc whole coherent)
        ]
