-- ===== src/Cache/Available.antt =====
-- When a page can be had: src/LinchpinST/src/lpst_run_core.c gives up a slot that is empty or not
-- pinned, and a file that can be read then fills it.
use linchpin.Base.{
  ℕ, ◌+◌, ◌-◌, ◌%◌, ◌<◌, ◌≡◌, ◌⊎◌, inl, inr, refl, true, false, ◌||◌, not, Option, none, some, leb,
  min, ◌==◌, arith, u32,
}
use linchpin.Image.{CodeModule}
use linchpin.Cache.{
  ObjFile, CodeCache, code_page_size, fill_slot, fill_victim, serve, load_code_page,
  find_code_cache_entry, select_code_cache_victim,
}
use linchpin.Cache.Victim.{Victim, select_code_cache_victim-Victim}

-- A slot that may be given up.
abbrev pub IsFree : CodeCache → ℕ → Type 0
IsFree c j = (j < c.entry_count) × (((c.entries j).valid ≡ false) ⊎ ((c.entries j).pin_count ≡ 0))

-- The file can be read: every seek succeeds and every read delivers all its bytes.
abbrev pub IsReadable : ObjFile → Type 0
IsReadable file = ((p : ℕ) → file.seeks p ≡ true) × ((p n : ℕ) → file.delivered p n ≡ n)

fill_slot-some :
    (file : ObjFile) (c : CodeCache) (v base to_read : ℕ)
    → IsReadable file
    → (fill_slot file c v base to_read).1 ≡ some v
unfolding fill_slot
fill_slot-some file c v base to_read (seeks, reads) = rw (seeks base, full) refl
  where
    full : (file.delivered base to_read == to_read) ≡ true
    full = ground (arith, reads base to_read)

Victim-some :
    (c : CodeCache) (j : ℕ)
    → IsFree c j
    → (o : Option ℕ) → Victim c c.entry_count o
    → (v : ℕ) × (o ≡ some v)
Victim-some c j free (some v) victim = (v, refl)
Victim-some c j free none (inl (v, is, lt, empty, before)) = cc
Victim-some c j (lt, free) none (inr all) =
    let (ok, held) = all j lt in
    elim free [ inl bad ↦ ground (arith) | inr unpinned ↦ ground (arith) ]

serve-some :
    (file : ObjFile) (c : CodeCache) (j : ℕ) (found : Option ℕ) (base to_read : ℕ)
    → IsReadable file
    → IsFree c j
    → (s : ℕ) × ((serve file c found base to_read).1 ≡ some s)
unfolding serve fill_victim
serve-some file c j (some s) base to_read readable free = (s, refl)
serve-some file c j none base to_read readable free =
    let c' = record c { misses = u32 (c.misses + 1) } in
    let (v, is) =
      Victim-some c' j free (select_code_cache_victim c') (select_code_cache_victim-Victim c') in
    (v, rw is (fill_slot-some file c' v base to_read readable))

-- With an open file that can be read and a slot that is not both valid and pinned,
-- `load_code_page` always returns a slot for an offset inside the module.
pub load_code_page-some :
    (file : ObjFile) (c : CodeCache) (mod_ : CodeModule) (offset j : ℕ)
    → IsReadable file
    → c.is_open ≡ true
    → IsFree c j
    → u32 (mod_.object_offset + offset) < u32 (mod_.object_offset + mod_.length)
    → (s : ℕ) × ((load_code_page file c mod_ offset).1 ≡ some s)
unfolding load_code_page
load_code_page-some file c mod_ offset j readable open_ free inside = rw goes (
    serve-some file c j (find_code_cache_entry c base) base (min (module_end - base) code_page_size)
      readable free)
  where
    abs : ℕ
    abs = u32 (mod_.object_offset + offset)

    base : ℕ
    base = abs - abs % 256

    module_end : ℕ
    module_end = u32 (mod_.object_offset + mod_.length)

    goes : (not c.is_open || leb module_end abs || (c.entry_count == 0)) ≡ false
    goes = ground (arith, open_, free.0)
