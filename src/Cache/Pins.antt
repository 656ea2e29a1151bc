-- ===== src/Cache/Pins.antt =====
-- Pinned pages stay: no load evicts them, and PINM leaves all pages of its module pinned.
use linchpin.Base.{
  ℕ, ◌+◌, ◌-◌, ◌%◌, ◌<◌, ◌≡◌, ◌≢◌, ◌∙◌, ◌⊎◌, inl, inr, refl, true, false, ◌||◌, not, Option, none,
  some, leb, min, ◌==◌, arith, Bool-cases, u32, update, Array,
}
use linchpin.Image.{CodeModule}
use linchpin.Cache.{
  ObjFile, Entry, CodeCache, code_page_size, bind_current_code_page, touch_code_cache_entry,
  fill_slot, fill_victim, serve, load_code_page, find_code_cache_entry, select_code_cache_victim,
}
use linchpin.Cache.Victim.{
  Found, find_code_cache_entry-Found, Victim, select_code_cache_victim-Victim,
}
use linchpin.Cache.Coherent.{SamePage, touch-SamePage, touch-rest}

-- The outcome of a load of the page at `base`: the slot that it returns holds the page, and every
-- pinned slot holds the page that it held, as often pinned.
pub record Keeps (c : CodeCache) (base : ℕ) (result : CodeCache × Option ℕ) : Type 0 where
  pub count : result.0.entry_count ≡ c.entry_count
  pub slot :
      (s : ℕ)
      → result.1 ≡ some s
      → (s < c.entry_count)
        × ((result.0.entries s).valid ≡ true)
        × ((result.0.entries s).page_base ≡ base)
  pub kept :
      (i : ℕ)
      → i < c.entry_count
      → (c.entries i).valid ≡ true
      → 0 < (c.entries i).pin_count
      → SamePage (c.entries i) (result.0.entries i)

bind-entries :
    (c : CodeCache) (s : ℕ)
    → ((bind_current_code_page c s).entries ≡ c.entries)
      × ((bind_current_code_page c s).entry_count ≡ c.entry_count)
unfolding bind_current_code_page
bind-entries c s = elim (Bool-cases (c.entries s).valid) [
  | inl ok ↦ rw ok (refl, refl)
  | inr bad ↦ rw bad (refl, refl)
]

SamePage-refl : (e : Entry) → SamePage e e
SamePage-refl e = record { base = refl; size = refl; pins = refl; valid = refl; bytes = λ j. refl }

SamePage-trans : {a b c : Entry} → SamePage a b → SamePage b c → SamePage a c
SamePage-trans p q = record {
  base = q.base ∙ p.base;
  size = q.size ∙ p.size;
  pins = q.pins ∙ p.pins;
  valid = q.valid ∙ p.valid;
  bytes = λ j. q.bytes j ∙ p.bytes j;
}

-- From `c` to `c'`, where the pinned slots are kept, and then a touch and a binding.
bound-Keeps :
    (c c' : CodeCache) (s base : ℕ)
    → c'.entry_count ≡ c.entry_count
    → s < c.entry_count
    → (c'.entries s).valid ≡ true
    → (c'.entries s).page_base ≡ base
    → ((i : ℕ)
        → i < c.entry_count
        → (c.entries i).valid ≡ true
        → 0 < (c.entries i).pin_count
        → SamePage (c.entries i) (c'.entries i))
    → Keeps c base (bind_current_code_page (touch_code_cache_entry c' s) s, some s)
bound-Keeps c c' s base count lt ok at_base keep =
    let t = touch_code_cache_entry c' s in
    let (entries, same_count) = bind-entries t s in
    record {
      count = same_count ∙ (touch-rest c' s).0 ∙ count;
      slot = λ s' is.
          let here : s' ≡ s = ground arith in
          let same = touch-SamePage c' s s in
          rw (here, entries) (lt, same.valid ∙ ok, same.base ∙ at_base);
      kept = λ i lt' valid held.
          rw entries (SamePage-trans (keep i lt' valid held) (touch-SamePage c' s i));
    }

-- The choice of a victim spares the pinned slots.
Victim-loose :
    (c : CodeCache) (n v : ℕ) (o : Option ℕ)
    → Victim c n o
    → o ≡ some v
    → (v < n) × (((c.entries v).valid ≡ false) ⊎ ((c.entries v).pin_count ≡ 0))
Victim-loose c n v none (inl (w, e, lt, empty, before)) is = cc
Victim-loose c n v none (inr all) is = cc
Victim-loose c n v (some u) (inl (w, e, lt, empty, before)) is = ground arith
Victim-loose c n v (some u) (inr all) is = ground (arith, all.0, all.1)

same_Keeps :
    (c c' : CodeCache) (base : ℕ)
    → c'.entries ≡ c.entries
    → c'.entry_count ≡ c.entry_count
    → Keeps c base (c', none)
same_Keeps c c' base entries count = record {
  count = count;
  slot = λ s is. cc;
  kept = λ i lt valid held. rw entries (SamePage-refl (c.entries i));
}

SamePage-other :
    (entries : Array Entry) (v i : ℕ) (e : Entry)
    → i ≢ v
    → SamePage (entries i) (update entries v e i)
SamePage-other entries v i e ne = record {
  base = ground arith;
  size = ground arith;
  pins = ground arith;
  valid = ground arith;
  bytes = λ j. ground arith;
}

fill_slot-Keeps :
    (file : ObjFile) (c : CodeCache) (v base to_read : ℕ)
    → v < c.entry_count
    → ((c.entries v).valid ≡ false) ⊎ ((c.entries v).pin_count ≡ 0)
    → Keeps c base (fill_slot file c v base to_read)
unfolding fill_slot
fill_slot-Keeps file c v base to_read lt loose = elim (Bool-cases (file.seeks base)) [
  | inr fails ↦ rw fails (same_Keeps c _ base refl refl)
  | inl ok ↦ elim (Bool-cases (file.delivered base to_read == to_read)) [
    | inr short ↦
        rw (ok, short)
          (record {
            count = refl;
            slot = λ s is. cc;
            kept = λ i lt' valid held. SamePage-other c.entries v i _ (ground arith);
          })
    | inl full ↦
        rw (ok, full)
          (bound-Keeps c _ v base refl lt (ground arith) (ground arith)
            (λ i lt' valid held. SamePage-other c.entries v i _ (ground arith)))
  ]
]

fill_victim-Keeps :
    (file : ObjFile) (c : CodeCache) (v : Option ℕ) (base to_read : ℕ)
    → select_code_cache_victim c ≡ v
    → Keeps c base (fill_victim file c v base to_read)
unfolding fill_victim
fill_victim-Keeps file c none base to_read is = same_Keeps c c base refl refl
fill_victim-Keeps file c (some v) base to_read is =
    let (lt, loose) = Victim-loose c c.entry_count v _ (select_code_cache_victim-Victim c) is in
    fill_slot-Keeps file c v base to_read lt loose

serve-Keeps :
    (file : ObjFile) (c : CodeCache) (found : Option ℕ) (base to_read : ℕ)
    → Found c base 0 c.entry_count found
    → Keeps c base (serve file c found base to_read)
unfolding serve
serve-Keeps file c none base to_read found =
    let k = fill_victim-Keeps file (record c { misses = u32 (c.misses + 1) }) _ base to_read refl in
    record { count = k.count; slot = k.slot; kept = k.kept }
serve-Keeps file c (some s) base to_read found =
    bound-Keeps c (record c { hits = u32 (c.hits + 1) }) s base refl found.1 found.2 found.3
      (λ i lt valid held. SamePage-refl (c.entries i))

-- Whatever the file delivers, `load_code_page` leaves each pinned slot its page and its pins, and a
-- slot that it returns is valid and holds the page of the offset.
pub load_code_page-Keeps :
    (file : ObjFile) (c : CodeCache) (mod_ : CodeModule) (offset : ℕ)
    → let abs = u32 (mod_.object_offset + offset) in
      Keeps c (abs - abs % 256) (load_code_page file c mod_ offset)
unfolding load_code_page
load_code_page-Keeps file c mod_ offset =
    let abs = u32 (mod_.object_offset + offset) in
    let base = abs - abs % 256 in
    let module_end = u32 (mod_.object_offset + mod_.length) in
    elim (Bool-cases (not c.is_open || leb module_end abs || (c.entry_count == 0))) [
      | inl refused ↦ rw refused (same_Keeps c c base refl refl)
      | inr goes ↦ rw goes (
          serve-Keeps file c (find_code_cache_entry c base) base
            (min (module_end - base) code_page_size) (find_code_cache_entry-Found c base))
    ]
