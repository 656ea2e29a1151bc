-- ===== src/Cache/Coherent.antt =====
-- The cache agrees with the OBJ file, and loading a page keeps it so.
use linchpin.Base.{ℕ, ◌+◌, ◌%◌, ◌≤◌, ◌<◌, ◌≡◌, ◌⊎◌, refl, true, some, arith}
use linchpin.Cache.{
  ObjFile, Entry, CodeCache, ticked, code_page_size, bind_current_code_page, touch_code_cache_entry,
}

-- A page in the cache holds the bytes of the file.
pub record IsPage (file : ObjFile) (e : Entry) : Type 0 where
  pub size : e.page_size ≤ code_page_size
  pub aligned : e.page_base % 256 ≡ 0
  pub bounded : e.page_base + e.page_size < 4294967296
  pub same : (j : ℕ) → j < e.page_size → e.bytes j ≡ file.content (e.page_base + j)

-- Every valid slot holds a page, and the bound page is that of a valid slot.
pub record Coherent (file : ObjFile) (c : CodeCache) : Type 0 where
  pub pages : (i : ℕ) → i < c.entry_count → (c.entries i).valid ≡ true → IsPage file (c.entries i)
  pub bound :
      (s : ℕ)
      → c.current ≡ some s
      → (s < c.entry_count)
        × ((c.entries s).valid ≡ true)
        × (c.current_base ≡ (c.entries s).page_base)
        × (c.current_limit ≡ (c.entries s).page_base + (c.entries s).page_size)

-- `fread` delivers all the bytes asked for, or none.
abbrev pub WholeReads : ObjFile → Type 0
WholeReads file = (p n : ℕ) → (file.delivered p n ≡ n) ⊎ (file.delivered p n ≡ 0)

-- Two states of a slot that differ in the tick alone.
pub record SamePage (e e' : Entry) : Type 0 where
  pub base : e'.page_base ≡ e.page_base
  pub size : e'.page_size ≡ e.page_size
  pub pins : e'.pin_count ≡ e.pin_count
  pub valid : e'.valid ≡ e.valid
  pub bytes : (j : ℕ) → e'.bytes j ≡ e.bytes j

ticked-SamePage : (c : CodeCache) (i : ℕ) → SamePage (c.entries i) ((ticked c).entries i)
ticked-SamePage c i = record {
  base = ground arith;
  size = ground arith;
  pins = ground arith;
  valid = ground arith;
  bytes = λ j. ground arith;
}

pub touch-SamePage :
    (c : CodeCache) (slot i : ℕ)
    → SamePage (c.entries i) ((touch_code_cache_entry c slot).entries i)
unfolding touch_code_cache_entry
touch-SamePage c slot i =
    let t = ticked-SamePage c i in
    record {
      base = ground (arith, t.base);
      size = ground (arith, t.size);
      pins = ground (arith, t.pins);
      valid = ground (arith, t.valid);
      bytes = λ j. ground (arith, t.bytes j);
    }

-- What a touch leaves alone.
pub touch-rest :
    (c : CodeCache) (slot : ℕ)
    → let c' = touch_code_cache_entry c slot in
      (c'.entry_count ≡ c.entry_count)
      × (c'.current ≡ c.current)
      × (c'.current_base ≡ c.current_base)
      × (c'.current_limit ≡ c.current_limit)
      × (c'.is_open ≡ c.is_open)
unfolding touch_code_cache_entry
touch-rest c slot = (ground arith, ground arith, ground arith, ground arith, ground arith)

IsPage-SamePage : {file : ObjFile} {e e' : Entry} → SamePage e e' → IsPage file e → IsPage file e'
IsPage-SamePage {file} s p = record {
  size = ground (arith, s.size, p.size);
  aligned = ground (arith, s.base, p.aligned);
  bounded = ground (arith, s.base, s.size, p.bounded);
  same = λ j lt. ground (arith, s.base, s.size, s.bytes j, p.same j);
}

touch-pages :
    (file : ObjFile) (c : CodeCache) (slot : ℕ)
    → ((i : ℕ) → i < c.entry_count → (c.entries i).valid ≡ true → IsPage file (c.entries i))
    → (i : ℕ) → i < c.entry_count
    → ((touch_code_cache_entry c slot).entries i).valid ≡ true
    → IsPage file ((touch_code_cache_entry c slot).entries i)
touch-pages file c slot pages i lt ok =
    let s = touch-SamePage c slot i in IsPage-SamePage s (pages i lt (ground (arith, s.valid)))

-- A touched and bound slot.
pub touch_bind-Coherent :
    (file : ObjFile) (c : CodeCache) (slot : ℕ)
    → ((i : ℕ) → i < c.entry_count → (c.entries i).valid ≡ true → IsPage file (c.entries i))
    → slot < c.entry_count
    → (c.entries slot).valid ≡ true
    → Coherent file (bind_current_code_page (touch_code_cache_entry c slot) slot)
unfolding bind_current_code_page
touch_bind-Coherent file c slot pages lt ok =
    let t = touch-SamePage c slot slot in
    let p = pages slot lt ok in
    let bound_ok : ((touch_code_cache_entry c slot).entries slot).valid ≡ true =
      ground (arith, t.valid) in
    rw bound_ok (record {
      pages = λ i lt' ok'. touch-pages file c slot pages i (ground (arith, touch-rest c slot)) ok';
      bound = λ s is.
          let here : s ≡ slot = ground arith in
          rw here (
            ground (arith, touch-rest c slot),
            bound_ok,
            refl,
            ground (arith, t.base, t.size, p.bounded),
          );
    })

-- The agreement depends on the pages and the binding alone.
pub Coherent-SamePage :
    (file : ObjFile) (c c' : CodeCache)
    → c'.entry_count ≡ c.entry_count
    → c'.current ≡ c.current
    → c'.current_base ≡ c.current_base
    → c'.current_limit ≡ c.current_limit
    → ((i : ℕ) → SamePage (c.entries i) (c'.entries i))
    → Coherent file c
    → Coherent file c'
Coherent-SamePage file c c' count current base limit same k = record {
  pages = λ i lt ok.
      IsPage-SamePage (same i) (k.pages i (omega arith) (ground (arith, (same i).valid)));
  bound = λ s is.
      let (lt, ok, at_base, at_limit) = k.bound s (ground arith) in
      let e = same s in
      (
        omega arith,
        ground (arith, e.valid),
        ground (arith, e.base),
        ground (arith, e.base, e.size),
      );
}
