-- ===== src/Cache.antt =====
-- The bytecode page cache: the first part of src/LinchpinST/src/lpst_run_core.c over
-- `lpst_code_cache_entry` of src/LinchpinST/include/lpst_exec.h. The OBJ file is read through the C
-- library, which is a parameter.
pub mod Coherent
pub mod Loads
pub mod Available
pub mod Pins
pub mod PinModule
pub mod Victim
mod Tests
use linchpin.Base.{
  ℕ, zero, suc, ◌+◌, ◌-◌, ◌/◌, ◌%◌, min, Bool, true, false, ◌&&◌, ◌||◌, not, Option, none, some,
  ltb, leb, ◌==◌, if◌then◌else◌, u16, u32, Array, update,
}
use linchpin.Image.{CodeModule, Image}

abbrev pub code_page_size : ℕ
code_page_size = 0x100

-- What the C library does with the OBJ file: whether `fseek` to a position succeeds, how many bytes
-- `fread` then delivers of those asked for, and the bytes of the file.
pub record ObjFile : Type 0 where
  pub seeks : ℕ → Bool
  pub delivered : (position wanted : ℕ) → ℕ
  pub content : ℕ → ℕ

pub record Entry : Type 0 where
  pub page_base : ℕ
  pub page_size : ℕ
  pub last_used_tick : ℕ
  pub pin_count : ℕ
  pub valid : Bool
  pub bytes : Array ℕ

-- The cache fields of `lpst_exec_state`. `current` is the slot into whose bytes
-- `current_code_page_bytes` points; `is_open` says that `code_fp` is not NULL. No slots are
-- allocated exactly when `entry_count` is 0.
pub record CodeCache : Type 0 where
  pub is_open : Bool
  pub entries : Array Entry
  pub entry_count : ℕ
  pub current : Option ℕ
  pub current_base : ℕ
  pub current_limit : ℕ
  pub tick : ℕ
  pub hits : ℕ
  pub misses : ℕ
  pub evictions : ℕ

abbrev pub set_entry : CodeCache → ℕ → Entry → CodeCache
set_entry c slot e = record c { entries = update c.entries slot e }

-- `bind_current_code_page` at a slot; its callers pass no NULL.
unfoldable pub bind_current_code_page : CodeCache → ℕ → CodeCache
bind_current_code_page c slot =
    let e = c.entries slot in
    if not e.valid
    then record c { current = none; current_base = 0; current_limit = 0 }
    else record c {
      current = some slot;
      current_base = e.page_base;
      current_limit = u32 (e.page_base + e.page_size);
    }

-- The loop that resets the ticks of the valid entries when the counter wraps.
abbrev pub reset_ticks : CodeCache → Array Entry
reset_ticks c i =
    let e = c.entries i in
    if ltb i c.entry_count && e.valid then record e { last_used_tick = 0 } else e

-- The counter after one step, with the entries reset if it wrapped.
abbrev pub ticked : CodeCache → CodeCache
ticked c =
    let tick = u32 (c.tick + 1) in
    if tick == 0 then record c { tick = 1; entries = reset_ticks c } else record c { tick = tick }

unfoldable pub touch_code_cache_entry : CodeCache → ℕ → CodeCache
touch_code_cache_entry c slot =
    let c' = ticked c in set_entry c' slot (record (c'.entries slot) { last_used_tick = c'.tick })

-- The search at index `i`, with `left` slots to go.
unfoldable pub find_from : CodeCache → ℕ → ℕ → ℕ → Option ℕ
find_from c page_base zero i = none
find_from c page_base (suc left) i =
    let e = c.entries i in
    let rest = find_from c page_base left (i + 1) in
    if e.valid && (e.page_base == page_base) then some i else rest

unfoldable pub find_code_cache_entry : CodeCache → ℕ → Option ℕ
unfolding find_from
find_code_cache_entry c page_base = find_from c page_base c.entry_count 0

-- The victim after one more valid slot: a pinned one is passed over, an older one is taken.
abbrev pub older : CodeCache → ℕ → Option ℕ → Option ℕ
older c i none = if ltb 0 (c.entries i).pin_count then none else some i
older c i (some v) =
    if ltb 0 (c.entries i).pin_count
    then some v
    else (if ltb (c.entries i).last_used_tick (c.entries v).last_used_tick then some i else some v)

unfoldable pub victim_from : CodeCache → ℕ → ℕ → Option ℕ → Option ℕ
victim_from c zero i victim = victim
victim_from c (suc left) i victim =
    let rest = victim_from c left (i + 1) (older c i victim) in
    if not (c.entries i).valid then some i else rest

unfoldable pub select_code_cache_victim : CodeCache → Option ℕ
unfolding victim_from
select_code_cache_victim c = victim_from c c.entry_count 0 none

-- The bytes of a page after `fread` has delivered `n` bytes of the file from `position` on.
abbrev pub read_into : ObjFile → ℕ → ℕ → Array ℕ → Array ℕ
read_into file position n bytes j = if ltb j n then file.content (position + j) else bytes j

-- What `load_code_page` does to the victim: `fseek`, `fread`, the padding, and the new header.
unfoldable pub fill_slot : ObjFile → CodeCache → ℕ → ℕ → ℕ → CodeCache × Option ℕ
fill_slot file c slot page_base to_read =
    let e = c.entries slot in
    let c' = record c { evictions = if e.valid then u32 (c.evictions + 1) else c.evictions } in
    let n = file.delivered page_base to_read in
    let raw = read_into file page_base n e.bytes in
    let padded : Array ℕ = λ j. if leb to_read j && ltb j code_page_size then 0 else raw j in
    let loaded =
      set_entry c' slot
        (record e { page_base = page_base; page_size = to_read; valid = true; bytes = padded }) in
    if not (file.seeks page_base)
    then (c', none)
    else (if not (n == to_read)
        then (set_entry c' slot (record e { bytes = raw }), none)
        else (bind_current_code_page (touch_code_cache_entry loaded slot) slot, some slot))

-- The victim is filled, if there is one.
unfoldable pub fill_victim : ObjFile → CodeCache → Option ℕ → ℕ → ℕ → CodeCache × Option ℕ
fill_victim file c none page_base to_read = (c, none)
fill_victim file c (some slot) page_base to_read = fill_slot file c slot page_base to_read

-- After the search: a hit is touched and bound, a miss is counted and filled.
unfoldable pub serve : ObjFile → CodeCache → Option ℕ → ℕ → ℕ → CodeCache × Option ℕ
serve file c (some slot) page_base to_read =
    let c' = record c { hits = u32 (c.hits + 1) } in
    (bind_current_code_page (touch_code_cache_entry c' slot) slot, some slot)
serve file c none page_base to_read =
    let c' = record c { misses = u32 (c.misses + 1) } in
    fill_victim file c' (select_code_cache_victim c') page_base to_read

-- The slot that holds the page, if it could be had, beside the new cache.
unfoldable pub load_code_page : ObjFile → CodeCache → CodeModule → ℕ → CodeCache × Option ℕ
load_code_page file c mod_ module_offset =
    let abs = u32 (mod_.object_offset + module_offset) in
    let page_base = abs - abs % 256 in
    let module_end = u32 (mod_.object_offset + mod_.length) in
    let to_read = min (module_end - page_base) code_page_size in
    if not c.is_open || leb module_end abs || (c.entry_count == 0)
    then (c, none)
    else serve file c (find_code_cache_entry c page_base) page_base to_read

-- The byte at an offset of the page that was loaded, if it lies inside the valid data.
abbrev pub byte_of : CodeCache → Option ℕ → ℕ → Option ℕ
byte_of c none page_offset = none
byte_of c (some slot) page_offset =
    if leb (c.entries slot).page_size page_offset
    then none
    else some ((c.entries slot).bytes page_offset)

-- The byte, or `none` where the code halts the machine with 0xFFFF and returns 0.
unfoldable pub read_code_byte_at : ObjFile → CodeCache → CodeModule → ℕ → CodeCache × Option ℕ
read_code_byte_at file c mod_ module_offset =
    let abs = u32 (mod_.object_offset + module_offset) in
    let page_offset = abs % 256 in
    let (c', entry) = load_code_page file c mod_ module_offset in (c', byte_of c' entry page_offset)

-- What `fetch_byte` reads at a program counter, given the slot that is bound: from its bytes where
-- the bound page covers the offset.
unfoldable pub fetch_from : ObjFile → CodeCache → CodeModule → ℕ → Option ℕ → CodeCache × Option ℕ
fetch_from file c mod_ program_counter none = read_code_byte_at file c mod_ program_counter
fetch_from file c mod_ program_counter (some slot) =
    let abs = u32 (mod_.object_offset + program_counter) in
    if leb c.current_base abs && ltb abs c.current_limit
    then (c, some ((c.entries slot).bytes (abs - c.current_base)))
    else read_code_byte_at file c mod_ program_counter

unfoldable pub fetch_at : ObjFile → CodeCache → CodeModule → ℕ → CodeCache × Option ℕ
fetch_at file c mod_ program_counter = fetch_from file c mod_ program_counter c.current

abbrev pub pinned : Entry → Entry
pinned e = if ltb e.pin_count 65535 then record e { pin_count = e.pin_count + 1 } else e

-- The loop of `pin_module_code_pages` from a page offset on; the fuel is the module's length and
-- one more, since each round advances by a page.
unfoldable pub pin_from : ObjFile → CodeModule → ℕ → CodeCache → ℕ → CodeCache × Bool
pin_from file mod_ zero c page_offset = (c, false)
pin_from file mod_ (suc fuel) c page_offset =
    let (c', entry) = load_code_page file c mod_ (u16 page_offset) in
    let rest : CodeCache × Bool = elim entry [
      | none ↦ (c', false)
      | some slot ↦
          pin_from file mod_ fuel (set_entry c' slot (pinned (c'.entries slot)))
            (u32 (page_offset + code_page_size))
    ] in
    if ltb page_offset mod_.length then rest else (c, true)

-- The current module and program counter are those of the machine.
unfoldable pub pin_module_code_pages :
    ObjFile → Image → CodeCache → ℕ → CodeModule → ℕ → CodeCache × Bool
pin_module_code_pages file image c module_id current program_counter =
    let mod_ = image.modules (module_id - 1) in
    let (c', done) = pin_from file mod_ (suc mod_.length) c 0 in
    let pinned_all =
      if done then ((load_code_page file c' current program_counter).0, true) else (c', false) in
    if ltb module_id 1 || ltb image.module_count module_id then (c, false) else pinned_all

-- One entry after the loop of `unpin_module_code_pages`, which visits each entry once.
abbrev pub unpinned : CodeModule → Entry → Entry
unpinned mod_ e =
    let module_start = mod_.object_offset in
    let module_end = u32 (mod_.object_offset + mod_.length) in
    if not e.valid || (e.pin_count == 0)
    then e
    else (if leb module_start e.page_base && ltb e.page_base module_end
        then record e { pin_count = e.pin_count - 1 }
        else e)

unfoldable pub unpin_module_code_pages : Image → CodeCache → ℕ → CodeCache
unpin_module_code_pages image c module_id =
    let mod_ = image.modules (module_id - 1) in
    let entries : Array Entry =
      λ i. if ltb i c.entry_count then unpinned mod_ (c.entries i) else c.entries i in
    if ltb module_id 1 || ltb image.module_count module_id
    then c
    else record c { entries = entries }
