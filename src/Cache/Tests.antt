-- ===== src/Cache/Tests.antt =====
-- Examples for the theorems on the page cache.
use linchpin.Base.{ℕ, suc, ◌+◌, ◌*◌, ◌%◌, ◌≡◌, ◌⊎◌, inl, inr, refl, true, none, some, [], arith}
use linchpin.Image.{CodeModule}
use linchpin.Cache.{
  ObjFile, CodeCache, select_code_cache_victim, load_code_page, fetch_at, pin_from,
}
use linchpin.Cache.Victim.{Victim, select_code_cache_victim-Victim}
use linchpin.Cache.Coherent.{Coherent, WholeReads}
use linchpin.Cache.Available.{load_code_page-some}
use linchpin.Cache.Loads.{Loaded, load_code_page-Loaded, fetch_at-content}
use linchpin.Cache.Pins.{Keeps, load_code_page-Keeps}
use linchpin.Cache.PinModule.{PinsFrom, pin_from-Resident}

abbrev sample_file : ObjFile
sample_file = record { seeks = λ p. true; delivered = λ p n. n; content = λ p. p * 3 % 256 }

abbrev sample_module : CodeModule
sample_module = record { module_id = 1; object_offset = 0x200; length = 0x480; procedures = [] }

-- Two slots with the pages at 0x200 and 0x300, of which the first is bound.
abbrev sample_cache : CodeCache
sample_cache = record {
  is_open = true;
  entries = λ i. record {
    page_base = 0x200 + 256 * i;
    page_size = 256;
    last_used_tick = 5 + i;
    pin_count = 0;
    valid = true;
    bytes = λ j. (0x200 + 256 * i + j) * 3 % 256;
  };
  entry_count = 2;
  current = some 0;
  current_base = 0x200;
  current_limit = 0x300;
  tick = 6;
  hits = 0;
  misses = 2;
  evictions = 0;
}

sample_file-WholeReads : WholeReads sample_file
sample_file-WholeReads p n = inl refl

sample_cache-Coherent : Coherent sample_file sample_cache
sample_cache-Coherent = record {
  pages = λ i lt ok. record {
    size = omega arith;
    aligned = omega arith;
    bounded = omega arith;
    same = λ j below. refl;
  };
  bound = λ s is. (ground arith, refl, ground arith, ground arith);
}

select_code_cache_victim-Victim_example :
    Victim sample_cache 2 (select_code_cache_victim sample_cache)
select_code_cache_victim-Victim_example = select_code_cache_victim-Victim sample_cache

load_code_page-Loaded_example :
    Loaded sample_file 0x400 (load_code_page sample_file sample_cache sample_module 0x210)
load_code_page-Loaded_example =
    load_code_page-Loaded sample_file sample_cache sample_module 0x210 sample_file-WholeReads
      sample_cache-Coherent

load_code_page-some_example :
    (s : ℕ) × ((load_code_page sample_file sample_cache sample_module 0x210).1 ≡ some s)
load_code_page-some_example =
    load_code_page-some sample_file sample_cache sample_module 0x210 1 (λ p. refl, λ p n. refl) refl
      (omega arith, inr refl) (omega arith)

fetch_at-content_example :
    let (c', byte) = fetch_at sample_file sample_cache sample_module 0x10 in
    Coherent sample_file c' × ((byte ≡ none) ⊎ (byte ≡ some (sample_file.content 0x210)))
fetch_at-content_example =
    fetch_at-content sample_file sample_cache sample_module 0x10 sample_file-WholeReads
      sample_cache-Coherent

load_code_page-Keeps_example :
    Keeps sample_cache 0x400 (load_code_page sample_file sample_cache sample_module 0x210)
load_code_page-Keeps_example = load_code_page-Keeps sample_file sample_cache sample_module 0x210

pin_from-Resident_example :
    PinsFrom sample_file sample_module sample_cache 0
      (pin_from sample_file sample_module (suc 0x480) sample_cache 0)
pin_from-Resident_example = pin_from-Resident sample_file sample_module sample_cache (omega arith)
