-- ===== src/Setup/Tests.antt =====
-- Examples for the theorems on the set-up.
use linchpin.Base.{ℕ, ◌+◌, ◌-◌, ◌/◌, ◌%◌, ◌≡◌, refl, Bool, some, [], ◌∷◌, Array, ltb, arith}
use linchpin.Ram.{Ram}
use linchpin.Ram.Access.{Holds}
use linchpin.Image.{ProcHeader}
use linchpin.Heap.Invariant.{IsHeap}
use linchpin.Heap.Live.{IsLive}
use linchpin.Exec.Calls.{new_locals}
use linchpin.Setup.{
  lpst_seed_initial_ram, initial_memory, allocate_code_cache, compute_total_code_pages,
  lpst_bootstrap_locals, overlay,
}
use linchpin.Setup.Seed.{headed, initial_bytes, lpst_seed_initial_ram-Holds}
use linchpin.Setup.CachePages.{HadOrNot, allocate_code_cache-HadOrNot}
use linchpin.Setup.Start.{initial_memory-IsLive, lpst_bootstrap_locals-new_locals}

abbrev sample_ram : Ram
sample_ram b i = 0xee

abbrev sample_image : Array ℕ
sample_image i = i % 256

lpst_seed_initial_ram-Holds_example :
    Holds (lpst_seed_initial_ram sample_ram (some sample_image) 0x123) (
      headed
        (headed (initial_bytes sample_ram sample_image 0x123) 0x124 (0x124 / 2 + 3) (65528 - 0x124))
        0x10000
        0x8003
        0xfbf8)
lpst_seed_initial_ram-Holds_example =
    lpst_seed_initial_ram-Holds sample_ram sample_image 0x123 (omega arith)

initial_memory-IsLive_example :
    IsHeap (initial_memory sample_ram 0x123) × IsLive (initial_memory sample_ram 0x123) []
initial_memory-IsLive_example = initial_memory-IsLive sample_ram 0x123 (omega arith)

-- Only requests below 100 entries succeed.
abbrev few : ℕ → ℕ → Bool
few call n = ltb n 100

allocate_code_cache-HadOrNot_example :
    HadOrNot few (compute_total_code_pages 0x20000) (allocate_code_cache few 0 280 0x20000)
allocate_code_cache-HadOrNot_example = allocate_code_cache-HadOrNot few 0 280 0x20000

abbrev sample_header : ProcHeader
sample_header = record {
  local_count = 3;
  header_size = 4;
  initializers = record { local_index = 1; value = 42 } ∷ [];
}

lpst_bootstrap_locals-new_locals_example :
    new_locals sample_header 0 (λ i. 5) (λ i. 7) 1
    ≡ (lpst_bootstrap_locals (λ i. 7) 3 sample_header.initializers).1 1
unfolding lpst_bootstrap_locals overlay
lpst_bootstrap_locals-new_locals_example =
    lpst_bootstrap_locals-new_locals sample_header (λ i. 7)
      (lpst_bootstrap_locals (λ i. 7) 3 sample_header.initializers).1 (λ i. 5) (omega arith) refl 1
