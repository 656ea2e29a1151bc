-- ===== src/Setup/Start.antt =====
-- The start of a machine: the allocator's first state, and the locals of the entry procedure, by
-- src/LinchpinST/src/lpst_exec.c and lpst_vm.c.
use linchpin.Base.{
  ℕ, ◌≤◌, ◌≡◌, refl, ap, ◌∙◌, fun_ext, arith, List, [], ◌∷◌, Array, true, false, ◌&&◌, ltb, leb,
  if◌then◌else◌, inl, inr, Bool-cases, update, min,
}
use linchpin.Image.{Initializer, ProcHeader}
use linchpin.Exec.{max_locals}
use linchpin.Exec.Calls.{apply_initializers, new_locals}
use linchpin.Ram.{Ram, false_sentinel, segment_size_bytes}
use linchpin.Heap.Invariant.{IsHeap}
use linchpin.Heap.Live.{IsLive}
use linchpin.Setup.{initial_memory, overlay, lpst_bootstrap_locals}

-- A machine whose initial RAM fits in the low segment starts with a sound heap in which nothing is
-- in use: `IsHeap` holds, and `IsLive` with no block.
pub initial_memory-IsLive :
    (ram : Ram) (initial_ram_size : ℕ)
    → initial_ram_size ≤ segment_size_bytes
    → IsHeap (initial_memory ram initial_ram_size) × IsLive (initial_memory ram initial_ram_size) []
unfolding initial_memory
initial_memory-IsLive ram size fits = (
  record {
    low = ground arith;
    low_even = ground arith;
    high = ground arith;
    high_even = ground arith;
    high_floor = ground arith;
    floor_top = ground arith;
    top = ground arith;
    top_even = ground arith;
    freed = λ i lt used. elim (used refl) [ ];
  },
  record {
    used = tt;
    disjoint = tt;
    free = λ i lt used. tt;
    slots = λ i j lt lt' differ used used'. elim (used refl) [ ];
  },
)

overlay-apply :
    (n : ℕ) (initializers : List Initializer) (locals made : Array ℕ)
    → n ≤ 128
    → overlay locals n initializers ≡ (true, made)
    → apply_initializers initializers n locals ≡ made
unfolding overlay apply_initializers
overlay-apply n [] locals made small e = ap (λ p. p.1) e
overlay-apply n (x ∷ xs) locals made small e = elim (Bool-cases (leb n x.local_index)) [
  | inl out ↦ ground (arith)
  | inr inside ↦
      rw (in_range n x.local_index small inside)
        (overlay-apply n xs (update locals x.local_index x.value) made small (rw inside at e))
]
  where
    in_range : (n i : ℕ) → n ≤ 128 → leb n i ≡ false → (ltb i n && ltb i max_locals) ≡ true
    in_range n i small e = ground arith

-- The two ways to set up locals agree: where `lpst_bootstrap_locals`, which prepares the entry
-- procedure, succeeds with at most 128 locals, a call without arguments of the same procedure gives
-- every local the same value.
pub lpst_bootstrap_locals-new_locals :
    (header : ProcHeader) (locals made args : Array ℕ)
    → header.local_count ≤ 128
    → lpst_bootstrap_locals locals header.local_count header.initializers ≡ (true, made)
    → (i : ℕ) → new_locals header 0 args locals i ≡ made i
unfolding lpst_bootstrap_locals new_locals
lpst_bootstrap_locals-new_locals header locals made args small ok i = rw nothing_copied (
    ap (λ f. f i)
      (overlay-apply header.local_count header.initializers _ made small
        (ap (λ f. overlay f header.local_count header.initializers) (cleared header small) ∙ ok)))
  where
    nothing_copied : ltb i (min 0 header.local_count) ≡ false
    nothing_copied = ground arith

    cleared :
        (header : ProcHeader)
        → header.local_count ≤ 128
        → ◌≡◌ {A = Array ℕ}
            (λ j. if ltb j header.local_count && ltb j max_locals then false_sentinel else locals j)
            (λ j. if ltb j header.local_count then false_sentinel else locals j)
    cleared header small = fun_ext (λ j. ground arith)
