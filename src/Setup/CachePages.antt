-- ===== src/Setup/CachePages.antt =====
-- The size of the code cache: `choose_code_cache_entry_count` and `allocate_code_cache` of
-- src/LinchpinST/src/lpst_exec.c.
use native.Mathlib.Decide.{ℕ_discrete}
use linchpin.Base.{
  ap, sym, ◌∙◌, ℕ, zero, suc, ◌+◌, ◌/◌, ◌≤◌, ◌≡◌, ◌⊎◌, inl, inr, refl, arith, Bool, true, false,
  Option, none, some, Bool-cases,
}
use linchpin.Setup.{
  compute_total_code_pages, choose_code_cache_entry_count, clamped_entries, budget_of, halving,
  allocate_code_cache,
}

compute_total_code_pages-pos : (n : ℕ) → 1 ≤ compute_total_code_pages n
unfolding compute_total_code_pages
compute_total_code_pages-pos n = ground arith

clamped_entries-bounds :
    (bought total : ℕ)
    → 1 ≤ total
    → (1 ≤ clamped_entries bought total) × (clamped_entries bought total ≤ total)
clamped_entries-bounds bought total pos = ground arith

choose-bounds :
    (available entry_bytes code_end : ℕ)
    → let n = choose_code_cache_entry_count available entry_bytes code_end in
      (1 ≤ n) × (n ≤ compute_total_code_pages code_end)
unfolding choose_code_cache_entry_count
choose-bounds available entry_bytes code_end =
    clamped_entries-bounds (budget_of available / entry_bytes) (compute_total_code_pages code_end)
      (compute_total_code_pages-pos code_end)

-- A count that was had from `calloc` and lies within bounds, or the failure for a single entry.
abbrev pub HadOrNot : (ℕ → ℕ → Bool) → ℕ → Option ℕ → Type 0
HadOrNot calloc most got =
    ((n : ℕ) × (call : ℕ) × ((got ≡ some n) × (1 ≤ n) × (n ≤ most) × (calloc call n ≡ true)))
    ⊎ ((call : ℕ) × ((got ≡ none) × (calloc call 1 ≡ false)))

HadOrNot-mono :
    (calloc : ℕ → ℕ → Bool) (most most' : ℕ) (got : Option ℕ)
    → most ≤ most'
    → HadOrNot calloc most got
    → HadOrNot calloc most' got
HadOrNot-mono calloc most most' got le (inl (n, call, (e, pos, bound, had))) =
    inl (n, call, (e, pos, ground arith, had))
HadOrNot-mono calloc most most' got le (inr none_left) = inr none_left

halving-refused :
    (calloc : ℕ → ℕ → Bool) (fuel call n : ℕ)
    → 2 ≤ n
    → calloc call n ≡ false
    → halving calloc (suc fuel) call n ≡ halving calloc fuel (call + 1) (n / 2)
unfolding halving
halving-refused calloc fuel call n two refused = ground arith

halving-had :
    (calloc : ℕ → ℕ → Bool) (fuel call n : ℕ)
    → 1 ≤ n
    → calloc call n ≡ true
    → halving calloc (suc fuel) call n ≡ some n
unfolding halving
halving-had calloc fuel call n pos had = ground arith

halving-last :
    (calloc : ℕ → ℕ → Bool) (fuel call : ℕ)
    → calloc call 1 ≡ false
    → halving calloc (suc fuel) call 1 ≡ none
unfolding halving
halving-last calloc fuel call refused = ground arith

halving-HadOrNot :
    (calloc : ℕ → ℕ → Bool) (fuel call n : ℕ)
    → n ≤ fuel
    → 1 ≤ n
    → HadOrNot calloc n (halving calloc fuel call n)
halving-HadOrNot calloc zero call n enough pos = ground arith
halving-HadOrNot calloc (suc fuel) call n enough pos = elim (Bool-cases (calloc call n)) [
  | inl had ↦
      rw (halving-had calloc fuel call n pos had) (inl (n, call, (refl, pos, omega arith, had)))
  | inr refused ↦ elim (ℕ_discrete n 1) [
    | yes one ↦ rw one (
        rw (halving-last calloc fuel call (ap (calloc call) (sym one) ∙ refused))
          (inr (call, (refl, ap (calloc call) (sym one) ∙ refused))))
    | no many ↦ rw (halving-refused calloc fuel call n (ground arith) refused) (
        HadOrNot-mono calloc (n / 2) n (halving calloc fuel (call + 1) (n / 2)) (omega arith)
          (halving-HadOrNot calloc fuel (call + 1) (n / 2) (omega arith) (ground arith)))
  ]
]

-- The code cache gets between one slot and as many as the file has pages, a count for which
-- `calloc` succeeded, whatever the memory reported; it gets none only where `calloc` refused even a
-- single slot.
pub allocate_code_cache-HadOrNot :
    (calloc : ℕ → ℕ → Bool) (available_bytes entry_bytes code_end_offset : ℕ)
    → HadOrNot calloc
        (compute_total_code_pages code_end_offset)
        (allocate_code_cache calloc available_bytes entry_bytes code_end_offset)
unfolding allocate_code_cache
allocate_code_cache-HadOrNot calloc available entry_bytes code_end =
    let n = choose_code_cache_entry_count available entry_bytes code_end in
    let (pos, most) = choose-bounds available entry_bytes code_end in
    HadOrNot-mono calloc n (compute_total_code_pages code_end) (halving calloc n 0 n) most
      (halving-HadOrNot calloc n 0 n (omega arith) pos)
