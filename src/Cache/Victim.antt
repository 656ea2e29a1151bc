-- ===== src/Cache/Victim.antt =====
-- The choice of a slot: what is found is what was asked for, and what is evicted is the least
-- recently used slot that is not pinned.
use mathlib.Core.Path.{subst}
use native.Mathlib.Decide.{ℕ_discrete}
use linchpin.Base.{
  ℕ, zero, suc, ◌+◌, ◌≤◌, ◌<◌, ◌≡◌, ◌≢◌, ◌⊎◌, inl, inr, refl, true, false, ◌&&◌, Option, none, some,
  ltb, ◌==◌, arith, Bool-cases,
}
use linchpin.Cache.{
  CodeCache, find_from, find_code_cache_entry, older, victim_from, select_code_cache_victim,
}

-- `find` is the answer of the search for a page among the slots `[lo, hi)`.
abbrev pub Found : CodeCache → ℕ → ℕ → ℕ → Option ℕ → Type 0
Found c base lo hi none =
    (j : ℕ) → lo ≤ j → j < hi → ((c.entries j).valid ≡ true) → (c.entries j).page_base ≢ base
Found c base lo hi (some i) =
    (lo ≤ i) × (i < hi) × ((c.entries i).valid ≡ true) × ((c.entries i).page_base ≡ base)

-- A slot that does not hold the page may be put before the range.
Found-widen :
    (c : CodeCache) (base i hi : ℕ)
    → ((c.entries i).valid && ((c.entries i).page_base == base)) ≡ false
    → (o : Option ℕ) → Found c base (i + 1) hi o
    → Found c base i hi o
Found-widen c base i hi other none f = λ j lo up ok same. elim (ℕ_discrete j i) [
  | yes here ↦ ground arith
  | no there ↦ f j (omega arith) up ok same
]
Found-widen c base i hi other (some k) f = (omega (arith, f.0), f.1, f.2, f.3)

find_from-Found :
    (c : CodeCache) (base left i hi : ℕ)
    → i + left ≡ hi
    → Found c base i hi (find_from c base left i)
unfolding find_from
find_from-Found c base zero i hi e = λ j lo up. absurd (omega arith)
find_from-Found c base (suc left) i hi e =
    elim (Bool-cases ((c.entries i).valid && ((c.entries i).page_base == base))) [
      | inl hit ↦ rw hit (omega arith, omega arith, ground arith, ground arith)
      | inr other ↦ rw other (
          Found-widen c base i hi other (find_from c base left (i + 1))
            (find_from-Found c base left (i + 1) hi (omega arith)))
    ]

-- The search for a page returns a valid slot below `entry_count` that holds the page, and `none` only if no
-- valid slot holds it.
pub find_code_cache_entry-Found :
    (c : CodeCache) (base : ℕ) → Found c base 0 c.entry_count (find_code_cache_entry c base)
unfolding find_code_cache_entry
find_code_cache_entry-Found c base =
    find_from-Found c base c.entry_count 0 c.entry_count (omega arith)

-- The slots `[0, n)` are valid, and `v` is the oldest of them that is not pinned, or all are pinned.
abbrev pub Oldest : CodeCache → ℕ → Option ℕ → Type 0
Oldest c n none = (j : ℕ) → j < n → ((c.entries j).valid ≡ true) × (0 < (c.entries j).pin_count)
Oldest c n (some v) =
    (v < n)
    × ((c.entries v).pin_count ≡ 0)
    × ((j : ℕ)
        → j < n
        → ((c.entries j).valid ≡ true)
          × ((c.entries j).pin_count ≡ 0
              → (c.entries v).last_used_tick ≤ (c.entries j).last_used_tick))

-- The choice that the code describes: the first slot that is empty, or else the least recently used
-- slot that is not pinned, or none if all are pinned.
abbrev pub Victim : CodeCache → ℕ → Option ℕ → Type 0
Victim c n choice =
    ((v : ℕ) × (choice ≡ some v)
      × (v < n)
      × ((c.entries v).valid ≡ false)
      × ((j : ℕ) → j < v → (c.entries j).valid ≡ true))
    ⊎ Oldest c n choice

older-Oldest :
    (c : CodeCache) (i : ℕ) (v : Option ℕ)
    → ((c.entries i).valid ≡ true)
    → Oldest c i v
    → Oldest c (suc i) (older c i v)
older-Oldest c i none ok all = elim (Bool-cases (ltb 0 (c.entries i).pin_count)) [
  | inl held ↦
      rw held
        (λ j lt. elim (ℕ_discrete j i) [ yes here ↦ ground arith | no there ↦ all j (omega arith) ])
  | inr loose ↦ rw loose (
    omega arith,
    ground arith,
    λ j lt. elim (ℕ_discrete j i) [
      | yes here ↦ (ground arith, λ free. ground arith)
      | no there ↦ ((all j (omega arith)).0, λ free. omega (arith, (all j (omega arith)).1))
    ],
  )
]
older-Oldest c i (some v) ok all = elim (Bool-cases (ltb 0 (c.entries i).pin_count)) [
  | inl held ↦ rw held (
    omega (arith, all.0),
    all.1,
    λ j lt. elim (ℕ_discrete j i) [
      | yes here ↦ (ground arith, λ free. ground arith)
      | no there ↦ all.2 j (omega arith)
    ],
  )
  | inr loose ↦ elim (Bool-cases (ltb (c.entries i).last_used_tick (c.entries v).last_used_tick)) [
    | inl less ↦
        rw (loose, less)
          (
            omega arith,
            ground arith,
            λ j lt. elim (ℕ_discrete j i) [
              | yes here ↦ (ground arith, λ free. ground arith)
              | no there ↦
                  let (valid, later) = all.2 j (omega arith) in
                  (valid, λ free. ground (arith, later free))
            ],
          )
    | inr not_less ↦
        rw (loose, not_less)
          (
            omega (arith, all.0),
            all.1,
            λ j lt. elim (ℕ_discrete j i) [
              | yes here ↦ (ground arith, λ free. ground arith)
              | no there ↦ all.2 j (omega arith)
            ],
          )
  ]
]

Oldest-valid :
    (c : CodeCache) (n : ℕ) (v : Option ℕ)
    → Oldest c n v
    → (j : ℕ) → j < n
    → (c.entries j).valid ≡ true
Oldest-valid c n none all j lt = (all j lt).0
Oldest-valid c n (some v) all j lt = (all.2 j lt).0

victim_from-Victim :
    (c : CodeCache) (left i n : ℕ) (v : Option ℕ)
    → i + left ≡ n
    → Oldest c i v
    → Victim c n (victim_from c left i v)
unfolding victim_from
victim_from-Victim c zero i n v e all = inr (subst (λ k. Oldest c k v) (omega arith) all)
victim_from-Victim c (suc left) i n v e all = elim (Bool-cases (c.entries i).valid) [
  | inl ok ↦ rw ok (
      victim_from-Victim c left (i + 1) n (older c i v) (omega arith)
        (subst (λ k. Oldest c k (older c i v)) (omega arith) (older-Oldest c i v ok all)))
  | inr empty ↦ rw empty (inl (i, refl, omega arith, empty, λ j lt. Oldest-valid c i v all j lt))
]

-- `select_code_cache_victim` gives the first slot that is empty, or else a slot that is least
-- recently used among those not pinned, or none if all are valid and pinned.
pub select_code_cache_victim-Victim :
    (c : CodeCache) → Victim c c.entry_count (select_code_cache_victim c)
unfolding select_code_cache_victim
select_code_cache_victim-Victim c =
    victim_from-Victim c c.entry_count 0 c.entry_count none (omega arith)
      (λ j lt. absurd (omega arith))
