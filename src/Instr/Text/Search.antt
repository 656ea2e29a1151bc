-- ===== src/Instr/Text/Search.antt =====
-- What STRPOS, MEMCMP and MEMCMPO of src/LinchpinST/src/lpst_run_dispatch.c find.
use mathlib.Core.Path.{subst}
use linchpin.Base.{
  ℕ, zero, suc, ◌+◌, ◌≤◌, ◌<◌, ◌≡◌, ◌≢◌, ◌⊎◌, inl, inr, arith, Bool-cases, Option, some, ltb, ◌==◌,
  if-cases, u16,
}
use linchpin.Ram.{Ram, false_sentinel}
use linchpin.Aggregate.{read_aggregate_payload_byte}
use linchpin.Instr.Text.{search_from, compare_from}

-- The search through a string, from index `si` to `bound`: the place of the first byte that is
-- looked for, counted from 1, with no zero byte before it; or the sentinel, with none of them before
-- the first zero byte or the end.
pub data IsSearched (str : ℕ → ℕ) (target si bound : ℕ) : Option ℕ → Type 0 where
  found :
      (i : ℕ)
      → si ≤ i
      → i < bound
      → str i ≡ target
      → str i ≢ 0
      → ((j : ℕ) → si ≤ j → j < i → (str j ≢ target) × (str j ≢ 0))
      → IsSearched str target si bound (some (u16 (i + 1)))
  missing :
      (stop : ℕ)
      → si ≤ stop
      → stop ≤ bound
      → (stop ≡ bound) ⊎ (str stop ≡ 0)
      → ((j : ℕ) → si ≤ j → j < stop → (str j ≢ target) × (str j ≢ 0))
      → IsSearched str target si bound (some false_sentinel)

-- What holds at a place and at the places behind it.
from_here :
    (P : ℕ → Type 0) (si stop : ℕ)
    → P si
    → ((j : ℕ) → si + 1 ≤ j → j < stop → P j)
    → (j : ℕ) → si ≤ j
    → j < stop
    → P j
from_here P si stop here later j low high = elim (Bool-cases (j == si)) [
  | inl same ↦ subst P (ground arith) here
  | inr other ↦ later j (ground arith) high
]

later-IsSearched :
    (str : ℕ → ℕ) (target si bound : ℕ) (o : Option ℕ)
    → str si ≢ target
    → str si ≢ 0
    → IsSearched str target (si + 1) bound o
    → IsSearched str target si bound o
later-IsSearched str target si bound o other some_byte (found i low high here byte before) =
    found i (omega arith) high here byte
      (from_here (λ j. (str j ≢ target) × (str j ≢ 0)) si i (other, some_byte) before)
later-IsSearched str target si bound o other some_byte (missing stop low high why before) =
    missing stop (omega arith) high why
      (from_here (λ j. (str j ≢ target) × (str j ≢ 0)) si stop (other, some_byte) before)

-- STRPOS on a string in the RAM: it finds the place, counted from 1, of the first byte that is looked
-- for, with no zero byte before it; or it gives the sentinel, with none of them before the first zero
-- byte or the end of the string.
pub search_from-IsSearched :
    (ram : Ram) (handle target : ℕ) (str : ℕ → ℕ) (left si : ℕ)
    → ((j : ℕ) → si ≤ j → j < si + left → read_aggregate_payload_byte ram handle j ≡ some (str j))
    → IsSearched str target si (si + left) (search_from ram handle target left si)
unfolding search_from
search_from-IsSearched ram handle target str zero si reads =
    missing si (omega arith) (omega arith) (inl (omega arith)) (λ j low high. absurd (omega arith))
search_from-IsSearched ram handle target str (suc left) si reads =
    let rest =
      search_from-IsSearched ram handle target str left (si + 1)
        (λ j low high. reads j (omega arith) (omega arith)) in
    let result = IsSearched str target si (si + suc left) in
    rw (reads si (omega arith) (omega arith)) (
      if-cases result (str si == 0)
        (λ end_.
          missing si (omega arith) (omega arith) (inr (ground arith))
            (λ j low high. absurd (omega arith)))
        (λ byte.
          if-cases result (str si == target)
            (λ here.
              found si (omega arith) (omega arith) (ground arith) (ground arith)
                (λ j low high. absurd (omega arith)))
            (λ other.
              later-IsSearched str target si (si + suc left) _ (ground arith) (ground arith) (
                subst
                  (λ bound.
                    IsSearched str target (si + 1) bound
                      (search_from ram handle target left (si + 1)))
                  (omega arith) rest))))

-- The comparison of two blocks from index `ci` to `bound`: 0 if they are equal, and otherwise 1 or
-- -1, as a word, by the first difference.
pub data IsCompared (a b : ℕ → ℕ) (ci bound : ℕ) : Option ℕ → Type 0 where
  equal : ((j : ℕ) → ci ≤ j → j < bound → a j ≡ b j) → IsCompared a b ci bound (some 0)
  less :
      (i : ℕ)
      → ci ≤ i
      → i < bound
      → a i < b i
      → ((j : ℕ) → ci ≤ j → j < i → a j ≡ b j)
      → IsCompared a b ci bound (some 1)
  greater :
      (i : ℕ)
      → ci ≤ i
      → i < bound
      → b i < a i
      → ((j : ℕ) → ci ≤ j → j < i → a j ≡ b j)
      → IsCompared a b ci bound (some 65535)

later-IsCompared :
    (a b : ℕ → ℕ) (ci bound : ℕ) (o : Option ℕ)
    → a ci ≡ b ci
    → IsCompared a b (ci + 1) bound o
    → IsCompared a b ci bound o
later-IsCompared a b ci bound o same (equal all) =
    equal (from_here (λ j. a j ≡ b j) ci bound same all)
later-IsCompared a b ci bound o same (less i low high below before) =
    less i (omega arith) high below (from_here (λ j. a j ≡ b j) ci i same before)
later-IsCompared a b ci bound o same (greater i low high above before) =
    greater i (omega arith) high above (from_here (λ j. a j ≡ b j) ci i same before)

-- MEMCMP and MEMCMPO, on blocks that can be read: 0 exactly where all bytes are equal, 1 where the
-- first byte that differs is smaller in the first block, and -1, as a word, where it is greater.
pub compare_from-IsCompared :
    (first second : ℕ → Option ℕ) (a b : ℕ → ℕ) (left ci : ℕ)
    → ((j : ℕ) → ci ≤ j → j < ci + left → (first j ≡ some (a j)) × (second j ≡ some (b j)))
    → IsCompared a b ci (ci + left) (compare_from first second left ci)
unfolding compare_from
compare_from-IsCompared first second a b zero ci reads = equal (λ j low high. absurd (omega arith))
compare_from-IsCompared first second a b (suc left) ci reads =
    let (read_a, read_b) = reads ci (omega arith) (omega arith) in
    let rest =
      compare_from-IsCompared first second a b left (ci + 1)
        (λ j low high. reads j (omega arith) (omega arith)) in
    let result = IsCompared a b ci (ci + suc left) in
    rw (read_a, read_b)
      (if-cases result (ltb (a ci) (b ci))
        (λ smaller.
          less ci (omega arith) (omega arith) (ground arith) (λ j low high. absurd (omega arith)))
        (λ not_smaller.
          if-cases result (ltb (b ci) (a ci))
            (λ larger.
              greater ci (omega arith) (omega arith) (ground arith)
                (λ j low high. absurd (omega arith)))
            (λ not_larger. later-IsCompared a b ci (ci + suc left) _ (ground arith) (
              subst
                (λ bound. IsCompared a b (ci + 1) bound (compare_from first second left (ci + 1)))
                (omega arith) rest))))
