-- ===== src/Instr/Order/Folded.antt =====
-- What `compare_vm_strings_ignore_case` of src/LinchpinST/src/lpst_run_io.c compares.
use linchpin.Base.{
  ℕ, zero, suc, ◌+◌, ◌≤◌, ◌<◌, ◌≡◌, refl, arith, Bool, true, false, Option, some, ltb, ◌==◌,
  if◌then◌else◌, List, [], ◌∷◌,
}
use linchpin.Ram.{Ram}
use linchpin.Aggregate.{read_aggregate_payload_byte}
use linchpin.Instr.Order.{
  fold_compare_byte, try_read_ignore_case_compare_byte, compare_folded_from,
  compare_vm_strings_ignore_case,
}

-- The order of the dictionary: 1 if the first list comes first, -1, as a word, if the second does.
abbrev pub dictionary_order : List ℕ → List ℕ → ℕ
dictionary_order [] [] = 0
dictionary_order [] (b ∷ bs) = 1
dictionary_order (a ∷ as_) [] = 65535
dictionary_order (a ∷ as_) (b ∷ bs) =
    if a == b then dictionary_order as_ bs else (if ltb a b then 1 else 65535)

-- The capitals of so many letters from a place on.
abbrev pub capitals : (ℕ → ℕ) → (count place : ℕ) → List ℕ
capitals str zero i = []
capitals str (suc left) i = fold_compare_byte (str i) ∷ capitals str left (i + 1)

if-some :
    (b : Bool) {m : Option ℕ} {x : ℕ} (y : ℕ)
    → m ≡ some x
    → ◌≡◌ {A = Option ℕ} (if b then m else some y) (some (if b then x else y))
if-some true y e = e
if-some false y e = refl

abbrev Reads : Ram → ℕ → (ℕ → ℕ) → ℕ → ℕ → Type 0
Reads ram handle str i count =
    (j : ℕ) → i ≤ j → j < i + count → read_aggregate_payload_byte ram handle j ≡ some (str j)

compare_folded_from-dictionary_order :
    (ram : Ram) (h1 h2 : ℕ) (first second : ℕ → ℕ) (left1 i1 left2 i2 : ℕ)
    → Reads ram h1 first i1 left1
    → Reads ram h2 second i2 left2
    → compare_folded_from ram h1 h2 left1 i1 left2 i2
      ≡ some (dictionary_order (capitals first left1 i1) (capitals second left2 i2))
unfolding compare_folded_from try_read_ignore_case_compare_byte
compare_folded_from-dictionary_order ram h1 h2 first second zero i1 zero i2 r1 r2 = refl
compare_folded_from-dictionary_order ram h1 h2 first second zero i1 (suc left2) i2 r1 r2 =
    rw (r2 i2 (omega arith) (omega arith)) refl
compare_folded_from-dictionary_order ram h1 h2 first second (suc left1) i1 zero i2 r1 r2 =
    rw (r1 i1 (omega arith) (omega arith)) refl
compare_folded_from-dictionary_order ram h1 h2 first second (suc left1) i1 (suc left2) i2 r1 r2 =
    rw (r1 i1 (omega arith) (omega arith), r2 i2 (omega arith) (omega arith))
      (if-some (fold_compare_byte (first i1) == fold_compare_byte (second i2)) _ (
        compare_folded_from-dictionary_order ram h1 h2 first second left1 (i1 + 1) left2 (i2 + 1)
          (λ j low high. r1 j (omega arith) (omega arith))
          (λ j low high. r2 j (omega arith) (omega arith))))

-- STRICMP puts a part of one string and another string, both in the RAM, into the order of the
-- dictionary on their capitals, where a string comes before its extensions.
pub compare_vm_strings_ignore_case-dictionary_order :
    (ram : Ram) (h1 h2 offset1 length1 length2 : ℕ) (first second : ℕ → ℕ)
    → ((j : ℕ)
        → offset1 ≤ j
        → j < offset1 + length1
        → read_aggregate_payload_byte ram h1 j ≡ some (first j))
    → ((j : ℕ) → 0 ≤ j → j < 0 + length2 → read_aggregate_payload_byte ram h2 j ≡ some (second j))
    → compare_vm_strings_ignore_case ram h1 offset1 length1 h2 length2
      ≡ some (dictionary_order (capitals first length1 offset1) (capitals second length2 0))
unfolding compare_vm_strings_ignore_case
compare_vm_strings_ignore_case-dictionary_order ram h1 h2 offset1 length1 length2 first second r1
      r2 =
    compare_folded_from-dictionary_order ram h1 h2 first second length1 offset1 length2 0 r1 r2
