-- ===== src/Extract/Inside.antt =====
-- Where the records and fields lie that src/LinchpinST/src/lpst_run_dispatch_ext37.c selects.
use linchpin.Base.{
  ℕ, zero, suc, ◌+◌, ◌-◌, ◌*◌, ◌/◌, ◌%◌, ◌^◌, ◌≤◌, ◌≡◌, ◌≢◌, refl, arith, leb, ltb, ◌==◌,
  if◌then◌else◌, if-cases,
}
use linchpin.Ram.{Ram, false_sentinel}
use linchpin.Extract.{
  Selection, field_lengths, try_measure_ext37_packed_field, measure_fields,
  try_measure_ext37_payload, try_measure_ext37_record, skip_records, search_records, start_of,
  try_select_ext37_record,
}
use linchpin.Extract.Result.{
  Gives, found-Gives, absent-Gives, >>=-Gives, then-Gives, require-Gives, mono-Gives,
}

-- A record whose words lie in those from an offset on, with a payload that its words have room for.
pub record IsInside (offset remaining : ℕ) (r : Selection) : Type 0 where
  pub low : offset ≤ r.word_offset
  pub some_words : 1 ≤ r.word_length
  pub high : r.word_offset + r.word_length ≤ offset + remaining
  pub payload : r.payload_byte_offset ≡ r.word_offset * 2 + 2
  pub content : r.payload_byte_length ≤ (r.word_length - 1) * 2

-- A field's bytes fit its words, which fit what remains.
abbrev FitsWords : ℕ → ℕ × ℕ → Type 0
FitsWords remaining lengths = (lengths.0 ≤ lengths.1 * 2) × (lengths.1 ≤ remaining)

field_lengths-bytes : (logical : ℕ) → (field_lengths logical).0 ≤ (field_lengths logical).1 * 2
field_lengths-bytes logical =
    if-cases (λ (r : ℕ × ℕ). r.0 ≤ r.1 * 2) (logical / 2 ^ 7 % 2 == 1) (λ real. omega arith)
      (λ text. omega arith)

try_measure_ext37_packed_field-FitsWords :
    (ram : Ram) (handle offset remaining : ℕ)
    → Gives (FitsWords remaining) (try_measure_ext37_packed_field ram handle offset remaining)
unfolding try_measure_ext37_packed_field
try_measure_ext37_packed_field-FitsWords ram handle offset remaining = require-Gives _ _ (λ _.
    then-Gives _ _ (λ logical.
      require-Gives (leb (field_lengths logical).1 remaining) _
        (λ fits. found-Gives (field_lengths-bytes logical, ground arith))))

measure_fields-FitsWords :
    (ram : Ram) (handle left cursor remaining bytes words : ℕ)
    → bytes ≤ words * 2
    → words ≤ remaining
    → Gives (FitsWords remaining) (measure_fields ram handle left cursor remaining bytes words)
unfolding measure_fields
measure_fields-FitsWords ram handle zero cursor remaining bytes words small fits =
    found-Gives (small, fits)
measure_fields-FitsWords ram handle (suc left) cursor remaining bytes words small fits =
    >>=-Gives _ (try_measure_ext37_packed_field-FitsWords ram handle cursor (remaining - words))
      (λ field (field_small, field_fits).
        measure_fields-FitsWords ram handle left (cursor + field.1 * 2) remaining (bytes + field.0)
          (words + field.1) (omega arith) (omega arith))

try_measure_ext37_payload-FitsWords :
    (ram : Ram) (handle offset remaining count : ℕ)
    → Gives (FitsWords remaining) (try_measure_ext37_payload ram handle offset remaining count)
unfolding try_measure_ext37_payload
try_measure_ext37_payload-FitsWords ram handle offset remaining count =
    if-cases (Gives (FitsWords remaining)) (count == 0)
      (λ single. try_measure_ext37_packed_field-FitsWords ram handle offset remaining)
      (λ several.
        measure_fields-FitsWords ram handle count offset remaining 0 0 (omega arith) (omega arith))

try_measure_ext37_record-IsInside :
    (ram : Ram) (handle offset remaining : ℕ)
    → Gives (IsInside offset remaining) (try_measure_ext37_record ram handle offset remaining)
unfolding try_measure_ext37_record
try_measure_ext37_record-IsInside ram handle offset remaining =
    require-Gives (ltb 0 remaining) _ (λ some_left. then-Gives _ _ (λ header.
      >>=-Gives _
        (try_measure_ext37_payload-FitsWords ram handle (offset * 2 + 2) (remaining - 1)
          (header / 2 ^ 8))
        (λ payload (small, fits). require-Gives _ _ (λ _. found-Gives (record {
          low = omega arith;
          some_words = omega arith;
          high = ground arith;
          payload = refl;
          content = omega arith;
        })))))

-- The words that remain after records were passed over.
abbrev Remains : ℕ → ℕ → ℕ × ℕ → Type 0
Remains offset remaining place = (offset ≤ place.0) × (place.0 + place.1 ≡ offset + remaining)

skip_records-Remains :
    (ram : Ram) (handle left offset remaining : ℕ)
    → Gives (Remains offset remaining) (skip_records ram handle left offset remaining)
unfolding skip_records
skip_records-Remains ram handle zero offset remaining = found-Gives (omega arith, refl)
skip_records-Remains ram handle (suc left) offset remaining =
    >>=-Gives _ (try_measure_ext37_record-IsInside ram handle offset remaining) (λ r inside.
      let low = inside.low in
      let high = inside.high in
      mono-Gives (λ place (behind, same). (omega arith, omega arith))
        (skip_records-Remains ram handle left (offset + r.word_length) (remaining - r.word_length)))

widen :
    {offset remaining offset' remaining' : ℕ} {r : Selection}
    → offset ≤ offset'
    → offset' + remaining' ≤ offset + remaining
    → IsInside offset' remaining' r
    → IsInside offset remaining r
widen low high inside = record {
  low = let inner = inside.low in omega arith;
  some_words = inside.some_words;
  high = let inner = inside.high in omega arith;
  payload = inside.payload;
  content = inside.content;
}

search_records-IsInside :
    (ram : Ram) (handle tag fuel offset remaining : ℕ)
    → Gives
        (λ r. IsInside offset remaining r × (r.tag ≡ tag))
        (search_records ram handle tag fuel offset remaining)
unfolding search_records
search_records-IsInside ram handle tag zero offset remaining = absent-Gives
search_records-IsInside ram handle tag (suc fuel) offset remaining = require-Gives _ _ (λ _.
    >>=-Gives _ (try_measure_ext37_record-IsInside ram handle offset remaining) (λ r inside.
      let low = inside.low in
      let high = inside.high in
      if-cases (Gives (λ q. IsInside offset remaining q × (q.tag ≡ tag))) (r.tag == tag)
        (λ same. found-Gives (inside, ground arith))
        (λ other.
          mono-Gives (λ q (further, same). (widen (omega arith) (omega arith) further, same))
            (search_records-IsInside ram handle tag fuel (offset + r.word_length)
              (remaining - r.word_length)))))

-- A record that EXTRACT selects has its words, at least one, within those that the program names, from
-- the first one that it names on, and its payload has at most as many bytes as its words behind the
-- header. If a tag was asked for, the record has it.
pub try_select_ext37_record-IsInside :
    (ram : Ram) (handle span initial tag_selector skip_count : ℕ)
    → Gives
        (λ r.
          IsInside (start_of initial) span r
          × (tag_selector ≢ false_sentinel → r.tag ≡ tag_selector % 256))
        (try_select_ext37_record ram handle span initial tag_selector skip_count)
unfolding try_select_ext37_record
try_select_ext37_record-IsInside ram handle span initial tag_selector skip_count =
    require-Gives _ _ (λ _.
      >>=-Gives _
        (skip_records-Remains ram handle (if skip_count == false_sentinel then 0 else skip_count)
          (start_of initial) span)
        (λ place (behind, same).
          if-cases (Gives _) (tag_selector == false_sentinel)
            (λ no_tag.
              mono-Gives
                (λ r inside. (widen behind (omega arith) inside, λ some_tag. absurd (ground arith)))
                (try_measure_ext37_record-IsInside ram handle place.0 place.1))
            (λ some_tag.
              mono-Gives (λ r (inside, tag). (widen behind (omega arith) inside, λ _. tag))
                (search_records-IsInside ram handle (tag_selector % 256) place.1 place.0 place.1))))
