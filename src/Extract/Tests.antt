-- ===== src/Extract/Tests.antt =====
-- An example for the theorem on selected records: a search for tag 9 in the vector with handle 4.
use linchpin.Base.{ℕ, ◌-◌, ◌%◌, ◌≡◌, ◌≢◌, ltb, if◌then◌else◌, List, [], ◌∷◌, zero, suc}
use linchpin.Ram.{Ram, false_sentinel}
use linchpin.Extract.{try_select_ext37_record}
use linchpin.Extract.Inside.{IsInside, try_select_ext37_record-IsInside}
use linchpin.Extract.Result.{Gives}

abbrev byte_of_list : List ℕ → ℕ → ℕ
byte_of_list [] i = 0
byte_of_list (x ∷ xs) zero = x
byte_of_list (x ∷ xs) (suc i) = byte_of_list xs i

abbrev record_ram : Ram
record_ram b i =
    if ltb i 8 then 0 else byte_of_list (7 ∷ 0 ∷ 2 ∷ 65 ∷ 66 ∷ 0 ∷ 9 ∷ 0 ∷ 128 ∷ []) (i - 8)

try_select_ext37_record-IsInside_example :
    Gives
      (λ r. IsInside 0 8 r × (9 ≢ false_sentinel → r.tag ≡ 9 % 256))
      (try_select_ext37_record record_ram 4 8 false_sentinel 9 false_sentinel)
try_select_ext37_record-IsInside_example =
    try_select_ext37_record-IsInside record_ram 4 8 false_sentinel 9 false_sentinel
