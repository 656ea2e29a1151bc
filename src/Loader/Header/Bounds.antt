-- ===== src/Loader/Header/Bounds.antt =====
-- What `parse_procedure_header` of src/LinchpinST/src/lpst_image.c bounds: the fields of a header, and
-- its end by that of the module.
use linchpin.Base.{
  ℕ, zero, suc, ◌+◌, ◌-◌, ◌/◌, ◌%◌, ◌^◌, ◌≤◌, ◌<◌, ◌≡◌, arith, Bool, true, false, ◌||◌, Bool-cases,
  inl, inr, leb, ltb, ◌==◌, if◌then◌else◌, Array, List, [], ◌∷◌, length,
}
use linchpin.Base.Lists.{length-append}
use linchpin.Image.{Initializer, ProcHeader}
use linchpin.Loader.Result.{Outcome, ok, fails, undefined}
use linchpin.Loader.Header.{
  kept, value_size, value_at, parse_initializers, header_of, parse_procedure_header,
}

length-kept :
    (found : List Initializer) (marker value : ℕ)
    → length found ≤ 64
    → length (kept found marker value) ≤ 64
length-kept found marker value few = elim (Bool-cases (ltb (length found) 64)) [
  | inl room ↦ rw room (
      ground
        (arith, length-append found (record { local_index = marker % 64; value = value } ∷ [])))
  | inr full ↦ rw full few
]

-- Initializers that were kept are at most 64, and the cursor behind them is inside the module.
Few : ℕ → Outcome (List Initializer × ℕ) → Type 0
Few len (ok (found, cursor)) = (length found ≤ 64) × (cursor ≤ len)
Few len (fails e) = Unit
Few len undefined = Unit

Few-if :
    (len : ℕ) (b : Bool) (x y : Outcome (List Initializer × ℕ))
    → Few len x
    → Few len y
    → Few len (if b then x else y)
Few-if len true x y p q = p
Few-if len false x y p q = q

parse_initializers-Few :
    (fuel : ℕ) (bytes : Array ℕ) (len cursor : ℕ) (found : List Initializer)
    → length found ≤ 64
    → Few len (parse_initializers fuel bytes len cursor found)
unfolding parse_initializers Few
parse_initializers-Few zero bytes len cursor found few = tt
parse_initializers-Few (suc fuel) bytes len cursor found few =
    let small = length-kept found (bytes cursor) (value_at bytes (bytes cursor) (cursor + 1)) few in
    let marker = bytes cursor in
    let next = cursor + 1 + value_size marker in
    let rest =
      parse_initializers-Few fuel bytes len next
        (kept found marker (value_at bytes marker (cursor + 1))) small in
    elim (Bool-cases (leb len cursor || ltb len next)) [
      | inl beyond ↦ rw beyond tt
      | inr inside ↦ elim (Bool-cases (marker / 2 ^ 7 % 2 == 1)) [
        | inl last ↦ rw (inside, last) (small, ground arith)
        | inr more ↦ rw (inside, more) rest
      ]
    ]

-- A header that was read: what its fields are bounded by.
abbrev pub IsHeader : ProcHeader → Type 0
IsHeader h = (h.local_count < 128) × (h.header_size < 256) × (length h.initializers ≤ 64)

header_of-IsHeader :
    (byte len offset : ℕ) (o : Outcome (List Initializer × ℕ)) {h : ProcHeader}
    → offset < len
    → Few len o
    → header_of byte offset o ≡ ok h
    → IsHeader h × (offset + h.header_size ≤ len)
unfolding Few
header_of-IsHeader byte len offset (ok (found, cursor)) lt few e = ground (arith)
header_of-IsHeader byte len offset (fails x) lt few e = cc
header_of-IsHeader byte len offset undefined lt few e = cc

pub parse_procedure_header-IsHeader :
    (bytes : Array ℕ) (len offset : ℕ) {h : ProcHeader}
    → parse_procedure_header bytes len offset ≡ ok h
    → (offset < len) × IsHeader h × (offset + h.header_size ≤ len)
unfolding parse_procedure_header Few
parse_procedure_header-IsHeader bytes len offset e =
    let byte = bytes offset in
    let parsed =
      parse_initializers-Few (len - (offset + 1)) bytes len (offset + 1) [] (omega arith) in
    elim (Bool-cases (leb len offset)) [
      | inl out ↦ absurd (cc (rw out at e))
      | inr inside ↦ elim (Bool-cases (byte / 2 ^ 7 % 2 == 1)) [
        | inl flagged ↦
            let (fits, end_) =
              header_of-IsHeader byte len offset _ (ground arith) parsed
                (rw (inside, flagged) at e) in
            (ground arith, fits, end_)
        | inr plain ↦
            let (fits, end_) =
              header_of-IsHeader byte len offset (ok ([], offset + 1)) (ground arith)
                (omega arith, ground arith) (rw (inside, plain) at e) in
            (ground arith, fits, end_)
      ]
    ]
