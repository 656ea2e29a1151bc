-- ===== src/Loader/Header.antt =====
-- Procedure headers: `parse_procedure_header` of src/LinchpinST/src/lpst_image.c.
pub mod Bounds
pub mod RoundTrip
use linchpin.Base.{
  ℕ, zero, suc, ◌+◌, ◌-◌, ◌*◌, ◌/◌, ◌%◌, ◌^◌, ◌||◌, Bool, true, false, bit_or, leb, ltb, ◌==◌,
  if◌then◌else◌, u8, u16, Array, List, [], ◌∷◌, ◌++◌, length,
}
use linchpin.Image.{Initializer, ProcHeader}
use linchpin.Exec.Entry.{sign_extend}
use linchpin.Loader.Result.{LoadError, err_header_parse, Outcome, ok, fails, undefined}

unfoldable pub read_le16 : Array ℕ → ℕ → ℕ
read_le16 p i = u16 (bit_or (p i) (p (i + 1) * 2 ^ 8))

abbrev pub max_initializers_per_proc : ℕ
max_initializers_per_proc = 64

-- Whether the value has one byte, how many bytes it takes, and the value itself.
abbrev pub is_byte : ℕ → Bool
is_byte marker = marker / 2 ^ 6 % 2 == 1

abbrev pub value_size : ℕ → ℕ
value_size marker = if is_byte marker then 1 else 2

unfoldable pub value_at : Array ℕ → ℕ → ℕ → ℕ
value_at bytes marker cursor =
    if is_byte marker then sign_extend (bytes cursor) else read_le16 bytes cursor

-- One more initializer, as long as there is room.
abbrev pub kept : List Initializer → ℕ → ℕ → List Initializer
kept found marker value =
    if ltb (length found) max_initializers_per_proc
    then found ++ record { local_index = marker % 64; value = value } ∷ []
    else found

-- The loop over the initializers, with the cursor. Each round begins with the test that the cursor
-- lies inside the module, so the fuel, the bytes that are left, ends only where that test fails.
unfoldable pub parse_initializers :
    ℕ → Array ℕ → ℕ → ℕ → List Initializer → Outcome (List Initializer × ℕ)
parse_initializers zero bytes module_length cursor found = fails err_header_parse
parse_initializers (suc fuel) bytes module_length cursor found =
    let marker = bytes cursor in
    let next = cursor + 1 + value_size marker in
    let found' = kept found marker (value_at bytes marker (cursor + 1)) in
    let rest = parse_initializers fuel bytes module_length next found' in
    if leb module_length cursor || ltb module_length next
    then fails err_header_parse
    else (if marker / 2 ^ 7 % 2 == 1 then ok (found', next) else rest)

abbrev pub header_of : ℕ → ℕ → Outcome (List Initializer × ℕ) → Outcome ProcHeader
header_of header_byte procedure_offset (ok (initializers, cursor)) = ok (record {
  local_count = header_byte % 128;
  header_size = u8 (cursor - procedure_offset);
  initializers = initializers;
})
header_of header_byte procedure_offset (fails e) = fails e
header_of header_byte procedure_offset undefined = undefined

unfoldable pub parse_procedure_header : Array ℕ → ℕ → ℕ → Outcome ProcHeader
parse_procedure_header bytes module_length procedure_offset =
    let header_byte = bytes procedure_offset in
    let cursor = procedure_offset + 1 in
    let parsed : Outcome (List Initializer × ℕ) =
      if header_byte / 2 ^ 7 % 2 == 1
      then parse_initializers (module_length - cursor) bytes module_length cursor []
      else ok ([], cursor) in
    if leb module_length procedure_offset
    then fails err_header_parse
    else header_of header_byte procedure_offset parsed
