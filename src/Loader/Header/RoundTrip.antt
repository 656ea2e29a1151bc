-- ===== src/Loader/Header/RoundTrip.antt =====
-- A header that is written out by the format, as the comment on `parse_procedure_header` in
-- src/LinchpinST/src/lpst_image.c has it, is read back.
use native.Mathlib.Nat.{add-zero}
use linchpin.Base.{
  ℕ, zero, suc, ◌+◌, ◌-◌, ◌*◌, ◌/◌, ◌%◌, ◌^◌, ◌≤◌, ◌<◌, ◌≡◌, refl, ◌∙◌, arith, ◌||◌, true, false,
  leb, ltb, ◌==◌, if◌then◌else◌, u8, Array, List, [], ◌∷◌, ◌++◌, length,
}
use mathlib.Core.List.{append_assoc, append-nil}
use linchpin.Base.Bits.{bit_or-shl}
use linchpin.Base.Lists.{length-append}
use linchpin.Image.{Initializer, ProcHeader}
use linchpin.Exec.Entry.{sign_extend}
use linchpin.Loader.Result.{Outcome, ok}
use linchpin.Loader.Header.{
  read_le16, value_size, value_at, kept, parse_initializers, parse_procedure_header,
}

-- An initializer in one of its two forms: a byte that is extended, or a word.
pub data Coded : Type 0 where
  short : (local_index byte : ℕ) → Coded
  long : (local_index word : ℕ) → Coded

abbrev pub IsCoded : Coded → Type 0
IsCoded (short i byte) = (i < 64) × (byte < 256)
IsCoded (long i word) = (i < 64) × (word < 65536)

abbrev pub AllCoded : List Coded → Type 0
AllCoded [] = Unit
AllCoded (c ∷ cs) = IsCoded c × AllCoded cs

abbrev pub meaning : Coded → Initializer
meaning (short i byte) = record { local_index = i; value = sign_extend byte }
meaning (long i word) = record { local_index = i; value = word }

abbrev pub meanings : List Coded → List Initializer
meanings [] = []
meanings (c ∷ cs) = meaning c ∷ meanings cs

-- The bytes of one initializer; bit 7 of its marker says whether it is the last one.
abbrev pub encode_one : Coded → ℕ → List ℕ
encode_one (short i byte) last = (i + 64 + last * 128) ∷ byte ∷ []
encode_one (long i word) last = (i + last * 128) ∷ (word % 256) ∷ (word / 256) ∷ []

abbrev pub encode_all : Coded → List Coded → List ℕ
encode_all c [] = encode_one c 1
encode_all c (d ∷ cs) = encode_one c 0 ++ encode_all d cs

abbrev pub encode_header : ℕ → List Coded → List ℕ
encode_header local_count [] = local_count ∷ []
encode_header local_count (c ∷ cs) = (local_count + 128) ∷ encode_all c cs

-- The bytes from a place on are those of the list.
abbrev pub Placed : Array ℕ → ℕ → List ℕ → Type 0
Placed bytes i [] = Unit
Placed bytes i (x ∷ xs) = (bytes i ≡ x) × Placed bytes (i + 1) xs

one_size : Coded → ℕ
one_size (short i byte) = 2
one_size (long i word) = 3

-- What the code finds in the bytes of one initializer.
record Reads (bytes : Array ℕ) (cursor : ℕ) (c : Coded) (last : ℕ) : Type 0 where
  bit : bytes cursor / 2 ^ 7 % 2 ≡ last
  size : value_size (bytes cursor) + 1 ≡ one_size c
  name : bytes cursor % 64 ≡ (meaning c).local_index
  value : value_at bytes (bytes cursor) (cursor + 1) ≡ (meaning c).value

read_le16-word :
    (bytes : Array ℕ) (i word : ℕ)
    → word < 65536
    → bytes i ≡ word % 256
    → bytes (i + 1) ≡ word / 256
    → read_le16 bytes i ≡ word
unfolding read_le16
read_le16-word bytes i word small lo hi =
    rw (lo, hi) (omega (arith, bit_or-shl 8 (word / 256) (word % 256)))

Reads-encode_one :
    (bytes : Array ℕ) (cursor last : ℕ) (c : Coded) (rest : List ℕ)
    → last < 2
    → IsCoded c
    → Placed bytes cursor (encode_one c last ++ rest)
    → Reads bytes cursor c last
unfolding one_size value_at
Reads-encode_one bytes cursor last (short i byte) rest flag fits placed = record {
  bit = omega arith;
  size = ground arith;
  name = omega arith;
  value = ground arith;
}
Reads-encode_one bytes cursor last (long i word) rest flag fits placed = record {
  bit = omega arith;
  size = ground arith;
  name = omega arith;
  value = ground (arith, read_le16-word bytes (cursor + 1) word fits.1 placed.1.0 placed.1.1.0);
}

Placed-append :
    (bytes : Array ℕ) (i : ℕ) (xs ys : List ℕ)
    → Placed bytes i (xs ++ ys)
    → Placed bytes (i + length xs) ys
Placed-append bytes i [] ys placed = rw (add-zero i) placed
Placed-append bytes i (x ∷ xs) ys placed =
    rw (add_suc i (length xs)) (Placed-append bytes (i + 1) xs ys placed.1)
  where
    add_suc : (a b : ℕ) → a + suc b ≡ a + 1 + b
    add_suc a b = omega arith

length-encode_one : (c : Coded) (last : ℕ) → length (encode_one c last) ≡ one_size c
unfolding one_size
length-encode_one (short i byte) last = refl
length-encode_one (long i word) last = refl

one_more :
    (fuel : ℕ) (bytes : Array ℕ) (module_length cursor next : ℕ) (found found' : List Initializer)
    → cursor + 1 + value_size (bytes cursor) ≡ next
    → cursor < module_length
    → next ≤ module_length
    → kept found (bytes cursor) (value_at bytes (bytes cursor) (cursor + 1)) ≡ found'
    → parse_initializers (suc fuel) bytes module_length cursor found ≡ (
        if bytes cursor / 2 ^ 7 % 2 == 1
        then ok (found', next)
        else parse_initializers fuel bytes module_length next found')
unfolding parse_initializers
one_more fuel bytes module_length cursor next found found' at_next inside fits taken =
    rw (at_next, taken, within) refl
  where
    within : (leb module_length cursor || ltb module_length next) ≡ false
    within = ground arith

kept-meaning :
    (found : List Initializer) (marker value : ℕ) (m : Initializer)
    → length found < 64
    → marker % 64 ≡ m.local_index
    → value ≡ m.value
    → kept found marker value ≡ found ++ m ∷ []
kept-meaning found marker value m room name is = rw (name, is, free) refl
  where
    free : ltb (length found) 64 ≡ true
    free = ground arith

module _ (bytes : Array ℕ) (module_length : ℕ) (c : Coded) (cursor last : ℕ)
    (found : List Initializer) (inside : cursor + one_size c ≤ module_length)
    (room : length found < 64) (r : Reads bytes cursor c last) where
  parse-one :
      (fuel : ℕ)
      → parse_initializers (suc fuel) bytes module_length cursor found ≡ (
          if last == 1
          then ok (found ++ meaning c ∷ [], cursor + one_size c)
          else parse_initializers fuel bytes module_length
              (cursor + one_size c)
              (found ++ meaning c ∷ []))
  parse-one fuel = rw (← r.bit) (
      one_more fuel bytes module_length cursor (cursor + one_size c) found (found ++ meaning c ∷ [])
        (omega (arith, r.size)) (omega (arith, r.size)) inside
        (kept-meaning found (bytes cursor) _ (meaning c) room r.name r.value))

one_size-pos : (c : Coded) → 2 ≤ one_size c
unfolding one_size
one_size-pos (short i byte) = omega arith
one_size-pos (long i word) = omega arith

encode_all-pos : (cs : List Coded) (c : Coded) → 0 < length (encode_all c cs)
encode_all-pos [] c = omega (arith, length-encode_one c 1, one_size-pos c)
encode_all-pos (d ∷ cs) c =
    omega (arith, length-append (encode_one c 0) (encode_all d cs), encode_all-pos cs d)

-- The loop over initializers that are written out from the cursor on.
parse_initializers-encode_all :
    (bytes : Array ℕ) (module_length : ℕ) (cs : List Coded) (c : Coded) (fuel cursor : ℕ)
    (found : List Initializer)
    → AllCoded (c ∷ cs)
    → Placed bytes cursor (encode_all c cs)
    → cursor + length (encode_all c cs) ≤ module_length
    → module_length ≤ cursor + fuel
    → length found + length (c ∷ cs) ≤ 64
    → parse_initializers fuel bytes module_length cursor found
      ≡ ok (found ++ meanings (c ∷ cs), cursor + length (encode_all c cs))
parse_initializers-encode_all bytes len cs c zero cursor found fits placed inside enough room =
    absurd (omega (arith, encode_all-pos cs c))
parse_initializers-encode_all bytes len [] c (suc fuel) cursor found fits placed inside enough
      room =
    rw (← length-encode_one c 1) at (
      parse-one bytes len c cursor 1 found (omega (arith, length-encode_one c 1)) (omega arith)
        (Reads-encode_one bytes cursor 1 c [] (omega arith) fits.0
          (rw (append-nil (encode_one c 1)) placed))
        fuel)
parse_initializers-encode_all bytes len (d ∷ cs) c (suc fuel) cursor found fits placed inside enough
      room =
    let size = length-encode_one c 0 in
    let split = length-append (encode_one c 0) (encode_all d cs) in
    let pos = encode_all-pos cs d in
    let after = cursor + one_size c in
    let here =
      parse-one bytes len c cursor 0 found (omega (arith, size, split)) (omega arith)
        (Reads-encode_one bytes cursor 0 c (encode_all d cs) (omega arith) fits.0 placed) fuel in
    let rest =
      parse_initializers-encode_all bytes len cs d fuel after (found ++ meaning c ∷ []) fits.1
        (rw (← size) (Placed-append bytes cursor (encode_one c 0) (encode_all d cs) placed))
        (omega (arith, size, split)) (omega (arith, one_size-pos c))
        (omega (arith, length-append found (meaning c ∷ []))) in
    here
    ∙ rest
    ∙ joined (append_assoc found (meaning c ∷ []) (meanings (d ∷ cs))) (omega (arith, size, split))
  where
    joined :
        {xs ys : List Initializer} {a b : ℕ}
        → xs ≡ ys
        → a ≡ b
        → ◌≡◌ {A = Outcome (List Initializer × ℕ)} (ok (xs, a)) (ok (ys, b))
    joined p q = λ i. ok (p i, q i)

outside : (offset len : ℕ) → offset + 1 ≤ len → leb len offset ≡ false
outside offset len inside = ground arith

plain : (n : ℕ) → n < 128 → (n / 2 ^ 7 % 2 == 1) ≡ false
plain n small = ground arith

flagged : (n : ℕ) → n < 128 → ((n + 128) / 2 ^ 7 % 2 == 1) ≡ true
flagged n small = ground arith

one_size-small : (c : Coded) → one_size c ≤ 3
unfolding one_size
one_size-small (short i byte) = omega arith
one_size-small (long i word) = omega arith

length-encode_all : (c : Coded) (cs : List Coded) → length (encode_all c cs) ≤ 3 * (length cs + 1)
length-encode_all c [] =
    let same = length-encode_one c 1 in let small = one_size-small c in omega arith
length-encode_all c (d ∷ cs) =
    let same = length-encode_one c 0 in
    let small = one_size-small c in
    let rest = length-encode_all d cs in
    omega (arith, length-append (encode_one c 0) (encode_all d cs))

-- A header of at most 64 initializers has a size that its byte holds.
u8-of : (offset cursor size : ℕ) → cursor ≡ offset + size → size < 256 → u8 (cursor - offset) ≡ size
u8-of offset cursor size e small = omega arith

ok_header :
    {n n' size size' : ℕ} {xs ys : List Initializer}
    → n ≡ n'
    → size ≡ size'
    → xs ≡ ys
    → ◌≡◌ {A = Outcome ProcHeader}
        (ok (record { local_count = n; header_size = size; initializers = xs }))
        (ok (record { local_count = n'; header_size = size'; initializers = ys }))
ok_header p q r = λ i. ok (record { local_count = p i; header_size = q i; initializers = r i })

-- A procedure header that is written out by the format anywhere inside a module is read back: the
-- count of the locals, all its initializers, at most 64 of them, and its size.
pub parse_procedure_header-encode_header :
    (bytes : Array ℕ) (module_length offset local_count : ℕ) (cs : List Coded)
    → local_count < 128
    → AllCoded cs
    → length cs ≤ 64
    → Placed bytes offset (encode_header local_count cs)
    → offset + length (encode_header local_count cs) ≤ module_length
    → parse_procedure_header bytes module_length offset
      ≡ ok (record {
        local_count = local_count;
        header_size = length (encode_header local_count cs);
        initializers = meanings cs;
      })
unfolding parse_procedure_header
parse_procedure_header-encode_header bytes len offset n [] small fits room placed inside =
    rw (placed.0, outside offset len inside, plain n small)
      (ok_header (omega arith) (u8-of offset (offset + 1) 1 (omega arith) (omega arith)) refl)
parse_procedure_header-encode_header bytes len offset n (c ∷ cs) small fits room placed inside =
    rw
      (
        placed.0,
        outside offset len (omega arith),
        flagged n small,
        parse_initializers-encode_all bytes len cs c (len - (offset + 1)) (offset + 1) [] fits
            placed.1 (omega arith) (omega arith) (omega arith),
      )
      (ok_header (omega arith)
        (u8-of offset _ _ (omega arith) (omega (arith, length-encode_all c cs))) refl)
