-- ===== src/Instr/Bounded/Vectors.antt =====
-- The bounds of the machine's arrays, kept by the instructions of src/LinchpinST/src/lpst_run.c on
-- vectors and bit fields and by its jumps, and by those of lpst_run_dispatch.c on strings.
use linchpin.Base.{ℕ, ◌+◌, Bool, ltb, ◌==◌, if-cases, u32}
use linchpin.Base.Options.{Each, some-Each, then-Each}
use linchpin.Ram.{false_sentinel}
use linchpin.Aggregate.{read_aggregate_raw_byte}
use linchpin.Exec.{ExecState, Env, pop, fetch_byte, fetch_le16, decode_jump_target}
use linchpin.Exec.Bounded.{
  IsBounded, push-IsBounded, pop-IsBounded, fetch_byte-IsBounded, fetch_le16-IsBounded,
  decode_jump_target-IsBounded,
}
use linchpin.Instr.Vectors.{
  vloadw_local, vloadw, vloadb, vloadw_immediate, vloadb_immediate, vputw, vputb, vputw_immediate,
  vputb_immediate,
}
use linchpin.Instr.Jumps.{Condition, go_if, jump, jump_if, Comparison, jump_comparing}
use linchpin.Instr.Blocks.{vecsetw, vecsetb, veccpyw, veccpyb}
use linchpin.Instr.Fields.{bitsvl, bitsv, bbsetvl, bbsetv, bsetvl, bsetv}
use linchpin.Instr.Order.{stricmp, strcmp}
use linchpin.Instr.Text.{strpos, memcmp, memcmpo, next_field, printable, unpack, loadvb2, putvb2}
use linchpin.Instr.Bounded.{push_read-IsBounded, put_written-IsBounded}

-- Two, three, four and five pops.
pops2 : (s : ExecState) → IsBounded s → IsBounded (pop (pop s).1).1
pops2 s b = pop-IsBounded (pop s).1 (pop-IsBounded s b)

pops3 : (s : ExecState) → IsBounded s → IsBounded (pop (pop (pop s).1).1).1
pops3 s b = pop-IsBounded (pop (pop s).1).1 (pops2 s b)

pops4 : (s : ExecState) → IsBounded s → IsBounded (pop (pop (pop (pop s).1).1).1).1
pops4 s b = pops2 (pop (pop s).1).1 (pops2 s b)

pub vloadw_local-IsBounded :
    (s : ExecState) (l w : ℕ) → IsBounded s → Each IsBounded (vloadw_local s l w)
unfolding vloadw_local
vloadw_local-IsBounded s l w b = push_read-IsBounded s _ _ b

pub vloadw-IsBounded : (s : ExecState) → IsBounded s → Each IsBounded (vloadw s)
unfolding vloadw
vloadw-IsBounded s b = push_read-IsBounded _ _ _ (pops2 s b)

pub vloadb-IsBounded : (s : ExecState) → IsBounded s → Each IsBounded (vloadb s)
unfolding vloadb
vloadb-IsBounded s b = push_read-IsBounded _ _ _ (pops2 s b)

pub vputw-IsBounded : (s : ExecState) → IsBounded s → Each IsBounded (vputw s)
unfolding vputw
vputw-IsBounded s b = put_written-IsBounded _ _ _ (pops3 s b)

pub vputb-IsBounded : (s : ExecState) → IsBounded s → Each IsBounded (vputb s)
unfolding vputb
vputb-IsBounded s b = put_written-IsBounded _ _ _ (pops3 s b)

pub loadvb2-IsBounded : (s : ExecState) → IsBounded s → Each IsBounded (loadvb2 s)
unfolding loadvb2
loadvb2-IsBounded s b = push_read-IsBounded _ _ _ (pops2 s b)

pub putvb2-IsBounded : (s : ExecState) → IsBounded s → Each IsBounded (putvb2 s)
unfolding putvb2
putvb2-IsBounded s b = put_written-IsBounded _ _ _ (pops3 s b)

go_if-IsBounded :
    (taken : Bool) (s : ExecState) (target : ℕ) → IsBounded s → IsBounded (go_if taken s target)
go_if-IsBounded taken s target b = if-cases IsBounded taken (λ go. b) (λ stay. b)

module _ (env : Env) where
  pub vloadw_immediate-IsBounded :
      (s : ExecState) → IsBounded s → Each IsBounded (vloadw_immediate env s)
  unfolding vloadw_immediate
  vloadw_immediate-IsBounded s b =
      push_read-IsBounded _ _ _ (pop-IsBounded (fetch_byte env s).1 (fetch_byte-IsBounded env s b))

  pub vloadb_immediate-IsBounded :
      (s : ExecState) → IsBounded s → Each IsBounded (vloadb_immediate env s)
  unfolding vloadb_immediate
  vloadb_immediate-IsBounded s b =
      push_read-IsBounded _ _ _ (pop-IsBounded (fetch_byte env s).1 (fetch_byte-IsBounded env s b))

  pub vputw_immediate-IsBounded :
      (s : ExecState) → IsBounded s → Each IsBounded (vputw_immediate env s)
  unfolding vputw_immediate
  vputw_immediate-IsBounded s b =
      put_written-IsBounded _ _ _ (pops2 (fetch_byte env s).1 (fetch_byte-IsBounded env s b))

  pub vputb_immediate-IsBounded :
      (s : ExecState) → IsBounded s → Each IsBounded (vputb_immediate env s)
  unfolding vputb_immediate
  vputb_immediate-IsBounded s b =
      put_written-IsBounded _ _ _ (pops2 (fetch_byte env s).1 (fetch_byte-IsBounded env s b))

  pub jump-IsBounded : (start : ℕ) (s : ExecState) → IsBounded s → IsBounded (jump env start s)
  unfolding jump
  jump-IsBounded start s b = decode_jump_target-IsBounded env s start b

  pub jump_if-IsBounded :
      (start : ℕ) (c : Condition) (s : ExecState) → IsBounded s → IsBounded (jump_if env start c s)
  unfolding jump_if
  jump_if-IsBounded start c s b = go_if-IsBounded _ _ _ (
      pop-IsBounded (decode_jump_target env s start).1 (decode_jump_target-IsBounded env s start b))

  pub jump_comparing-IsBounded :
      (start : ℕ) (c : Comparison) (s : ExecState)
      → IsBounded s
      → IsBounded (jump_comparing env start c s)
  unfolding jump_comparing
  jump_comparing-IsBounded start c s b =
      go_if-IsBounded _ _ _
        (pops2 (decode_jump_target env s start).1 (decode_jump_target-IsBounded env s start b))

  pub bitsvl-IsBounded : (s : ExecState) → IsBounded s → Each IsBounded (bitsvl env s)
  unfolding bitsvl
  bitsvl-IsBounded s b =
      then-Each _ _ (λ value. some-Each (push-IsBounded _ value (fetch_le16-IsBounded env s b)))

  pub bitsv-IsBounded : (s : ExecState) → IsBounded s → Each IsBounded (bitsv env s)
  unfolding bitsv
  bitsv-IsBounded s b = then-Each _ _ (λ value.
      some-Each (
        push-IsBounded _ value (pop-IsBounded (fetch_le16 env s).1 (fetch_le16-IsBounded env s b))))

  pub bbsetvl-IsBounded : (s : ExecState) → IsBounded s → Each IsBounded (bbsetvl env s)
  unfolding bbsetvl
  bbsetvl-IsBounded s b =
      then-Each _ _
        (λ ram. some-Each (pop-IsBounded (fetch_le16 env s).1 (fetch_le16-IsBounded env s b)))

  pub bbsetv-IsBounded : (s : ExecState) → IsBounded s → Each IsBounded (bbsetv env s)
  unfolding bbsetv
  bbsetv-IsBounded s b =
      then-Each _ _ (λ ram. some-Each (pops2 (fetch_le16 env s).1 (fetch_le16-IsBounded env s b)))

  pub bsetvl-IsBounded : (s : ExecState) → IsBounded s → Each IsBounded (bsetvl env s)
  unfolding bsetvl
  bsetvl-IsBounded s b = then-Each _ _ (λ ram. some-Each (fetch_le16-IsBounded env s b))

  pub bsetv-IsBounded : (s : ExecState) → IsBounded s → Each IsBounded (bsetv env s)
  unfolding bsetv
  bsetv-IsBounded s b =
      then-Each _ _
        (λ ram. some-Each (pop-IsBounded (fetch_le16 env s).1 (fetch_le16-IsBounded env s b)))

pub vecsetw-IsBounded : (s : ExecState) → IsBounded s → Each IsBounded (vecsetw s)
unfolding vecsetw
vecsetw-IsBounded s b = then-Each _ _ (λ ram. some-Each (push-IsBounded _ _ (pops3 s b)))

pub vecsetb-IsBounded : (s : ExecState) → IsBounded s → Each IsBounded (vecsetb s)
unfolding vecsetb
vecsetb-IsBounded s b = then-Each _ _ (λ ram. some-Each (push-IsBounded _ _ (pops3 s b)))

pub veccpyw-IsBounded : (s : ExecState) → IsBounded s → Each IsBounded (veccpyw s)
unfolding veccpyw
veccpyw-IsBounded s b = then-Each _ _ (λ ram. some-Each (push-IsBounded _ _ (pops3 s b)))

pub veccpyb-IsBounded : (s : ExecState) → IsBounded s → Each IsBounded (veccpyb s)
unfolding veccpyb
veccpyb-IsBounded s b =
    then-Each _ _ (λ ram. some-Each (push-IsBounded _ _ (pop-IsBounded _ (pops4 s b))))

pub strpos-IsBounded : (s : ExecState) → IsBounded s → Each IsBounded (strpos s)
unfolding strpos
strpos-IsBounded s b =
    if-cases (Each IsBounded) ((pop s).0 == false_sentinel)
      (λ absent. some-Each (push-IsBounded _ _ (pops2 s b)))
      (λ present. then-Each _ _ (λ found. some-Each (push-IsBounded _ found (pops2 s b))))

pub memcmp-IsBounded : (s : ExecState) → IsBounded s → Each IsBounded (memcmp s)
unfolding memcmp
memcmp-IsBounded s b = then-Each _ _ (λ result. some-Each (push-IsBounded _ result (pops3 s b)))

pub memcmpo-IsBounded : (s : ExecState) → IsBounded s → Each IsBounded (memcmpo s)
unfolding memcmpo
memcmpo-IsBounded s b = then-Each _ _ (λ result. some-Each (push-IsBounded _ result (pops4 s b)))

pub next_field-IsBounded : (s : ExecState) → IsBounded s → Each IsBounded (next_field s)
unfolding next_field
next_field-IsBounded s b =
    let offset = (pop s).0 in
    let handle = (pop (pop s).1).0 in
    let ram = (pop (pop s).1).1.memory.ram in
    then-Each (read_aggregate_raw_byte ram handle (u32 (offset + 4294967295))) _ (λ key.
      then-Each (read_aggregate_raw_byte ram handle (offset + key + 1)) _
        (λ length. some-Each (push-IsBounded (pop (pop s).1).1 _ (pops2 s b))))

pub printable-IsBounded : (s : ExecState) → IsBounded s → IsBounded (printable s)
unfolding printable
printable-IsBounded s b = push-IsBounded _ _ (pop-IsBounded s b)

pub unpack-IsBounded : (s : ExecState) → IsBounded s → Each IsBounded (unpack s)
unfolding unpack
unpack-IsBounded s b =
    if-cases (Each IsBounded) (ltb s.eval_stack_top 4) (λ few. some-Each (push-IsBounded s _ b))
      (λ enough. then-Each _ _ (λ r. some-Each (push-IsBounded _ _ (pops4 s b))))

pub stricmp-IsBounded :
    (handle_of : ℕ → ℕ) (s : ExecState) → IsBounded s → Each IsBounded (stricmp handle_of s)
unfolding stricmp
stricmp-IsBounded handle_of s b =
    then-Each _ _ (λ result. some-Each (push-IsBounded _ result (pop-IsBounded _ (pops4 s b))))

pub strcmp-IsBounded : (fuel : ℕ) (s : ExecState) → IsBounded s → Each IsBounded (strcmp fuel s)
unfolding strcmp
strcmp-IsBounded fuel s b =
    then-Each _ _ (λ result. some-Each (push-IsBounded _ result (pops2 s b)))
