-- ===== src/Instr/Bounded/Words.antt =====
-- The bounds of the machine's arrays, kept by the shifts, the operands, the locals by number and the
-- program globals.
use linchpin.Base.{ℕ, ◌+◌, ◌==◌, ltb, if-cases, u16}
use linchpin.Base.Options.{Each, some-Each, then-Each}
use linchpin.Ram.{false_sentinel}
use linchpin.Exec.{ExecState, Env, pop, peek, fetch_byte}
use linchpin.Exec.Bounded.{
  IsBounded, push-IsBounded, pop-IsBounded, fetch_byte-IsBounded, fetch_le16-IsBounded,
}
use linchpin.Instr.{local_or_sentinel}
use linchpin.Instr.Words.{
  Shift, shift, push_word, push_byte, dup, drop, inclv, putl, pushl, storel, set_global, loadg,
  putg, storeg, step_global, xor, complement,
}
use linchpin.Instr.Bounded.{set_local-IsBounded}

pub shift-IsBounded : (kind : Shift) (s : ExecState) → IsBounded s → Each IsBounded (shift kind s)
unfolding shift
shift-IsBounded kind s b =
    then-Each _ _
      (λ result. some-Each (push-IsBounded _ result (pop-IsBounded (pop s).1 (pop-IsBounded s b))))

pub dup-IsBounded : (s : ExecState) → IsBounded s → IsBounded (dup s)
unfolding dup
dup-IsBounded s b = push-IsBounded s (peek s) b

pub drop-IsBounded : (s : ExecState) → IsBounded s → IsBounded (drop s)
unfolding drop
drop-IsBounded s b = pop-IsBounded s b

pub xor-IsBounded : (s : ExecState) → IsBounded s → IsBounded (xor s)
unfolding xor
xor-IsBounded s b = push-IsBounded _ _ (pop-IsBounded (pop s).1 (pop-IsBounded s b))

pub complement-IsBounded : (s : ExecState) → IsBounded s → IsBounded (complement s)
unfolding complement
complement-IsBounded s b = push-IsBounded _ _ (pop-IsBounded s b)

set_global-IsBounded :
    (s : ExecState) (n value : ℕ) → IsBounded s → IsBounded (set_global s n value)
set_global-IsBounded s n value b =
    if-cases IsBounded (ltb n s.program_global_count) (λ has. b) (λ lacks. b)

module _ (env : Env) where
  pub push_word-IsBounded : (s : ExecState) → IsBounded s → IsBounded (push_word env s)
  unfolding push_word
  push_word-IsBounded s b = push-IsBounded _ _ (fetch_le16-IsBounded env s b)

  pub push_byte-IsBounded : (s : ExecState) → IsBounded s → IsBounded (push_byte env s)
  unfolding push_byte
  push_byte-IsBounded s b = push-IsBounded _ _ (fetch_byte-IsBounded env s b)

  pub inclv-IsBounded : (s : ExecState) → IsBounded s → IsBounded (inclv env s)
  unfolding inclv
  inclv-IsBounded s b =
      let b1 = fetch_byte-IsBounded env s b in
      let s1 = (fetch_byte env s).1 in
      let n = (fetch_byte env s).0 in
      if-cases IsBounded (local_or_sentinel s1 n == false_sentinel) (λ absent. b1)
        (λ present. set_local-IsBounded s1 n (u16 (s1.local_storage n + 1)) b1)

  pub putl-IsBounded : (s : ExecState) → IsBounded s → IsBounded (putl env s)
  unfolding putl
  putl-IsBounded s b =
      set_local-IsBounded (pop (fetch_byte env s).1).1 (fetch_byte env s).0
        (pop (fetch_byte env s).1).0
        (pop-IsBounded (fetch_byte env s).1 (fetch_byte-IsBounded env s b))

  pub pushl-IsBounded : (s : ExecState) → IsBounded s → IsBounded (pushl env s)
  unfolding pushl
  pushl-IsBounded s b = push-IsBounded _ _ (fetch_byte-IsBounded env s b)

  pub storel-IsBounded : (s : ExecState) → IsBounded s → IsBounded (storel env s)
  unfolding storel
  storel-IsBounded s b =
      set_local-IsBounded (fetch_byte env s).1 (fetch_byte env s).0 (peek (fetch_byte env s).1)
        (fetch_byte-IsBounded env s b)

  pub loadg-IsBounded : (s : ExecState) → IsBounded s → IsBounded (loadg env s)
  unfolding loadg
  loadg-IsBounded s b = push-IsBounded _ _ (fetch_byte-IsBounded env s b)

  pub putg-IsBounded : (s : ExecState) → IsBounded s → IsBounded (putg env s)
  unfolding putg
  putg-IsBounded s b =
      set_global-IsBounded (pop (fetch_byte env s).1).1 (fetch_byte env s).0
        (pop (fetch_byte env s).1).0
        (pop-IsBounded (fetch_byte env s).1 (fetch_byte-IsBounded env s b))

  pub storeg-IsBounded : (s : ExecState) → IsBounded s → IsBounded (storeg env s)
  unfolding storeg
  storeg-IsBounded s b =
      set_global-IsBounded (fetch_byte env s).1 (fetch_byte env s).0 (peek (fetch_byte env s).1)
        (fetch_byte-IsBounded env s b)

  pub step_global-IsBounded :
      (step : ℕ) (s : ExecState) → IsBounded s → IsBounded (step_global env step s)
  unfolding step_global
  step_global-IsBounded step s b =
      let b1 = fetch_byte-IsBounded env s b in
      let s1 = (fetch_byte env s).1 in
      let n = (fetch_byte env s).0 in
      if-cases IsBounded (ltb n s1.program_global_count) (λ has. push-IsBounded _ _ b1)
        (λ lacks. b1)
