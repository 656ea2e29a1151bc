-- ===== src/Instr/Bounded/Steps.antt =====
-- The bounds of the machine's arrays, kept by the opcode switches and by the loop of
-- src/LinchpinST/src/lpst_run.c.
use linchpin.Base.{
  ℕ, zero, suc, ◌-◌, ◌/◌, ◌%◌, ◌≡◌, inl, inr, false, Option, none, some, ◌>>=◌, leb, if-cases,
  Option-cases,
}
use linchpin.Base.Options.{Each, none-Each, some-Each, >>=-Each, Each-some}
use linchpin.Exec.{Env, fetch_byte}
use linchpin.Exec.Bounded.{IsBounded, fetch_byte-IsBounded}
use linchpin.Exec.Bounded.Frames.{FitsImage}
use linchpin.Instr.Dispatch.{Others, data_instructions, control_instructions, execute}
use linchpin.Instr.Run.{
  Machine, Run, ended, cut_off, reached_limit, step, lpst_run, at_once, Stuck, later-Stuck,
}
use linchpin.Instr.Bounded.{
  store_local_peek-IsBounded, store_local_pop-IsBounded, load_local-IsBounded,
}
use linchpin.Instr.Bounded.Vectors.{vloadw_local-IsBounded}
use linchpin.Instr.Bounded.Tables.{
  KeepsBounds, OthersKeep, instruction_at-KeepsBounds, data_instructions-AllKeep,
  control_instructions-AllKeep,
}

-- The machine that a run ends with.
abbrev pub machine_of : Run → Machine
machine_of (ended m) = m
machine_of (cut_off m) = m

module _ (fuel : ℕ) (env : Env) (others : Others) (image : FitsImage env)
    (keep : OthersKeep others) where
  execute-KeepsBounds : (opcode : ℕ) → KeepsBounds (execute fuel env others opcode)
  unfolding execute
  execute-KeepsBounds opcode start s b =
      let keeps = Each IsBounded in
      if-cases keeps (leb 0xE0 opcode)
        (λ _. some-Each (store_local_peek-IsBounded s (opcode % 32) b))
        (λ _.
          if-cases keeps (leb 0xC0 opcode)
            (λ _. some-Each (store_local_pop-IsBounded s (opcode % 32) b))
            (λ _.
              if-cases keeps (leb 0xA0 opcode)
                (λ _. some-Each (load_local-IsBounded s (opcode % 32) b))
                (λ _.
                  if-cases keeps (leb 0x60 opcode)
                    (λ _. vloadw_local-IsBounded s (opcode % 16) (opcode / 16 % 4) b)
                    (λ _.
                      if-cases keeps (leb 0x30 opcode)
                        (λ _.
                          instruction_at-KeepsBounds (control_instructions fuel env others)
                            (opcode - 0x30)
                            (control_instructions-AllKeep fuel env others image keep) start s b)
                        (λ _.
                          instruction_at-KeepsBounds (data_instructions fuel env others) opcode
                            (data_instructions-AllKeep fuel env others image keep) start s b)))))

  step-IsBounded :
      (m : Machine) → IsBounded m.state → Each (λ m'. IsBounded m'.state) (step fuel env others m)
  unfolding step
  step-IsBounded m b =
      >>=-Each _
        (execute-KeepsBounds (fetch_byte env m.state).0 m.state.program_counter
          (fetch_byte env m.state).1 (fetch_byte-IsBounded env m.state b))
        (λ s2 b2. some-Each b2)

-- The instructions outside the model give no state.
abbrev pub outside : Others
outside = record { main = λ opcode start s. none; extended = λ opcode start s. none }

outside-OthersKeep : OthersKeep outside
outside-OthersKeep = record {
  main = λ opcode start s b. none-Each;
  extended = λ opcode start s b. none-Each;
}

module _ (fuel : ℕ) (env : Env) where
  -- A run from `m`: the machine that it ends with is within the bounds, or the one is that it has
  -- reached at an instruction without a state.
  abbrev pub StaysBounded : Machine → Option Run → Type 0
  StaysBounded m none = (s : Stuck fuel env outside m) × IsBounded s.stuck.state
  StaysBounded m (some r) = IsBounded (machine_of r).state

  later-StaysBounded :
      (m m' : Machine) (o : Option Run)
      → m.state.is_halted ≡ false
      → reached_limit m ≡ false
      → step fuel env outside m ≡ some m'
      → StaysBounded m' o
      → StaysBounded m o
  later-StaysBounded m m' none running below is (s, b) =
      (later-Stuck fuel env outside running below is s, b)
  later-StaysBounded m m' (some r) running below is b = b

module _ (fuel : ℕ) (env : Env) (image : FitsImage env) where
  go_on :
      (rounds : ℕ) (m : Machine)
      → m.state.is_halted ≡ false
      → reached_limit m ≡ false
      → IsBounded m.state
      → ((m' : Machine)
          → IsBounded m'.state
          → StaysBounded fuel env m' (lpst_run fuel env outside rounds m'))
      → StaysBounded fuel env m
          (do m' ← step fuel env outside m; lpst_run fuel env outside rounds m')
  go_on rounds m running below b rest = elim (Option-cases (step fuel env outside m)) [
    | inl no_state ↦ rw no_state (
      record {
        stuck = m;
        reached = at_once;
        running = running;
        below = below;
        no_state = no_state;
      },
      b,
    )
    | inr (m', is) ↦
        let b' = Each-some (step-IsBounded fuel env outside image outside-OthersKeep m b) is in
        rw is (
          later-StaysBounded fuel env m m' (lpst_run fuel env outside rounds m') running below is
            (rest m' b'))
  ]

  -- On an image whose procedures have at most 128 locals, a run that begins with its stack tops,
  -- local counts, callers and snapshots within the arrays of the C code ends with them within the
  -- arrays; or it stops at an instruction that has no state, and then the machine that it has reached
  -- there has them within the arrays. An instruction has no state where the model leaves it out, where
  -- C leaves it undefined, and where the fuel of a loop inside it runs out; what such an instruction
  -- itself does is not claimed.
  pub lpst_run-IsBounded :
      (rounds : ℕ) (m : Machine)
      → IsBounded m.state
      → StaysBounded fuel env m (lpst_run fuel env outside rounds m)
  unfolding lpst_run
  lpst_run-IsBounded zero m b = b
  lpst_run-IsBounded (suc rounds) m b =
      if-cases (StaysBounded fuel env m) m.state.is_halted (λ halted. b)
        (λ running.
          if-cases (StaysBounded fuel env m) (reached_limit m) (λ reached. b)
            (λ left. go_on rounds m running left b (λ m' b'. lpst_run-IsBounded rounds m' b')))
