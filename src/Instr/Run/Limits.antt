-- ===== src/Instr/Run/Limits.antt =====
-- The loop of `lpst_run` of src/LinchpinST/src/lpst_run.c under an instruction limit.
use linchpin.Base.{
  ℕ, zero, suc, ◌+◌, ◌-◌, ◌^◌, ◌≤◌, ◌<◌, ◌≡◌, ◌⊎◌, inl, inr, ◌∙◌, arith, true, false, if-cases,
  Option, Option-cases, none, some, ◌>>=◌, u32,
}
use linchpin.Exec.{ExecState, Env}
use linchpin.Instr.Dispatch.{Others}
use linchpin.Instr.Run.{
  Machine, Run, ended, cut_off, reached_limit, step, lpst_run, at_once, Stuck, later-Stuck,
}

module _ (fuel : ℕ) (env : Env) (others : Others) where
  -- A run that was not cut off: it ended because the machine had halted or had executed as many
  -- instructions as the limit, or it stands at an instruction that gave no state.
  abbrev pub IsFinished : ℕ → Machine → Option Run → Type 0
  IsFinished limit m none = Stuck fuel env others m
  IsFinished limit m (some (ended m')) =
      (m'.instruction_limit ≡ limit)
      × (m'.instruction_count ≤ limit)
      × ((m'.state.is_halted ≡ true) ⊎ (m'.instruction_count ≡ limit))
  IsFinished limit m (some (cut_off m')) = ⊥

  later-IsFinished :
      (limit : ℕ) (m m' : Machine) (o : Option Run)
      → m.state.is_halted ≡ false
      → reached_limit m ≡ false
      → step fuel env others m ≡ some m'
      → IsFinished limit m' o
      → IsFinished limit m o
  later-IsFinished limit m m' none running below is f =
      later-Stuck fuel env others running below is f
  later-IsFinished limit m m' (some (ended e)) running below is f = f
  later-IsFinished limit m m' (some (cut_off e)) running below is f = f

  -- A step counts its instruction and keeps the limit.
  next-counted :
      (m : Machine) (o : Option ExecState) {m' : Machine}
      → (do s ← o; some (record m { state = s; instruction_count = u32 (m.instruction_count + 1) }))
        ≡ some m'
      → (m'.instruction_count ≡ u32 (m.instruction_count + 1))
        × (m'.instruction_limit ≡ m.instruction_limit)
  next-counted m none is = cc
  next-counted m (some s) is = ground arith

  step-counted :
      (m : Machine) {m' : Machine}
      → step fuel env others m ≡ some m'
      → (m'.instruction_count ≡ u32 (m.instruction_count + 1))
        × (m'.instruction_limit ≡ m.instruction_limit)
  unfolding step
  step-counted m is = next-counted m _ is

  run_on :
      (limit rounds : ℕ) (m : Machine)
      → m.state.is_halted ≡ false
      → reached_limit m ≡ false
      → m.instruction_limit ≡ limit
      → m.instruction_count < limit
      → limit < 2 ^ 32
      → limit - m.instruction_count < suc rounds
      → ((m' : Machine)
          → m'.instruction_limit ≡ limit
          → m'.instruction_count ≤ limit
          → limit - m'.instruction_count < rounds
          → IsFinished limit m' (lpst_run fuel env others rounds m'))
      → IsFinished limit m (do m' ← step fuel env others m; lpst_run fuel env others rounds m')
  run_on limit rounds m running below same count small enough rest =
      elim (Option-cases (step fuel env others m)) [
        | inl none_left ↦ rw none_left (record {
          stuck = m;
          reached = at_once;
          running = running;
          below = below;
          no_state = none_left;
        })
        | inr (m', is) ↦
            let (next, kept) = step-counted m is in
            rw is (
              later-IsFinished limit m m' (lpst_run fuel env others rounds m') running below is
                (rest m' (kept ∙ same) (omega arith) (omega arith)))
      ]

  -- Under a limit on the instructions, within as many rounds as the limit has left and one more, the
  -- loop either ends, with the machine halted or its count at the limit and never above it, or it
  -- stands at a machine that it reached, neither halted nor at the limit, whose instruction gives no
  -- state: C leaves the instruction undefined; or the fuel of a loop inside it, over a private
  -- header's initializers or a sort key's fields, has run out; or it is one of the parameter's
  -- instructions, which gave none.
  pub lpst_run-IsFinished :
      (rounds limit : ℕ) (m : Machine)
      → m.instruction_limit ≡ limit
      → 0 < limit
      → limit < 2 ^ 32
      → m.instruction_count ≤ limit
      → limit - m.instruction_count < rounds
      → IsFinished limit m (lpst_run fuel env others rounds m)
  unfolding lpst_run
  lpst_run-IsFinished zero limit m same some_limit small count enough = absurd (omega arith)
  lpst_run-IsFinished (suc rounds) limit m same some_limit small count enough =
      if-cases (IsFinished limit m) m.state.is_halted (λ halted. (same, count, inl halted))
        (λ running.
          if-cases (IsFinished limit m) (reached_limit m)
            (λ reached. (same, count, inr (ground arith)))
            (λ left.
              run_on limit rounds m running left same (ground arith) small enough
                (λ m' same' count' enough'.
                  lpst_run-IsFinished rounds limit m' same' some_limit small count' enough')))
