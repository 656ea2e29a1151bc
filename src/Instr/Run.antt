-- ===== src/Instr/Run.antt =====
-- The loop of `lpst_run` of src/LinchpinST/src/lpst_run.c.
pub mod Limits
use linchpin.Base.{
  ℕ, zero, suc, ◌+◌, Bool, true, false, ◌&&◌, Option, none, some, ◌>>=◌, leb, ltb, if◌then◌else◌,
  u32, ◌≡◌,
}
use linchpin.Exec.{ExecState, Env, fetch_byte}
use linchpin.Instr.Dispatch.{Others, execute}

-- The state with the fields that limit the run; a limit of 0 is none.
pub record Machine : Type 0 where
  pub state : ExecState
  pub instruction_count : ℕ
  pub instruction_limit : ℕ

-- The loop ended with the machine, or the fuel ended first.
pub data Run : Type 0 where
  ended : Machine → Run
  cut_off : Machine → Run

abbrev pub reached_limit : Machine → Bool
reached_limit m = ltb 0 m.instruction_limit && leb m.instruction_limit m.instruction_count

module _ (fuel : ℕ) (env : Env) (others : Others) where
  -- One instruction: its opcode is fetched and counted, and it is executed.
  unfoldable pub step : Machine → Option Machine
  step m = do
    let (opcode, s1) = fetch_byte env m.state
    s2 ← execute fuel env others opcode m.state.program_counter s1
    some (record m { state = s2; instruction_count = u32 (m.instruction_count + 1) })

  -- `rounds` is the fuel of the loop.
  unfoldable pub lpst_run : ℕ → Machine → Option Run
  lpst_run zero m = some (cut_off m)
  lpst_run (suc rounds) m =
      let next : Option Run = (do m' ← step m; lpst_run rounds m') in
      if m.state.is_halted
      then some (ended m)
      else (if reached_limit m then some (ended m) else next)

-- The machines that the loop goes through: each of the rounds found its machine running and below
-- the limit, and its instruction gave the next.
pub data Reaches (fuel : ℕ) (env : Env) (others : Others) : Machine → Machine → Type 0 where
  at_once : {m : Machine} → Reaches fuel env others m m
  onward :
      {m m' m'' : Machine}
      → m.state.is_halted ≡ false
      → reached_limit m ≡ false
      → step fuel env others m ≡ some m'
      → Reaches fuel env others m' m''
      → Reaches fuel env others m m''

-- A machine that the loop reaches from `m` and goes on with, whose instruction gives no state.
pub record Stuck (fuel : ℕ) (env : Env) (others : Others) (m : Machine) : Type 0 where
  pub stuck : Machine
  pub reached : Reaches fuel env others m stuck
  pub running : stuck.state.is_halted ≡ false
  pub below : reached_limit stuck ≡ false
  pub no_state : step fuel env others stuck ≡ none

module _ (fuel : ℕ) (env : Env) (others : Others) where
  abbrev pub later-Stuck :
      {m m' : Machine}
      → m.state.is_halted ≡ false
      → reached_limit m ≡ false
      → step fuel env others m ≡ some m'
      → Stuck fuel env others m'
      → Stuck fuel env others m
  later-Stuck running below is s = record {
    stuck = s.stuck;
    reached = onward running below is s.reached;
    running = s.running;
    below = s.below;
    no_state = s.no_state;
  }
