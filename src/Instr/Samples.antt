-- ===== src/Instr/Samples.antt =====
-- A machine to try the loop on.
use linchpin.Base.{arith, true, some}
use linchpin.Exec.Samples.{sample_state, sample_cache}
use linchpin.Exec.Bounded.{IsBounded}
use linchpin.Exec.Bounded.Frames.{no_snapshot-FitsSnapshot}
use linchpin.Instr.Dispatch.{Others}
use linchpin.Instr.Run.{Machine}

-- The instructions outside the model do nothing here.
abbrev pub idle : Others
idle = record { main = λ opcode start s. some s; extended = λ opcode start s. some s }

abbrev pub sample_machine : Machine
sample_machine = record {
  state = record sample_state {
    cache = record sample_cache { is_open = true };
    program_counter = 0;
  };
  instruction_count = 0;
  instruction_limit = 3;
}

pub sample_state-IsBounded : IsBounded sample_state
sample_state-IsBounded = record {
  stack = omega arith;
  calls = omega arith;
  locals = omega arith;
  callers = λ i small. record { locals = omega arith; depth = omega arith };
  snapshots = λ i. no_snapshot-FitsSnapshot;
}
