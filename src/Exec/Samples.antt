-- ===== src/Exec/Samples.antt =====
-- A machine to try the operations on.
use linchpin.Base.{◌+◌, true, false, none, []}
use linchpin.Heap.{Memory}
use linchpin.Cache.{CodeCache}
use linchpin.Exec.{ExecState, Env}
use linchpin.Exec.Calls.{no_snapshot}
use linchpin.Exec.Jumps.{no_continuation}

abbrev pub sample_memory : Memory
sample_memory = record {
  ram = λ b i. 0;
  next_low_arena_byte = 0x20;
  next_high_arena_byte = 0x10000;
  tuple_stack_byte = 0x20000;
  tuple_stack_floor_byte = 0x1fc00;
  free_list = λ i. 0;
}

abbrev pub sample_cache : CodeCache
sample_cache = record {
  is_open = false;
  entries = λ i. record {
    page_base = 0;
    page_size = 0;
    last_used_tick = 0;
    pin_count = 0;
    valid = false;
    bytes = λ j. 0;
  };
  entry_count = 1;
  current = none;
  current_base = 0;
  current_limit = 0;
  tick = 0;
  hits = 0;
  misses = 0;
  evictions = 0;
}

-- A procedure with two locals and three words on its stack.
abbrev pub sample_state : ExecState
sample_state = record {
  memory = sample_memory;
  cache = sample_cache;
  current_module_id = 1;
  program_counter = 0x40;
  frame_upper_bound = 0x100;
  is_halted = false;
  halt_code = 0;
  last_return_word_count = 0;
  program_globals = λ i. 0;
  program_global_count = 0;
  current_frame = record {
    module_id = 1;
    procedure_index = 4;
    procedure_start_offset = 0x20;
    code_offset = 0x24;
    local_count = 2;
  };
  local_storage = λ i. 10 + i;
  eval_stack = λ i. 100 + i;
  eval_stack_top = 3;
  call_stack = λ i. no_continuation;
  call_stack_top = 1;
  next_jump_token = 0xa000;
  jump_snapshots = λ i. no_snapshot;
  mallocs = 0;
}

abbrev pub sample_env : Env
sample_env = record {
  image = record {
    module_count = 1;
    modules = λ i. record { module_id = 1; object_offset = 0; length = 0x400; procedures = [] };
  };
  file = record { seeks = λ p. true; delivered = λ p n. n; content = λ p. 0 };
  malloc = λ n. true;
}
