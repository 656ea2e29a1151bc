-- ===== src/Image.antt =====
-- The loaded image as the executor reads it: `lpst_proc_initializer` of
-- src/LinchpinST/include/lpst_vm.h, and the procedure, module and image records of lpst_image.h.
-- An array of C with its count is a list where the code only walks it, and otherwise a function with
-- the count beside it.
use linchpin.Base.{ℕ, Array, List}

pub record Initializer : Type 0 where
  pub local_index : ℕ
  pub value : ℕ

-- `exported_index` is the `int16_t` as the `uint16_t` that the executor casts it to.
pub record Procedure : Type 0 where
  pub exported_index : ℕ
  pub start_offset : ℕ
  pub code_offset : ℕ
  pub upper_bound : ℕ
  pub local_count : ℕ
  pub initializers : List Initializer

pub record ProcHeader : Type 0 where
  pub local_count : ℕ
  pub header_size : ℕ
  pub initializers : List Initializer

pub record CodeModule : Type 0 where
  pub module_id : ℕ
  pub object_offset : ℕ
  pub length : ℕ
  pub procedures : List Procedure

-- `modules[i]`, with 0-based `i`.
pub record Image : Type 0 where
  pub module_count : ℕ
  pub modules : Array CodeModule
