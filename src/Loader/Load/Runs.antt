-- ===== src/Loader/Load/Runs.antt =====
-- The machine on a loaded image: `lpst_image_load` of src/LinchpinST/src/lpst_image.c and `lpst_run` of
-- lpst_run.c together.
use linchpin.Base.{ℕ, zero, suc, ◌+◌, ◌≡◌, arith, Array, List, [], ◌∷◌, length}
use linchpin.Image.{Procedure, CodeModule}
use linchpin.Exec.{Env}
use linchpin.Exec.Bounded.{IsBounded}
use linchpin.Exec.Bounded.Frames.{FewLocals}
use linchpin.Instr.Run.{Machine, lpst_run}
use linchpin.Instr.Bounded.Steps.{StaysBounded, outside, lpst_run-IsBounded}
use linchpin.Loader.Result.{ok}
use linchpin.Loader.Modules.{Disk}
use linchpin.Loader.Modules.Spans.{AllProcedures, Tiles}
use linchpin.Loader.Tables.{File}
use linchpin.Loader.Load.{LoadedImage, lpst_image_load}
use linchpin.Loader.Load.Accepted.{lpst_image_load-IsLoaded}

-- `image->modules[i]`, and a module without procedures beyond the last one.
abbrev pub module_at : List CodeModule → Array CodeModule
module_at [] i = record { module_id = 0; object_offset = 0; length = 0; procedures = [] }
module_at (m ∷ ms) zero = m
module_at (m ∷ ms) (suc i) = module_at ms i

-- The image as the executor reads it, with the object file and the allocator.
abbrev pub environment : Disk → LoadedImage → Env
environment disk image = record {
  image = record { module_count = length image.modules; modules = module_at image.modules };
  file = disk.obj;
  malloc = disk.malloc;
}

procedures-FewLocals : (len : ℕ) (ps : List Procedure) → AllProcedures len ps → FewLocals ps
procedures-FewLocals len [] all = tt
procedures-FewLocals len (p ∷ ps) ((start, code, locals, few), next, all) =
    (omega arith, procedures-FewLocals len ps all)

modules-FewLocals :
    (i from to size : ℕ) (ms : List CodeModule)
    → Tiles i from to size ms
    → (j : ℕ) → FewLocals (module_at ms j).procedures
modules-FewLocals i from to size [] tiles j = tt
modules-FewLocals i from to size (m ∷ ms) ((id, at, len, inside, all), page, rest) zero =
    procedures-FewLocals m.length m.procedures all
modules-FewLocals i from to size (m ∷ ms) (first, page, rest) (suc j) =
    modules-FewLocals (i + 1) (from + m.length) to size ms rest j

-- On any image that the loader accepts, a run that begins with its stack tops, local counts, callers
-- and snapshots within the arrays of the C code ends with them within the arrays; or it stops at an
-- instruction that has no state, since the model leaves it out, C leaves it undefined or the fuel of
-- a loop inside it runs out, and then the machine that it has reached there has them within the
-- arrays. What such an instruction itself does is not claimed.
pub lpst_run-lpst_image_load :
    (disk : Disk) (mme_file obj_file : File) (n : ℕ) {image : LoadedImage} {n' : ℕ}
    → lpst_image_load disk mme_file obj_file n ≡ ok (image, n')
    → (fuel rounds : ℕ) (m : Machine) → IsBounded m.state
    → StaysBounded fuel
        (environment disk image)
        m
        (lpst_run fuel (environment disk image) outside rounds m)
lpst_run-lpst_image_load disk mme_file obj_file n {image} is fuel rounds m b =
    let loaded = lpst_image_load-IsLoaded disk mme_file obj_file n is in
    lpst_run-IsBounded fuel (environment disk image)
      (modules-FewLocals 0 loaded.start image.code_end_offset image.obj_size image.modules
        loaded.tiles)
      rounds m b
