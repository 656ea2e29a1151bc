-- ===== src/Base/Arrays.antt =====
-- A C array is a function from its indices; every access that the code makes is guarded there, or
-- a length is stated beside the array.
use Prim.Native.Nat.{ℕ, zero, suc}
use mathlib.Core.Option.{Option, none, some}
use mathlib.Core.List.{List, [], ◌∷◌}
use linchpin.Base.Tests.{ltb, ◌==◌, if◌then◌else◌}

abbrev pub Array {ℓ} : Type ℓ → Type ℓ
Array A = ℕ → A

-- `a[i] = v`
abbrev pub update {ℓ} : {A : Type ℓ} → Array A → ℕ → A → Array A
update a i v j = if j == i then v else a j

-- `memcpy(dst, src, n)`, in elements
abbrev pub copy {ℓ} : {A : Type ℓ} → ℕ → Array A → Array A → Array A
copy n src dst i = if ltb i n then src i else dst i

module _ {ℓ} {A : Type ℓ} where
  abbrev pub length : List A → ℕ
  length [] = 0
  length (x ∷ xs) = suc (length xs)

  abbrev pub get_elem? : List A → ℕ → Option A
  get_elem? [] i = none
  get_elem? (x ∷ xs) zero = some x
  get_elem? (x ∷ xs) (suc i) = get_elem? xs i
