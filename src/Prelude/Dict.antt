-- ===== src/Prelude/Dict.antt =====
-- Python's `dict` with number keys, as the function that `d.get(key)` is. The program reads these
-- dictionaries by key only.
use Prim.Native.Nat.{ℕ}
use mathlib.Core.Option.{Option, none, some}
use dumpulator.Prelude.Tests.{◌==◌, if◌then◌else◌}

abbrev pub Dict {ℓ} : Type ℓ → Type ℓ
Dict V = ℕ → Option V

module _ {ℓ} {V : Type ℓ} where
  abbrev pub empty : Dict V
  empty j = none

  abbrev pub put : ℕ → V → Dict V → Dict V
  put k v d j = if k == j then some v else d j

  -- `del d[k]` of a key that is present
  abbrev pub erase : ℕ → Dict V → Dict V
  erase k d j = if k == j then none else d j
