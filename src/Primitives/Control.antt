-- ===== src/Primitives/Control.antt =====
-- handles.py: `DeviceControlData`, and the little-endian numbers of Python's `struct` that it reads.
use dumpulator.Prelude.{
  ℕ, ◌+◌, ◌*◌, Bool, List, [], ◌∷◌, length, take, drop, leb, ◌==◌, if◌then◌else◌,
}
use dumpulator.Outcome.{Action, pure, gets, modify, assert, ◌>>=◌, ◌>>◌}

-- `struct.unpack("<…", bytes)` for an unsigned number
unfoldable pub unpack : List ℕ → ℕ
unpack [] = 0
unpack (b ∷ bs) = b + 256 * unpack bs

-- The fields that reading depends on; `x64` is the emulator's.
pub record DeviceControlData : Type 0 where
  pub x64 : Bool
  pub code : ℕ
  pub bytes : List ℕ
  pub index : ℕ

unfoldable pub read : ℕ → Action DeviceControlData (List ℕ)
read size = do
  c ← gets (λ c. c)
  assert (leb (c.index + size) (length c.bytes))
  let chunk : List ℕ = drop c.index (take (c.index + size) c.bytes)
  assert (length chunk == size)
  modify (λ c. record c { index = c.index + size })
  pure chunk

unfoldable pub skip : ℕ → Action DeviceControlData (Unit {0})
skip size = do
  c ← gets (λ c. c)
  assert (leb (c.index + size) (length c.bytes))
  modify (λ c. record c { index = c.index + size })

-- `dp.ptr_size()`
abbrev pub ptr_size : Bool → ℕ
ptr_size x64 = if x64 then 8 else 4

unfoldable pub read_number : ℕ → Action DeviceControlData ℕ
read_number size = do chunk ← read size; pure (unpack chunk)

abbrev pub read_ulong : Action DeviceControlData ℕ
read_ulong = read_number 4

abbrev pub read_ulonglong : Action DeviceControlData ℕ
read_ulonglong = read_number 8

unfoldable pub read_ptr : Action DeviceControlData ℕ
read_ptr = do c ← gets (λ c. c); read_number (ptr_size c.x64)
