-- ===== src/Native/Structs.antt =====
-- native.py: the structures that system calls write, as `ctypes` lays them out: each field at a multiple of
-- its size, and the end at a multiple of the largest. (`_alignment_` is no attribute of `ctypes`.)
use dumpulator.Prelude.{
  ℕ, ◌+◌, ◌-◌, ◌*◌, ◌/◌, Bool, List, [], ◌∷◌, ◌++◌, replicate, leb, if◌then◌else◌,
}
use dumpulator.Primitives.Control.{ptr_size}
use dumpulator.Primitives.Fields.{Field, pack}

-- The number of bytes from `offset` to the next multiple of `alignment`.
abbrev pub padding : (offset alignment : ℕ) → ℕ
padding offset alignment = (offset + (alignment - 1)) / alignment * alignment - offset

abbrev larger : ℕ → ℕ → ℕ
larger a b = if leb a b then b else a

unfoldable pub fields_bytes : (offset alignment : ℕ) → List Field → List ℕ
unfolding pack
fields_bytes offset alignment [] = replicate (padding offset alignment) 0
fields_bytes offset alignment (f ∷ fs) =
    replicate (padding offset f.size) 0
    ++ (pack f.size f.value
        ++ fields_bytes (offset + padding offset f.size + f.size) (larger alignment f.size) fs)

-- `bytes(structure)`
unfoldable pub struct_bytes : List Field → List ℕ
unfolding fields_bytes
struct_bytes fs = fields_bytes 0 1 fs

abbrev pub field : (size value : ℕ) → Field
field size value = record { size = size; value = value }

-- `MEMORY_BASIC_INFORMATION64` and `MEMORY_BASIC_INFORMATION32`; `PartitionId` is not set.
unfoldable pub memory_basic_information :
    (x64 : Bool) (base allocation_base allocation_protect region_size state protect type : ℕ)
    → List ℕ
unfolding struct_bytes
memory_basic_information x64 base allocation_base allocation_protect region_size state protect
      type =
    struct_bytes (
      if x64
      then field 8 base
        ∷ field 8 allocation_base
        ∷ field 4 allocation_protect
        ∷ field 2 0
        ∷ field 8 region_size
        ∷ field 4 state
        ∷ field 4 protect
        ∷ field 4 type
        ∷ []
      else field 4 base
        ∷ field 4 allocation_base
        ∷ field 4 allocation_protect
        ∷ field 4 region_size
        ∷ field 4 state
        ∷ field 4 protect
        ∷ field 4 type
        ∷ [])

-- `MEMORY_REGION_INFORMATION`
unfoldable pub memory_region_information :
    (x64 : Bool) (allocation_base allocation_protect flags region_size commit_size : ℕ) → List ℕ
unfolding struct_bytes
memory_region_information x64 allocation_base allocation_protect flags region_size commit_size =
    struct_bytes (
      field (ptr_size x64) allocation_base
      ∷ field 4 allocation_protect
      ∷ field 4 flags
      ∷ field (ptr_size x64) region_size
      ∷ field (ptr_size x64) commit_size
      ∷ [])
