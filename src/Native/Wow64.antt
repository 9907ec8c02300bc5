-- ===== src/Native/Wow64.antt =====
-- native.py: `WOW64_CONTEXT`, the registers of a thread with 32 bits. Every field has 32 bits.
use dumpulator.Prelude.{ℕ, ◌%◌, ◌^◌, Bool, true, ◌&&◌, List, [], ◌∷◌, ◌==◌, if◌then◌else◌}
use dumpulator.Outcome.{assertion_error, Result, ok, raise}
use dumpulator.Native.Text.{Name, codes, set_attr}

-- A field of the context, and the register that it is for.
pub record Pairing : Type 0 where
  pub field : Name
  pub register : Name

abbrev pair : Name → Name → Pairing
pair f r = record { field = f; register = r }

-- The assignments of `from_regs` to the fields, in their order
abbrev saved_plain : List Pairing
saved_plain =
    pair (codes "Dr0") (codes "dr0")
    ∷ pair (codes "Dr1") (codes "dr1")
    ∷ pair (codes "Dr2") (codes "dr2")
    ∷ pair (codes "Dr3") (codes "dr3")
    ∷ pair (codes "Dr6") (codes "dr6")
    ∷ pair (codes "Dr7") (codes "dr7")
    ∷ pair (codes "Edi") (codes "edi")
    ∷ pair (codes "Esi") (codes "esi")
    ∷ pair (codes "Ebx") (codes "ebx")
    ∷ pair (codes "Edx") (codes "edx")
    ∷ pair (codes "Ecx") (codes "ecx")
    ∷ pair (codes "Eax") (codes "eax")
    ∷ pair (codes "Ebp") (codes "ebp")
    ∷ pair (codes "Eip") (codes "eip")
    ∷ pair (codes "EFlags") (codes "eflags")
    ∷ pair (codes "Esp") (codes "esp")
    ∷ []

abbrev saved_segments : List Pairing
saved_segments =
    pair (codes "SegCs") (codes "cs")
    ∷ pair (codes "SegSs") (codes "ss")
    ∷ pair (codes "SegDs") (codes "ds")
    ∷ pair (codes "SegEs") (codes "es")
    ∷ pair (codes "SegFs") (codes "fs")
    ∷ pair (codes "SegGs") (codes "gs")
    ∷ []

-- The assignments of `to_regs` to the registers, in their order
abbrev pub stored_plain : List Pairing
stored_plain =
    pair (codes "Dr0") (codes "dr0")
    ∷ pair (codes "Dr1") (codes "dr1")
    ∷ pair (codes "Dr2") (codes "dr2")
    ∷ pair (codes "Dr3") (codes "dr3")
    ∷ pair (codes "Dr6") (codes "dr6")
    ∷ pair (codes "Dr7") (codes "dr7")
    ∷ pair (codes "Edi") (codes "edi")
    ∷ pair (codes "Esi") (codes "esi")
    ∷ pair (codes "Ebx") (codes "ebx")
    ∷ pair (codes "Edx") (codes "edx")
    ∷ pair (codes "Ecx") (codes "ecx")
    ∷ pair (codes "Eax") (codes "eax")
    ∷ pair (codes "Ebp") (codes "ebp")
    ∷ pair (codes "Eip") (codes "eip")
    ∷ pair (codes "EFlags") (codes "eflags")
    ∷ pair (codes "Esp") (codes "esp")
    ∷ []

-- The assertions of `to_regs`, in their order
abbrev pub checked_segments : List Pairing
checked_segments =
    pair (codes "SegCs") (codes "cs")
    ∷ pair (codes "SegSs") (codes "ss")
    ∷ pair (codes "SegDs") (codes "ds")
    ∷ pair (codes "SegEs") (codes "es")
    ∷ pair (codes "SegFs") (codes "fs")
    ∷ pair (codes "SegGs") (codes "gs")
    ∷ []

unfoldable pub load_all : (regs : Name → ℕ) → List Pairing → (Name → ℕ) → Name → ℕ
unfolding set_attr
load_all regs [] fields other = fields other
load_all regs (p ∷ ps) fields other =
    load_all regs ps (set_attr p.field (regs p.register % 2 ^ 32) fields) other

unfoldable pub from_regs : (regs fields : Name → ℕ) → Name → ℕ
unfolding load_all
from_regs regs fields = load_all regs saved_segments (load_all regs saved_plain fields)

unfoldable pub store_all : (fields : Name → ℕ) → List Pairing → (Name → ℕ) → Name → ℕ
unfolding set_attr
store_all fields [] regs other = regs other
store_all fields (p ∷ ps) regs other =
    store_all fields ps (set_attr p.register (fields p.field) regs) other

-- `assert regs.cs == self.SegCs & 0xFFFF`, and so for the other segments
unfoldable pub segments_kept : (fields regs : Name → ℕ) → List Pairing → Bool
segments_kept fields regs [] = true
segments_kept fields regs (p ∷ ps) =
    regs p.register == fields p.field % 2 ^ 16 && segments_kept fields regs ps

-- The registers are set also where an assertion fails after that.
unfoldable pub to_regs : (fields regs : Name → ℕ) → Result (Unit {0}) × (Name → ℕ)
unfolding store_all segments_kept
to_regs fields regs =
    let regs' = store_all fields stored_plain regs in
    (if segments_kept fields regs' checked_segments then ok tt else raise assertion_error, regs')
