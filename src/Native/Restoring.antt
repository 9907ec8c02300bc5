-- ===== src/Native/Restoring.antt =====
-- What `CONTEXT` saves of the registers, and what it restores.
use dumpulator.Prelude.{
  ℕ, ◌+◌, ◌*◌, ◌%◌, ◌^◌, ◌<◌, ◌≡◌, refl, ◌∙◌, ◌↔◌, List, [], ◌∷◌, ◌++◌, arith, Bool-cases, inl, inr,
}
use dumpulator.Native.Text.{Name, codes, same_name, starts_with, lower, set_attr}
use dumpulator.Native.Context.{
  Context, context_control, context_integer, context_segments, context_debug_registers, control,
  integer, segments, debug, dp_name, width, has_flag, set_field, load_fields, from_regs, split_xmm,
  store_fields, store_group, debug_stored, to_regs,
}

-- A register, and the bits that the context has for it.
pub record Slot : Type 0 where
  pub register : Name
  pub bits : ℕ

abbrev slots : (bits : ℕ) → List Name → List Slot
slots bits [] = []
slots bits (name ∷ names) = record { register = name; bits = bits } ∷ slots bits names

-- The registers of `CONTEXT_CONTROL`, `CONTEXT_INTEGER`, `CONTEXT_SEGMENTS` and `CONTEXT_DEBUG_REGISTERS`
abbrev pub control_slots : List Slot
control_slots =
    slots 64 (codes "rip" ∷ codes "rsp" ∷ [])
    ++ (slots 32 (codes "eflags" ∷ []) ++ slots 16 (codes "cs" ∷ codes "ss" ∷ []))

abbrev pub integer_slots : List Slot
integer_slots = slots 64 (
    codes "rax"
    ∷ codes "rbx"
    ∷ codes "rcx"
    ∷ codes "rdx"
    ∷ codes "rsi"
    ∷ codes "rdi"
    ∷ codes "rbp"
    ∷ codes "rsp"
    ∷ codes "r8"
    ∷ codes "r9"
    ∷ codes "r10"
    ∷ codes "r11"
    ∷ codes "r12"
    ∷ codes "r13"
    ∷ codes "r14"
    ∷ codes "r15"
    ∷ [])

abbrev pub segment_slots : List Slot
segment_slots = slots 16 (codes "ds" ∷ codes "es" ∷ codes "fs" ∷ codes "gs" ∷ [])

abbrev pub debug_slots : List Slot
debug_slots =
    slots 64
      (codes "dr0" ∷ codes "dr1" ∷ codes "dr2" ∷ codes "dr3" ∷ codes "dr6" ∷ codes "dr7" ∷ [])

-- The control registers and the integer registers without rsp
abbrev pub no_stack_control : List Slot
no_stack_control =
    slots 64 (codes "rip" ∷ [])
    ++ (slots 32 (codes "eflags" ∷ []) ++ slots 16 (codes "cs" ∷ codes "ss" ∷ []))

abbrev pub no_stack : List Slot
no_stack = slots 64 (
    codes "rax"
    ∷ codes "rbx"
    ∷ codes "rcx"
    ∷ codes "rdx"
    ∷ codes "rsi"
    ∷ codes "rdi"
    ∷ codes "rbp"
    ∷ codes "r8"
    ∷ codes "r9"
    ∷ codes "r10"
    ∷ codes "r11"
    ∷ codes "r12"
    ∷ codes "r13"
    ∷ codes "r14"
    ∷ codes "r15"
    ∷ [])

-- Each register has the saved value, cut to the bits that the context has for it.
abbrev pub Restored : (saved restored : Name → ℕ) → List Slot → Type 0
Restored saved restored [] = Unit {0}
Restored saved restored (slot ∷ slots) =
    (restored slot.register ≡ saved slot.register % 2 ^ slot.bits) × Restored saved restored slots

-- Each register has the value that it had before.
abbrev pub Kept : (old restored : Name → ℕ) → List Slot → Type 0
Kept old restored [] = Unit {0}
Kept old restored (slot ∷ slots) =
    (restored slot.register ≡ old slot.register) × Kept old restored slots

-- The registers after a context with these flags saved `regs` and was restored into `regs'`
unfoldable pub exchanged : (flags : ℕ) → Context → (regs regs' : Name → ℕ) → Name → ℕ
unfolding from_regs to_regs
exchanged flags c regs regs' =
    (to_regs (from_regs regs (record c { context_flags = flags })) regs').0

-- The registers of some groups are restored, and those of others are kept.
abbrev pub Exchanges :
    (flags : ℕ) → Context → (regs regs' : Name → ℕ) (taken left : List Slot) → Type 0
Exchanges flags c regs regs' taken left =
    Restored regs (exchanged flags c regs regs') taken
    × Kept regs' (exchanged flags c regs regs') left

-- With the flag of one group alone, `to_regs` gives each register of the group the value that `from_regs`
-- saved, and leaves the registers of the other groups as they were; with all flags it restores all four
-- groups. The groups: rip, rsp, eflags, cs and ss; the 16 integer registers, rsp among them; ds, es, fs
-- and gs; dr0 to dr3, dr6 and dr7. A value is cut to 64 bits, that of eflags to 32 and that of a segment
-- to 16.
pub to_regs-from_regs :
    (c : Context) (regs regs' : Name → ℕ)
    → Exchanges 0x00100001 c regs regs' control_slots (no_stack ++ (segment_slots ++ debug_slots))
      × (Exchanges 0x00100002 c regs regs' integer_slots
            (no_stack_control ++ (segment_slots ++ debug_slots))
          × (Exchanges 0x00100004 c regs regs' segment_slots
                (control_slots ++ (integer_slots ++ debug_slots))
              × (Exchanges 0x00100010 c regs regs' debug_slots
                    (control_slots ++ (integer_slots ++ segment_slots))
                  × Exchanges 0x0010001f c regs regs'
                      (control_slots ++ (integer_slots ++ (segment_slots ++ debug_slots)))
                      [])))
unfolding exchanged to_regs from_regs dp_name width debug_stored same_name starts_with lower
    has_flag load_fields store_fields set_attr
to_regs-from_regs c regs regs' = (
  (omega arith, omega arith),
  (
    (omega arith, omega arith),
    ((omega arith, omega arith), ((omega arith, omega arith), (omega arith, tt))),
  ),
)

-- `from_regs` cuts a register of 128 bits into two halves that give it back exactly if its upper half is
-- 0: the lower half is too small by the upper half.
pub split_xmm_exact :
    (x : ℕ) → x < 2 ^ 128 → ((split_xmm x).high * 2 ^ 64 + (split_xmm x).low ≡ x) ↔ (x < 2 ^ 64)
unfolding split_xmm
split_xmm_exact x h = (λ e. omega (arith, e), λ small. omega arith)

keeps :
    (flag : ℕ) (name : Name → Name) (c : Context) (keys : List Name) (regs : Name → ℕ)
    (other : Name)
    → store_fields name c keys regs other ≡ regs other
    → store_group flag name c keys regs other ≡ regs other
keeps flag name c keys regs other e = elim (Bool-cases (has_flag c.context_flags flag)) [
  | inl on ↦ rw on e
  | inr off ↦ rw off refl
]

-- `to_regs` leaves the register `mxcsr` as it was, and sets the field `MxCsr` of the context to it,
-- whatever the flags.
pub to_regs-mxcsr :
    (c : Context) (regs : Name → ℕ)
    → ((to_regs c regs).0 (codes "mxcsr") ≡ regs (codes "mxcsr"))
      × ((to_regs c regs).1.fields (codes "MxCsr") ≡ regs (codes "mxcsr") % 2 ^ 32)
unfolding to_regs dp_name debug_stored same_name starts_with lower store_fields set_attr width
to_regs-mxcsr c regs =
    let mxcsr = codes "mxcsr" in
    let c₁ = set_field (codes "MxCsr") (regs mxcsr) c in
    let regs₁ = store_group context_control dp_name c₁ control regs in
    let regs₂ = store_group context_integer lower c₁ integer regs₁ in
    let regs₃ = store_group context_segments dp_name c₁ segments regs₂ in
    (
      keeps context_debug_registers lower c₁ (debug_stored debug) regs₃ mxcsr refl
          ∙ keeps context_segments dp_name c₁ segments regs₂ mxcsr refl
          ∙ keeps context_integer lower c₁ integer regs₁ mxcsr refl
          ∙ keeps context_control dp_name c₁ control regs mxcsr refl,
      refl,
    )
