-- ===== src/Native/Context.antt =====
-- native.py: `CONTEXT`, the registers of a thread with 64 bits. The fields hold numbers of their widths.
-- A register is read and written by its name, and the names below stand for different registers.
use Prim.Native.Nat.{bit_and}
use dumpulator.Prelude.{ℕ, ◌-◌, ◌/◌, ◌%◌, ◌^◌, Bool, List, [], ◌∷◌, drop, ◌==◌, if◌then◌else◌}
use dumpulator.Native.Text.{Name, codes, same_name, starts_with, lower, set_attr}

abbrev pub context_amd64 : ℕ
context_amd64 = 0x00100000

abbrev pub context_control : ℕ
context_control = 0x00100001

abbrev pub context_integer : ℕ
context_integer = 0x00100002

abbrev pub context_segments : ℕ
context_segments = 0x00100004

abbrev pub context_mmx_registers : ℕ
context_mmx_registers = 0x00100008

abbrev pub context_debug_registers : ℕ
context_debug_registers = 0x00100010

abbrev pub context_all : ℕ
context_all = 0x0010001f

-- `High`, whose bits are read as a signed number, and `Low`
pub record M128A : Type 0 where
  pub high : ℕ
  pub low : ℕ

pub record Context : Type 0 where
  pub context_flags : ℕ
  pub fields : Name → ℕ
  pub xmm : Name → M128A

-- The bits of the fields: `c_uint16` for the segments, `c_uint32` for `EFlags` and `MxCsr`, else `c_uint64`.
unfoldable pub width : Name → ℕ
unfolding same_name starts_with
width key =
    if starts_with (codes "Seg") key
    then 16
    else if same_name key (codes "EFlags")
    then 32
    else if same_name key (codes "MxCsr")
    then 32
    else 64

abbrev pub control : List Name
control = codes "SegSs" ∷ codes "Rsp" ∷ codes "SegCs" ∷ codes "Rip" ∷ codes "EFlags" ∷ []

abbrev pub integer : List Name
integer =
    codes "Rax"
    ∷ codes "Rcx"
    ∷ codes "Rdx"
    ∷ codes "Rbx"
    ∷ codes "Rsp"
    ∷ codes "Rbp"
    ∷ codes "Rsi"
    ∷ codes "Rdi"
    ∷ codes "R8"
    ∷ codes "R9"
    ∷ codes "R10"
    ∷ codes "R11"
    ∷ codes "R12"
    ∷ codes "R13"
    ∷ codes "R14"
    ∷ codes "R15"
    ∷ []

abbrev pub segments : List Name
segments = codes "SegDs" ∷ codes "SegEs" ∷ codes "SegFs" ∷ codes "SegGs" ∷ []

abbrev pub debug : List Name
debug =
    codes "Dr0"
    ∷ codes "Dr1"
    ∷ codes "Dr2"
    ∷ codes "Dr3"
    ∷ codes "Dr6"
    ∷ codes "Dr7"
    ∷ codes "DebugControl"
    ∷ codes "LastBranchToRip"
    ∷ codes "LastBranchFromRip"
    ∷ codes "LastExceptionToRip"
    ∷ codes "LastExceptionFromRip"
    ∷ []

abbrev pub mmx : List Name
mmx =
    codes "Xmm0"
    ∷ codes "Xmm1"
    ∷ codes "Xmm2"
    ∷ codes "Xmm3"
    ∷ codes "Xmm4"
    ∷ codes "Xmm5"
    ∷ codes "Xmm6"
    ∷ codes "Xmm7"
    ∷ codes "Xmm8"
    ∷ codes "Xmm9"
    ∷ codes "Xmm10"
    ∷ codes "Xmm11"
    ∷ codes "Xmm12"
    ∷ codes "Xmm13"
    ∷ codes "Xmm14"
    ∷ codes "Xmm15"
    ∷ []

-- `key[3:].lower()` of a segment, else `key.lower()`
unfoldable pub dp_name : Name → Name
unfolding starts_with lower
dp_name key = if starts_with (codes "Seg") key then lower (drop 3 key) else lower key

-- `setattr(self, key, value)`, which keeps the bits that the field has
abbrev pub set_field : Name → ℕ → Context → Context
set_field key value c = record c { fields = set_attr key (value % 2 ^ width key) c.fields }

-- `(ContextFlags & flag) == flag`
unfoldable pub has_flag : (flags flag : ℕ) → Bool
has_flag flags flag = bit_and flags flag == flag

-- `for key in keys: setattr(self, key, regs[dpname])`
unfoldable pub load_fields : (Name → ℕ) → List Name → Context → Context
unfolding set_attr width
load_fields value [] c = c
load_fields value (key ∷ keys) c = load_fields value keys (set_field key (value key) c)

abbrev pub load_group : (flag : ℕ) → (Name → ℕ) → List Name → Context → Context
load_group flag value keys c = if has_flag c.context_flags flag then load_fields value keys c else c

-- `y.High = x >> 64; y.Low = x - (x >> 64)`, both `c_uint64`
unfoldable pub split_xmm : ℕ → M128A
split_xmm x = record { high = x / 2 ^ 64 % 2 ^ 64; low = (x - x / 2 ^ 64) % 2 ^ 64 }

unfoldable pub load_xmm : (Name → ℕ) → List Name → (Name → M128A) → Name → M128A
unfolding same_name lower split_xmm
load_xmm regs [] xmm other = xmm other
load_xmm regs (key ∷ keys) xmm other =
    load_xmm regs keys (λ k. if same_name key k then split_xmm (regs (lower key)) else xmm k) other

unfoldable pub from_regs : (regs : Name → ℕ) → Context → Context
unfolding load_fields has_flag dp_name starts_with lower load_xmm set_attr width
from_regs regs c =
    let c₁ = set_field (codes "MxCsr") (regs (codes "mxcsr")) c in
    let c₂ = load_group context_control (λ key. regs (dp_name key)) control c₁ in
    let c₃ = load_group context_integer (λ key. regs (lower key)) integer c₂ in
    let c₄ = load_group context_segments (λ key. regs (dp_name key)) segments c₃ in
    let c₅ =
      load_group context_debug_registers
        (λ key. if starts_with (codes "Dr") key then regs (lower key) else 0) debug c₄ in
    if has_flag c₅.context_flags context_mmx_registers
    then record c₅ { xmm = load_xmm regs mmx c₅.xmm }
    else c₅

-- `for key in keys: setattr(regs, dpname, getattr(self, key))`
unfoldable pub store_fields : (Name → Name) → Context → List Name → (Name → ℕ) → Name → ℕ
unfolding set_attr
store_fields name c [] regs other = regs other
store_fields name c (key ∷ keys) regs other =
    store_fields name c keys (set_attr (name key) (c.fields key) regs) other

abbrev pub store_group : (flag : ℕ) → (Name → Name) → Context → List Name → (Name → ℕ) → Name → ℕ
store_group flag name c keys regs =
    if has_flag c.context_flags flag then store_fields name c keys regs else regs

-- `if key.startswith("Dr")`
unfoldable pub debug_stored : List Name → List Name
unfolding starts_with
debug_stored [] = []
debug_stored (key ∷ keys) =
    let rest = debug_stored keys in if starts_with (codes "Dr") key then key ∷ rest else rest

-- The registers and the context afterwards. The branch for the xmm registers does nothing.
unfoldable pub to_regs : Context → (regs : Name → ℕ) → (Name → ℕ) × Context
unfolding store_fields has_flag dp_name lower debug_stored set_attr width
to_regs c regs =
    let c₁ = set_field (codes "MxCsr") (regs (codes "mxcsr")) c in
    let regs₁ = store_group context_control dp_name c₁ control regs in
    let regs₂ = store_group context_integer lower c₁ integer regs₁ in
    let regs₃ = store_group context_segments dp_name c₁ segments regs₂ in
    let regs₄ = store_group context_debug_registers lower c₁ (debug_stored debug) regs₃ in
    (regs₄, c₁)
