-- ===== src/Registers/Examples.antt =====
-- Tests with registers, the stack and calls.
use mathlib.Core.Path.{subst}
use dumpulator.Prelude.{
  ℕ, zero, suc, ◌+◌, ◌-◌, ◌≤◌, ◌≡◌, refl, sym, ◌∙◌, ap, ◌⊎◌, inl, inr, arith, true, false,
  Bool-cases, List, [], ◌∷◌, length, ◌==◌, if◌then◌else◌,
}
use dumpulator.Outcome.{ok}
use dumpulator.Native.Text.{Name, codes, same_name}
use dumpulator.Primitives.Architecture.{IsMemory}
use dumpulator.Registers.Names.{Entry, entry, is_member, words, regmap, find_name}
use dumpulator.Registers.Access.{get_attr, set_attr, save, load, resolve_reg, read_reg, write_reg}
use dumpulator.Registers.Saving.{AreApart, load-save, same_name-eq}
use dumpulator.Registers.Stack.{Machine, push, ret, prepare_call, get_argument}
use dumpulator.Registers.Calling.{ret-push}
use dumpulator.Registers.Samples.{
  byte_map-IsSeparate, some_cpu, some_registers, put_bytes, bytes_at, byte_map, some_cpu-KeepsTop,
  machine,
}
use dumpulator.Registers.Passing.{prepare_call-get_argument}

bytes_at_same :
    (n a : ℕ) (s t : ℕ → ℕ) → ((j : ℕ) → a ≤ j → s j ≡ t j) → bytes_at a n s ≡ bytes_at a n t
bytes_at_same zero a s t h = refl
bytes_at_same (suc n) a s t h =
    rw (h a (omega arith), bytes_at_same n (a + 1) s t (λ j le. h j (omega (arith, le)))) refl

bytes_at-put_bytes :
    (bs : List ℕ) (addr : ℕ) (s : ℕ → ℕ) → bytes_at addr (length bs) (put_bytes addr bs s) ≡ bs
bytes_at-put_bytes [] addr s = refl
bytes_at-put_bytes (b ∷ bs) addr s =
    let first : (addr == addr) ≡ true = ground arith in
    let behind : (j : ℕ)
        → addr + 1 ≤ j
        → put_bytes addr (b ∷ bs) s j ≡ put_bytes (addr + 1) bs s j =
      λ j le. rw (not_here addr j le) refl in
    rw
      (
        first,
        bytes_at_same (length bs) (addr + 1) (put_bytes addr (b ∷ bs) s) (put_bytes (addr + 1) bs s)
            behind,
        bytes_at-put_bytes bs (addr + 1) s,
      )
      refl
  where
    not_here : (a j : ℕ) → a + 1 ≤ j → (a == j) ≡ false
    not_here a j le = ground (arith, le)

byte_map-IsMemory : IsMemory byte_map
unfolding IsMemory
byte_map-IsMemory addr bytes s s' e =
    ap (λ r. ok (bytes_at addr (length bytes) r.1)) (sym e)
    ∙ ap (λ bs. ok bs) (bytes_at-put_bytes bytes addr s)

abbrev pushed : Machine some_cpu byte_map
pushed = (push some_cpu byte_map true false 0x1234 machine).1

ret-push_example :
    ((ret some_cpu byte_map true false 8 pushed).0 ≡ ok 0x1234)
    × (get_attr some_cpu true false
          (codes "csp")
          (ret some_cpu byte_map true false 8 pushed).1.registers
        ≡ ok (0x20000 - 8))
unfolding push get_attr
ret-push_example =
    ret-push some_cpu byte_map true false 0x1234 8 0x20000 machine pushed (some_cpu-KeepsTop true)
      byte_map-IsMemory (omega arith) refl (omega arith) refl

abbrev ready : Machine some_cpu byte_map
ready = (prepare_call some_cpu byte_map false false (7 ∷ 8 ∷ 9 ∷ []) [] machine).1

prepare_call-get_argument_example : (get_argument some_cpu byte_map false false 1 ready).0 ≡ ok 8
unfolding prepare_call get_attr
prepare_call-get_argument_example =
    prepare_call-get_argument some_cpu byte_map false (7 ∷ 8 ∷ 9 ∷ []) 0x20000 1 8 machine ready
      (some_cpu-KeepsTop false) byte_map-IsMemory byte_map-IsSeparate (omega arith) refl refl refl

abbrev two_names : List Name
two_names = words (codes "rax rbx")

two_members : (a : Name) → is_member two_names a ≡ true → (a ≡ codes "rax") ⊎ (a ≡ codes "rbx")
unfolding is_member
two_members a h = elim (Bool-cases (same_name (codes "rax") a)) [
  | inl e ↦ inl (sym (same_name-eq (codes "rax") a e))
  | inr n ↦ elim (Bool-cases (same_name (codes "rbx") a)) [
    | inl e ↦ inr (sym (same_name-eq (codes "rbx") a e))
    | inr n' ↦ absurd (ground (arith, rw (n, n') at h))
  ]
]

abbrev Apart : (v : ℕ) (t : ℕ → ℕ) (a b : Name) → Type 0
Apart v t a b =
    ((set_attr some_cpu true false a v t).0 ≡ ok tt)
    × (get_attr some_cpu true false b (set_attr some_cpu true false a v t).1
        ≡ (if same_name a b then ok v else get_attr some_cpu true false b t))

at_names : (v : ℕ) (t : ℕ → ℕ) (x y a b : Name) → a ≡ x → b ≡ y → Apart v t x y → Apart v t a b
at_names v t x y a b e f h =
    subst (λ n. Apart v t n b) (sym e) (subst (λ n. Apart v t x n) (sym f) h)

two_names-AreApart : (s : ℕ → ℕ) → AreApart some_cpu true false two_names s
unfolding AreApart set_attr get_attr read_reg write_reg resolve_reg regmap find_name same_name
two_names-AreApart s a b v t ha hb e =
    let rax = codes "rax" in
    let rbx = codes "rbx" in
    elim (two_members a ha) [
      | inl x ↦ elim (two_members b hb) [
        | inl y ↦ at_names v t rax rax a b x y (refl, refl)
        | inr y ↦ at_names v t rax rbx a b x y (refl, refl)
      ]
      | inr x ↦ elim (two_members b hb) [
        | inl y ↦ at_names v t rbx rax a b x y (refl, refl)
        | inr y ↦ at_names v t rbx rbx a b x y (refl, refl)
      ]
    ]

abbrev saved_names : List Entry
saved_names = entry (codes "rax") 0x20000 ∷ entry (codes "rbx") 0x20000 ∷ []

load-save_example :
    ((load some_cpu true false saved_names (λ r. 0)).0 ≡ ok tt)
    × (get_attr some_cpu true false (codes "rbx") (load some_cpu true false saved_names (λ r. 0)).1
        ≡ get_attr some_cpu true false (codes "rbx") some_registers)
unfolding save is_member get_attr
load-save_example =
    load-save some_cpu true false two_names saved_names (codes "rbx") some_registers (λ r. 0)
      (two_names-AreApart some_registers) refl refl
