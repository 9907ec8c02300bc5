-- ===== src/Registers/Passing.antt =====
-- The arguments that `call` pushes for a processor with 32 bits, and `Arguments`.
use dumpulator.Prelude.{
  ℕ, suc, zero, ◌+◌, ◌-◌, ◌*◌, ◌^◌, ◌≤◌, ◌<◌, ◌≡◌, refl, sym, ◌∙◌, ap, ◌⊎◌, inl, inr, arith, Bool,
  false, Bool-cases, List, [], ◌∷◌, length, get_elem?, some,
}
use dumpulator.Outcome.{Result, ok, raise, Action, pure, and_then, bind_ok, bind_returned}
use dumpulator.Native.Text.{Name, codes, same_name}
use dumpulator.Primitives.Control.{unpack}
use dumpulator.Primitives.Fields.{pack, length-pack}
use dumpulator.Primitives.Architecture.{
  MemoryAccess, IsMemory, read_unsigned, write_ptr, read_ptr, read_ptr-write_ptr,
}
use dumpulator.Registers.Names.{regmap, find_name}
use dumpulator.Registers.Access.{Cpu, load, get_attr, read_reg, resolve_reg}
use dumpulator.Registers.Saving.{ok-inj}
use dumpulator.Registers.Stack.{
  Machine, get_reg, on_memory, push, push_arguments, load_registers, prepare_call, get_argument,
  user_cave,
}
use dumpulator.Registers.Calling.{KeepsTop, push-Pushed, written-fits}

module _ (guest : MemoryAccess) where
  -- A write does not change what is read beside it.
  unfoldable pub IsSeparate : Type 0
  IsSeparate =
      (addr a n : ℕ) (bytes : List ℕ) (s s' : guest.State)
      → guest.write addr bytes s ≡ (ok tt, s')
      → a + n ≤ addr ⊎ addr + length bytes ≤ a
      → (guest.read a n s').0 ≡ (guest.read a n s).0

  -- Numbers of 4 bytes at an address and behind it.
  abbrev pub Holds : guest.State → (addr : ℕ) → List ℕ → Type 0
  Holds s addr [] = Unit
  Holds s addr (v ∷ vs) = ((read_unsigned guest 4 addr s).0 ≡ ok v) × Holds s (addr + 4) vs

  unpacked : (r : Result (List ℕ)) (s : guest.State) → Result ℕ
  unpacked r s = (and_then r (λ bytes. pure (unpack bytes)) s).0

  unpacked_state : (r : Result (List ℕ)) (s s' : guest.State) → unpacked r s ≡ unpacked r s'
  unfolding unpacked
  unpacked_state (ok b) s s' = refl
  unpacked_state (raise e) s s' = refl

  Holds-write :
      (vs : List ℕ) (addr a value : ℕ) (s s' : guest.State)
      → IsSeparate
      → guest.write addr (pack 4 value) s ≡ (ok tt, s')
      → addr + 4 ≤ a
      → Holds s a vs
      → Holds s' a vs
  unfolding IsSeparate read_unsigned unpacked
  Holds-write [] addr a value s s' apart e below h = tt
  Holds-write (v ∷ vs) addr a value s s' apart e below (here, rest) =
      let kept : (guest.read a 4 s').0 ≡ (guest.read a 4 s).0 =
        apart addr a 4 (pack 4 value) s s' e (inr (rw (length-pack 4 value) below)) in
      (
        ap (λ r. unpacked r (guest.read a 4 s').1) kept
            ∙ unpacked_state (guest.read a 4 s).0 (guest.read a 4 s').1 (guest.read a 4 s).1
            ∙ here,
        Holds-write vs addr (a + 4) value s s' apart e (omega (arith, below)) rest,
      )

  Holds-get_elem :
      (vs : List ℕ) (a i v : ℕ) (s : guest.State)
      → Holds s a vs
      → get_elem? vs i ≡ some v
      → (read_unsigned guest 4 (a + i * 4) s).0 ≡ ok v
  Holds-get_elem [] a i v s h e = absurd (ground (arith, e))
  Holds-get_elem (w ∷ vs) a zero v s (here, rest) e =
      let same : w ≡ v = ground (arith, e) in
      let at : a + 0 * 4 ≡ a = omega arith in rw at (here ∙ ap (λ n. ok n) same)
  Holds-get_elem (w ∷ vs) a (suc i) v s (here, rest) e =
      let at : a + suc i * 4 ≡ a + 4 + i * 4 = omega arith in
      rw at (Holds-get_elem vs (a + 4) i v s rest e)

module _ (cpu : Cpu) (guest : MemoryAccess) (old : Bool) where
  abbrev csp : Name
  csp = codes "csp"

  -- The numbers on the stack.
  abbrev Stacked : (top : ℕ) → List ℕ → Machine cpu guest → Type 0
  Stacked top vs m = (get_attr cpu false old csp m.registers ≡ ok top) × Holds guest m.memory top vs

  push-Stacked :
      (top value : ℕ) (vs : List ℕ) (m m' : Machine cpu guest)
      → KeepsTop cpu guest false old
      → IsMemory guest
      → IsSeparate guest
      → top < 256 ^ 4
      → Stacked top vs m
      → push cpu guest false old value m ≡ (ok tt, m')
      → (4 ≤ top) × Stacked (top - 4) (value ∷ vs) m'
  unfolding KeepsTop read_ptr
  push-Stacked top value vs m m' keeps law apart bound (at_top, held) e =
      let h = push-Pushed cpu guest false old value m m' e in
      let same : h.top ≡ top = ok-inj (sym h.at_top ∙ at_top) in
      let room : 4 ≤ top = omega (arith, h.room, same) in
      let w : write_ptr guest false (top - 4) value m.memory ≡ (ok tt, m'.memory) =
        ap (λ n. write_ptr guest false (n - 4) value m.memory) (sym same) ∙ h.written in
      let (fits, bytes) = written-fits cpu guest false old (top - 4) value m.memory m'.memory w in
      let back : top - 4 + 4 ≡ top = omega (arith, room) in
      (
        room,
        (
          ap (get_attr cpu false old csp) h.moved
              ∙ (keeps (h.top - 4) m.registers (omega (arith, bound, same))).1
              ∙ ap (λ n. ok (n - 4)) same,
          (
            read_ptr-write_ptr guest law false (top - 4) value m.memory m'.memory fits w,
            rw back (
                Holds-write guest vs (top - 4) top value m.memory m'.memory apart bytes
                  (omega (arith, room)) held),
          ),
        ),
      )

  push_arguments-Stacked :
      (args : List ℕ) (top : ℕ) (m m' : Machine cpu guest)
      → KeepsTop cpu guest false old
      → IsMemory guest
      → IsSeparate guest
      → top < 256 ^ 4
      → get_attr cpu false old csp m.registers ≡ ok top
      → push_arguments cpu guest false old args m ≡ (ok tt, m')
      → (length args * 4 ≤ top) × Stacked (top - length args * 4) args m'
  unfolding push_arguments
  push_arguments-Stacked [] top m m' keeps law apart bound at_top e =
      let same : m.registers ≡ m'.registers = ap (λ r. r.1.registers) e in
      (
        omega arith,
        (ap (get_attr cpu false old csp) (sym same) ∙ at_top ∙ ap (λ n. ok n) (omega arith), tt),
      )
  push_arguments-Stacked (v ∷ vs) top m m' keeps law apart bound at_top e =
      let (u, (m₁, (e₁, e₂))) = bind_returned (push_arguments cpu guest false old vs) _ m m' tt e in
      let (long, stacked) = push_arguments-Stacked vs top m m₁ keeps law apart bound at_top e₁ in
      let (room, after) =
        push-Stacked (top - length vs * 4) v vs m₁ m' keeps law apart (omega (arith, bound)) stacked
          e₂ in
      let at : top - length (v ∷ vs) * 4 ≡ top - length vs * 4 - 4 = omega arith in
      (omega (arith, long, room), rw at after)

  -- `esp` and `csp` are one register.
  get_esp_lem :
      (s : cpu.State) → get_attr cpu false old (codes "esp") s ≡ get_attr cpu false old csp s
  unfolding get_attr read_reg resolve_reg regmap find_name same_name
  get_esp_lem s = elim (Bool-cases old) [ inl e ↦ rw e refl | inr e ↦ rw e refl ]

  -- For 32 bits, if the stack pointer keeps what it is set to, and memory gives back what was written and
  -- keeps the rest: once `call` with some arguments and no registers is ready to start, `Arguments` finds
  -- each argument at its index.
  pub prepare_call-get_argument :
      (args : List ℕ) (top i v : ℕ) (m m' : Machine cpu guest)
      → KeepsTop cpu guest false old
      → IsMemory guest
      → IsSeparate guest
      → top < 256 ^ 4
      → get_attr cpu false old (codes "csp") m.registers ≡ ok top
      → prepare_call cpu guest false old args [] m ≡ (ok tt, m')
      → get_elem? args i ≡ some v
      → (get_argument cpu guest false old i m').0 ≡ ok v
  unfolding prepare_call load_registers load get_argument get_reg on_memory
  prepare_call-get_argument args top i v m m' keeps law apart bound at_top e found =
      let (u, (m₁, (e₁, e₂))) =
        bind_returned (push_arguments cpu guest false old args)
          (λ u. push cpu guest false old user_cave) m m' tt e in
      let (long, stacked) = push_arguments-Stacked args top m m₁ keeps law apart bound at_top e₁ in
      let (room, (at, held)) =
        push-Stacked (top - length args * 4) user_cave args m₁ m' keeps law apart
          (omega (arith, bound)) stacked e₂ in
      let address : top - length args * 4 - 4 + (i + 1) * 4
          ≡ top - length args * 4 - 4 + 4 + i * 4 =
        omega arith in
      let read : (address : ℕ) → Action (Machine cpu guest) ℕ =
        λ address. on_memory (read_unsigned guest 4 address) in
      ap (λ r. r.0)
        (bind_ok (get_reg cpu guest false old (codes "esp")) (λ esp. read (esp + (i + 1) * 4)) m' m'
          (top - length args * 4 - 4)
          (ap (λ (r : Result ℕ). (r, m')) (get_esp_lem m'.registers ∙ at)))
      ∙ ap (λ n. (read n m').0) address
      ∙ Holds-get_elem guest args (top - length args * 4 - 4 + 4) i v m'.memory held.1 found
