-- ===== src/Registers/Calling.antt =====
-- The stack: what is pushed is popped, and the arguments that `call` pushes are found by `Arguments`.
use dumpulator.Prelude.{
  ℕ, ◌+◌, ◌-◌, ◌≤◌, ◌<◌, ◌≡◌, refl, sym, ◌∙◌, ap, inl, inr, arith, Bool, true, false, Bool-cases,
  ltb, ltb→lt, ◌^◌, if◌then◌else◌,
}
use dumpulator.Outcome.{uc_error, ok, pure, throw, bind_ok, bind_returned}
use dumpulator.Native.Text.{Name, codes}
use dumpulator.Primitives.Control.{ptr_size}
use dumpulator.Primitives.Fields.{pack}
use dumpulator.Registers.Saving.{ok-inj}
use dumpulator.Primitives.Architecture.{
  MemoryAccess, IsMemory, read_ptr, write_ptr, write_unsigned, read_ptr-write_ptr,
}
use dumpulator.Registers.Access.{Cpu, get_attr, set_attr}
use dumpulator.Registers.Stack.{Machine, get_reg, set_reg, on_memory, push, pop, ret}

module _ (cpu : Cpu) (guest : MemoryAccess) (x64 old : Bool) where
  abbrev csp : Name
  csp = codes "csp"

  -- The stack pointer is what it was set to, if that is a number of its width.
  unfoldable pub KeepsTop : Type 0
  KeepsTop =
      (v : ℕ) (s : cpu.State)
      → v < 256 ^ ptr_size x64
      → ((set_attr cpu x64 old csp v s).0 ≡ ok tt)
        × (get_attr cpu x64 old csp (set_attr cpu x64 old csp v s).1 ≡ ok v)

  -- What a push that returned has done.
  pub record Pushed (value : ℕ) (m m' : Machine cpu guest) : Type 0 where
    pub top : ℕ
    pub at_top : get_attr cpu x64 old csp m.registers ≡ ok top
    pub room : ptr_size x64 ≤ top
    pub written : write_ptr guest x64 (top - ptr_size x64) value m.memory ≡ (ok tt, m'.memory)
    pub moved : m'.registers ≡ (set_attr cpu x64 old csp (top - ptr_size x64) m.registers).1

  pub push-Pushed :
      (value : ℕ) (m m' : Machine cpu guest)
      → push cpu guest x64 old value m ≡ (ok tt, m')
      → Pushed value m m'
  unfolding push get_reg set_reg on_memory
  push-Pushed value m m' h =
      let p = ptr_size x64 in
      let (top, (m₁, (e₁, h₁))) = bind_returned (get_reg cpu guest x64 old csp) _ m m' tt h in
      let (u₂, (m₂, (e₂, h₂))) =
        bind_returned (if ltb top p then throw uc_error else pure tt) _ m₁ m' tt h₁ in
      let (u₃, (m₃, (e₃, h₃))) =
        bind_returned (on_memory (write_ptr guest x64 (top - p) value)) _ m₂ m' tt h₂ in
      let (room, same) = enough_room (ltb top p) m₁ m₂ u₂ e₂ in
      let here : m ≡ m₂ = ap (λ r. r.1) e₁ ∙ same in
      let regs : m₃.registers ≡ m.registers =
        sym (ap (λ r. r.1.registers) e₃) ∙ sym (ap (λ (n : Machine cpu guest). n.registers) here) in
      record {
        top = top;
        at_top = ap (λ r. r.0) e₁;
        room = ground (arith, room);
        written =
            ap (λ (n : Machine cpu guest). write_ptr guest x64 (top - p) value n.memory) here
            ∙ ap (λ r. (r, (write_ptr guest x64 (top - p) value m₂.memory).1)) (ap (λ r. r.0) e₃)
            ∙ ap (λ s. (ok tt, s)) (ap (λ r. r.1.memory) e₃ ∙ ap (λ r. r.1.memory) h₃);
        moved =
            sym (ap (λ r. r.1.registers) h₃)
            ∙ ap (λ s. (set_attr cpu x64 old csp (top - p) s).1) regs;
      }
    where
      enough_room :
          (b : Bool) (n n' : Machine cpu guest) (u : Unit {0})
          → (if b then throw uc_error else pure tt) n ≡ (ok u, n')
          → (b ≡ false) × (n ≡ n')
      enough_room true n n' u e = absurd (ground (arith, ap (λ r. r.0) e))
      enough_room false n n' u e = (refl, ap (λ r. r.1) e)

  pub written-fits :
      (addr value : ℕ) (s s' : guest.State)
      → write_ptr guest x64 addr value s ≡ (ok tt, s')
      → (value < 256 ^ ptr_size x64)
        × (guest.write addr (pack (ptr_size x64) value) s ≡ (ok tt, s'))
  unfolding write_ptr write_unsigned
  written-fits addr value s s' e = elim (Bool-cases (ltb value (256 ^ ptr_size x64))) [
    | inl small ↦ (ltb→lt value (256 ^ ptr_size x64) small, rw small at e)
    | inr large ↦ absurd (ground (arith, ap (λ r. r.0) (rw large at e)))
  ]

  -- The machine after the `pop` of a pushed value.
  abbrev popped : (top : ℕ) → Machine cpu guest → Machine cpu guest
  popped top m = record {
    registers = (set_attr cpu x64 old csp top m.registers).1;
    memory = (read_ptr guest x64 (top - ptr_size x64) m.memory).1;
  }

  pop-Pushed :
      (value top : ℕ) (m m' : Machine cpu guest)
      → KeepsTop
      → IsMemory guest
      → get_attr cpu x64 old csp m.registers ≡ ok top
      → top < 256 ^ ptr_size x64
      → push cpu guest x64 old value m ≡ (ok tt, m')
      → pop cpu guest x64 old m' ≡ (ok value, popped top m')
  unfolding pop get_reg set_reg on_memory KeepsTop
  pop-Pushed value top m m' keeps law at_top bound pushed =
      let h = push-Pushed value m m' pushed in
      let same : h.top ≡ top = ok-inj (sym h.at_top ∙ at_top) in
      let now : get_attr cpu x64 old csp m'.registers ≡ ok (top - ptr_size x64) =
        ap (get_attr cpu x64 old csp) h.moved
        ∙ (keeps (h.top - ptr_size x64) m.registers (omega (arith, bound, same))).1
        ∙ ap (λ n. ok (n - ptr_size x64)) same in
      let value_read : (read_ptr guest x64 (top - ptr_size x64) m'.memory).0 ≡ ok value =
        read_ptr-write_ptr guest law x64 (top - ptr_size x64) value m.memory m'.memory
          (written-fits (h.top - ptr_size x64) value m.memory m'.memory h.written).0
          (ap (λ n. write_ptr guest x64 (n - ptr_size x64) value m.memory) (sym same)
            ∙ h.written) in
      let back : top - ptr_size x64 + ptr_size x64 ≡ top = omega (arith, h.room, same) in
      rw (now, value_read, back, (keeps top m'.registers bound).0) refl

  -- If the stack pointer keeps what it is set to, and memory gives back what was written: after a push that
  -- returned, `pop` returns the value and the stack pointer is where it was before the push.
  pub pop-push :
      (value top : ℕ) (m m' : Machine cpu guest)
      → KeepsTop
      → IsMemory guest
      → get_attr cpu x64 old csp m.registers ≡ ok top
      → top < 256 ^ ptr_size x64
      → push cpu guest x64 old value m ≡ (ok tt, m')
      → ((pop cpu guest x64 old m').0 ≡ ok value)
        × (get_attr cpu x64 old csp (pop cpu guest x64 old m').1.registers ≡ ok top)
  unfolding KeepsTop
  pop-push value top m m' keeps law at_top bound pushed =
      let e = pop-Pushed value top m m' keeps law at_top bound pushed in
      (
        ap (λ r. r.0) e,
        ap (λ r. get_attr cpu x64 old csp r.1.registers) e ∙ (keeps top m'.registers bound).1,
      )

  -- Under the same conditions `ret` returns a pushed return address and leaves the stack pointer `imm`
  -- bytes below where it was before the push, if there are as many.
  pub ret-push :
      (value imm top : ℕ) (m m' : Machine cpu guest)
      → KeepsTop
      → IsMemory guest
      → imm ≤ top
      → get_attr cpu x64 old csp m.registers ≡ ok top
      → top < 256 ^ ptr_size x64
      → push cpu guest x64 old value m ≡ (ok tt, m')
      → ((ret cpu guest x64 old imm m').0 ≡ ok value)
        × (get_attr cpu x64 old csp (ret cpu guest x64 old imm m').1.registers ≡ ok (top - imm))
  unfolding ret get_reg set_reg KeepsTop
  ret-push value imm top m m' keeps law fits at_top bound pushed =
      let s = (set_attr cpu x64 old csp top m'.registers).1 in
      let enough : ltb top imm ≡ false = ground (arith, fits) in
      let whole : ret cpu guest x64 old imm m' ≡ (
        ok value,
        record (popped top m') { registers = (set_attr cpu x64 old csp (top - imm) s).1 },
      ) =
        bind_ok (pop cpu guest x64 old) _ m' (popped top m') value
          (pop-Pushed value top m m' keeps law at_top bound pushed)
        ∙ rw
            (
              (keeps top m'.registers bound).1,
              enough,
              (keeps (top - imm) s (omega (arith, bound))).0,
            )
            refl in
      (
        ap (λ r. r.0) whole,
        ap (λ r. get_attr cpu x64 old csp r.1.registers) whole
            ∙ (keeps (top - imm) s (omega (arith, bound))).1,
      )
