-- ===== src/Registers/Flags.antt =====
-- The flags of `Registers`: one bit each of the register `eflags`.
use dumpulator.Prelude.{
  ℕ, zero, suc, ◌+◌, ◌-◌, ◌*◌, ◌/◌, ◌%◌, ◌<◌, ◌≡◌, refl, arith, Bool, false, ◌==◌, if◌then◌else◌,
}
use dumpulator.Outcome.{exception, Action, throw}
use dumpulator.Native.Text.{codes}
use dumpulator.Registers.Access.{Cpu, bit_at, with_bit, write_reg}

pub bit_at-with_bit :
    (i j v n : ℕ) → v < 2 → bit_at j (with_bit i v n) ≡ (if i == j then v else bit_at j n)
unfolding bit_at with_bit
bit_at-with_bit zero zero v n small = omega (arith, small)
bit_at-with_bit zero (suc j) v n small =
    let differ : (0 == suc j) ≡ false = ground arith in
    let rest : (n - n % 2 + v) / 2 ≡ n / 2 = omega (arith, small) in rw (differ, rest) refl
bit_at-with_bit (suc i) zero v n small =
    let differ : (suc i == 0) ≡ false = ground arith in rw differ (omega arith)
bit_at-with_bit (suc i) (suc j) v n small =
    let same : (suc i == suc j) ≡ (i == j) = ground arith in
    let rest : (with_bit i v (n / 2) * 2 + n % 2) / 2 ≡ with_bit i v (n / 2) = omega arith in
    rw (same, rest) (bit_at-with_bit i j v (n / 2) small)

module _ (cpu : Cpu) (x64 old : Bool) where
  open cpu use {State}

  abbrev eflags : ℕ
  eflags = cpu.number (codes "EFLAGS")

  -- The rest of `set_flag`, when the register has been read.
  abbrev changed : (i v holder : ℕ) → Action State (Unit {0})
  changed i v holder =
      if v == 0
      then write_reg cpu x64 old (codes "eflags") (with_bit i 0 holder)
      else (if v == 1
          then write_reg cpu x64 old (codes "eflags") (with_bit i 1 holder)
          else throw exception)
