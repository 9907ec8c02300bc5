-- ===== src/Registers/Samples.antt =====
-- A processor whose registers are numbers by their names, and a memory of bytes, for tests.
use dumpulator.Registers.Passing.{IsSeparate}
use dumpulator.Prelude.{
  ◌≤◌, ◌<◌, ◌≡◌, sym, ◌∙◌, ap, ◌⊎◌, arith, length, ℕ, zero, suc, ◌+◌, ◌*◌, refl, Bool, true, false,
  List, [], ◌∷◌, ◌==◌, if◌then◌else◌,
}
use dumpulator.Outcome.{ok}
use dumpulator.Native.Text.{Name, same_name}
use dumpulator.Primitives.Architecture.{MemoryAccess}
use dumpulator.Registers.Names.{regmap, find_name}
use dumpulator.Registers.Access.{Cpu, get_attr, set_attr, resolve_reg, read_reg, write_reg}
use dumpulator.Registers.Stack.{Machine}
use dumpulator.Registers.Calling.{KeepsTop}

abbrev pub name_number : Name → ℕ
name_number [] = 0
name_number (c ∷ cs) = c + 256 * name_number cs

abbrev pub some_cpu : Cpu
some_cpu = record {
  State = ℕ → ℕ;
  number = name_number;
  reg_read = λ r s. s r;
  reg_write = λ r v s other. if r == other then v else s other;
}

abbrev pub some_registers : ℕ → ℕ
some_registers r = 0x20000

abbrev pub put_bytes : (addr : ℕ) → List ℕ → (ℕ → ℕ) → ℕ → ℕ
put_bytes addr [] s other = s other
put_bytes addr (b ∷ bs) s other = if addr == other then b else put_bytes (addr + 1) bs s other

abbrev pub bytes_at : (addr size : ℕ) → (ℕ → ℕ) → List ℕ
bytes_at addr zero s = []
bytes_at addr (suc n) s = s addr ∷ bytes_at (addr + 1) n s

abbrev pub byte_map : MemoryAccess
byte_map = record {
  State = ℕ → ℕ;
  read = λ addr size s. (ok (bytes_at addr size s), s);
  write = λ addr bytes s. (ok tt, put_bytes addr bytes s);
}

pub some_cpu-KeepsTop : (x64 : Bool) → KeepsTop some_cpu byte_map x64 false
unfolding KeepsTop set_attr get_attr read_reg write_reg resolve_reg regmap find_name same_name
some_cpu-KeepsTop true v s bound = (refl, refl)
some_cpu-KeepsTop false v s bound = (refl, refl)

abbrev pub machine : Machine some_cpu byte_map
machine = record { registers = some_registers; memory = λ a. 0 }

put_bytes_outside :
    (bs : List ℕ) (addr other : ℕ) (s : ℕ → ℕ)
    → other < addr ⊎ addr + length bs ≤ other
    → put_bytes addr bs s other ≡ s other
put_bytes_outside [] addr other s h = refl
put_bytes_outside (b ∷ bs) addr other s h =
    let differ : (addr == other) ≡ false = ground (arith, h) in
    rw differ (put_bytes_outside bs (addr + 1) other s (omega (arith, h)))

bytes_at_outside :
    (n a addr : ℕ) (bs : List ℕ) (s : ℕ → ℕ)
    → a + n ≤ addr ⊎ addr + length bs ≤ a
    → bytes_at a n (put_bytes addr bs s) ≡ bytes_at a n s
bytes_at_outside zero a addr bs s h = refl
bytes_at_outside (suc n) a addr bs s h =
    rw
      (
        put_bytes_outside bs addr a s (omega (arith, h)),
        bytes_at_outside n (a + 1) addr bs s (omega (arith, h)),
      )
      refl

pub byte_map-IsSeparate : IsSeparate byte_map
unfolding IsSeparate
byte_map-IsSeparate addr a n bytes s s' e beside =
    ap (λ r. ok (bytes_at a n r.1)) (sym e)
    ∙ ap (λ bs. ok bs) (bytes_at_outside n a addr bytes s beside)
