-- ===== src/Memory/Align.antt =====
-- Multiples of the allocation granularity.
use dumpulator.Prelude.{ℕ, zero, suc, ◌+◌, ◌-◌, ◌*◌, ◌/◌, ◌<◌, ◌≤◌, ◌≡◌, refl, arith}
use native.Mathlib.Nat.{div-mul-le_self, lt-div-mul-add}
use dumpulator.Memory.Region.{align_allocation}

quotient_exact : (k r g : ℕ) → r < g → (k * g + r) / g ≡ k
quotient_exact k r g h = grind arith

align_allocation-mul : (k g : ℕ) → align_allocation g (k * g) ≡ k * g
align_allocation-mul k zero = omega arith
align_allocation-mul k (suc g) =
    let e : suc g - 1 ≡ g = omega arith in rw (e, quotient_exact k g (suc g) (omega arith)) refl

-- Multiples of the granularity add up.
pub align_allocation-add :
    (g a b : ℕ)
    → align_allocation g a ≡ a
    → align_allocation g b ≡ b
    → align_allocation g (a + b) ≡ a + b
align_allocation-add g a b p q =
    let k = (a + (g - 1)) / g in
    let j = (b + (g - 1)) / g in
    let e : a + b ≡ (k + j) * g = grind arith in rw e (align_allocation-mul (k + j) g)

-- The result of rounding up is aligned.
pub align_allocation_idem :
    (g a : ℕ) → align_allocation g (align_allocation g a) ≡ align_allocation g a
align_allocation_idem g a = align_allocation-mul ((a + (g - 1)) / g) g

pub le-align_allocation : (g a : ℕ) → 0 < g → a ≤ align_allocation g a
le-align_allocation g a h = grind (arith, div-mul-le_self, lt-div-mul-add)
