-- ===== src/Primitives/Wrapping.antt =====
-- The truncated integers against two's complement.
use dumpulator.Prelude.{
  ℕ, zero, suc, ◌+◌, ◌-◌, ◌*◌, ◌/◌, ◌%◌, ◌≤◌, ◌<◌, ◌≡◌, refl, ap, inl, inr, false, ◌==◌, ltb,
  if◌then◌else◌, arith, Bool-cases,
}
use dumpulator.Prelude.Int.{ℤ, pos, negsuc}
use dumpulator.Primitives.Integers.{
  Width, char, short, long, sign_bit, masked, negated, unsigned, signed_value, signed,
}

-- Two's complement of the low bits.
unfoldable pub twos_complement : Width → ℕ → ℤ
twos_complement w n = if ltb n (sign_bit w) then pos n else negsuc (2 * sign_bit w - (1 + n))

-- `z + 1`
unfoldable pub succ : ℤ → ℤ
succ (pos n) = pos (n + 1)
succ (negsuc zero) = pos 0
succ (negsuc (suc n)) = negsuc n

masked_lt : (w : Width) (z : ℤ) → masked (2 * sign_bit w) z < 2 * sign_bit w
unfolding masked sign_bit
masked_lt char (pos n) = omega arith
masked_lt char (negsuc n) = omega arith
masked_lt short (pos n) = omega arith
masked_lt short (negsuc n) = omega arith
masked_lt long (pos n) = omega arith
masked_lt long (negsuc n) = omega arith

succ-negsuc : (n : ℕ) → succ (negsuc n) ≡ negated n
unfolding succ negated
succ-negsuc zero = refl
succ-negsuc (suc n) = refl

value_low : (w : Width) (n : ℕ) → n < sign_bit w → signed_value w n ≡ twos_complement w n
unfolding signed_value twos_complement sign_bit
value_low char n h = ground arith
value_low short n h = ground arith
value_low long n h = ground arith

value_high :
    (w : Width) (n : ℕ)
    → sign_bit w ≤ n
    → n < 2 * sign_bit w
    → signed_value w n ≡ succ (twos_complement w n)
unfolding signed_value twos_complement sign_bit
value_high char n h lt =
    let set : (n / 0x80 % 2 == 0) ≡ false = ground arith in
    let high : ltb n 0x80 ≡ false = ground arith in rw (set, high, succ-negsuc) refl
value_high short n h lt =
    let set : (n / 0x8000 % 2 == 0) ≡ false = ground arith in
    let high : ltb n 0x8000 ≡ false = ground arith in rw (set, high, succ-negsuc) refl
value_high long n h lt =
    let set : (n / 0x80000000 % 2 == 0) ≡ false = ground arith in
    let high : ltb n 0x80000000 ≡ false = ground arith in rw (set, high, succ-negsuc) refl

-- `CHAR`, `SHORT` and `LONG` give the two's complement of the low bits if the sign bit is not set, and
-- one more than that if it is.
pub signed-twos_complement :
    (w : Width) (z : ℤ)
    → signed w z ≡ (
        let low = masked (2 * sign_bit w) z in
        if ltb low (sign_bit w) then twos_complement w low else succ (twos_complement w low))
unfolding signed
signed-twos_complement w z = elim (Bool-cases (ltb (masked (2 * sign_bit w) z) (sign_bit w))) [
  | inl e ↦ rw e (value_low w _ (ground (arith, e)))
  | inr e ↦ rw e (value_high w _ (ground (arith, e)) (masked_lt w z))
]

low_kept : (w : Width) (n : ℕ) → n < 2 * sign_bit w → unsigned w (twos_complement w n) ≡ pos n
unfolding unsigned twos_complement masked sign_bit
low_kept char n h = elim (Bool-cases (ltb n 0x80)) [
  | inl e ↦ rw e (ap pos (omega arith))
  | inr e ↦ rw e (ap pos (omega arith))
]
low_kept short n h = elim (Bool-cases (ltb n 0x8000)) [
  | inl e ↦ rw e (ap pos (omega arith))
  | inr e ↦ rw e (ap pos (omega arith))
]
low_kept long n h = elim (Bool-cases (ltb n 0x80000000)) [
  | inl e ↦ rw e (ap pos (omega arith))
  | inr e ↦ rw e (ap pos (omega arith))
]

-- `UCHAR`, `USHORT` and `ULONG` of the two's complement of an integer's low bits are those of the
-- integer.
pub unsigned-twos_complement :
    (w : Width) (z : ℤ) → unsigned w (twos_complement w (masked (2 * sign_bit w) z)) ≡ unsigned w z
unfolding unsigned
unsigned-twos_complement w z = low_kept w (masked (2 * sign_bit w) z) (masked_lt w z)
