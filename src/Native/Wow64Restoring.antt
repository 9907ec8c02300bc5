-- ===== src/Native/Wow64Restoring.antt =====
-- What `WOW64_CONTEXT` restores of the registers that it saved.
use dumpulator.Prelude.{
  ℕ, ◌%◌, ◌^◌, ◌≡◌, ap, Bool, true, List, [], ◌∷◌, arith, ◌==◌, ◌&&◌, if◌then◌else◌,
}
use dumpulator.Outcome.{assertion_error, ok, raise}
use dumpulator.Native.Text.{Name, codes, same_name, set_attr}
use dumpulator.Native.Wow64.{
  stored_plain, checked_segments, from_regs, store_all, segments_kept, to_regs,
}

-- Each register has the value that it had when it was saved, cut to 32 bits.
abbrev pub Restored : (saved restored : Name → ℕ) → List Name → Type 0
Restored saved restored [] = Unit {0}
Restored saved restored (name ∷ names) =
    (restored name ≡ saved name % 2 ^ 32) × Restored saved restored names

-- The registers that the context has besides the segments
abbrev pub restorable : List Name
restorable =
    codes "eax"
    ∷ codes "ebx"
    ∷ codes "ecx"
    ∷ codes "edx"
    ∷ codes "esi"
    ∷ codes "edi"
    ∷ codes "ebp"
    ∷ codes "esp"
    ∷ codes "eip"
    ∷ codes "eflags"
    ∷ codes "dr0"
    ∷ codes "dr1"
    ∷ codes "dr2"
    ∷ codes "dr3"
    ∷ codes "dr6"
    ∷ codes "dr7"
    ∷ []

-- Each segment register has the lower 16 bits of the saved one.
unfoldable pub same_segments : (saved regs : Name → ℕ) → Bool
same_segments saved regs =
    regs (codes "cs") == saved (codes "cs") % 2 ^ 16
    && (regs (codes "ss") == saved (codes "ss") % 2 ^ 16
        && (regs (codes "ds") == saved (codes "ds") % 2 ^ 16
            && (regs (codes "es") == saved (codes "es") % 2 ^ 16
                && (regs (codes "fs") == saved (codes "fs") % 2 ^ 16
                    && (regs (codes "gs") == saved (codes "gs") % 2 ^ 16 && true)))))

low_bits : (n : ℕ) → n % 2 ^ 32 % 2 ^ 16 ≡ n % 2 ^ 16
low_bits n = omega arith

kept_lem :
    (fields regs regs' : Name → ℕ)
    → segments_kept
        (from_regs regs fields)
        (store_all (from_regs regs fields) stored_plain regs')
        checked_segments
      ≡ same_segments regs regs'
unfolding segments_kept from_regs store_all same_segments same_name set_attr
kept_lem fields regs regs' = simp low_bits

-- The registers that `from_regs` saved, eax to eflags and the debug registers, are restored by `to_regs`
-- into other registers, cut to 32 bits, and it raises `AssertionError` after that, exactly if one of the
-- six segment registers is not the saved one, cut to 16 bits.
pub to_regs-Restored :
    (fields regs regs' : Name → ℕ)
    → ((to_regs (from_regs regs fields) regs').0
        ≡ (if same_segments regs regs' then ok tt else raise assertion_error))
      × Restored regs (to_regs (from_regs regs fields) regs').1 restorable
unfolding to_regs from_regs same_name set_attr
to_regs-Restored fields regs regs' = (
  ap (λ (b : Bool). if b then ok tt else raise assertion_error) (kept_lem fields regs regs'),
  omega arith,
)
