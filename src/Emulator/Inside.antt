-- ===== src/Emulator/Inside.antt =====
-- dumpulator.py: the frame that `handle_exception` writes stays below the old stack pointer.
use mathlib.Core.Path.{subst}
use dumpulator.Prelude.{
  ℕ, ◌+◌, ◌^◌, ◌≤◌, ◌≡◌, refl, sym, ◌∙◌, ap, inl, inr, arith, Bool, true, false, Bool-cases, List,
  ◌++◌, replicate, length, ltb,
}
use dumpulator.Outcome.{ok, raise, Action, pure, bind_returned, ◌>>=◌}
use dumpulator.Native.Text.{Name, codes}
use dumpulator.Native.Context.{Context}
use dumpulator.Primitives.Fields.{pack, length-pack}
use dumpulator.Primitives.Architecture.{MemoryAccess, write_ulong, write_unsigned}
use dumpulator.Registers.Passing.{IsSeparate}
use dumpulator.Emulator.Frame.{
  Ctypes, Thread, context64, context32, ExceptionRecord, context_size, allocation_size,
  record_bytes, context_ex, write_stack, write_frame64, write_frame32, write_frame,
}

-- The kind of a thread's context is that of the processor, and its bytes have their size.
abbrev pub IsSized : Ctypes → (x64 : Bool) → Thread → Type 0
IsSized ctypes true (context64 c) = length (ctypes.context_bytes c) ≡ context_size true
IsSized ctypes false (context32 fields) = length (ctypes.wow64_bytes fields) ≡ context_size false
IsSized ctypes _ _ = ⊥

module _ (guest : MemoryAccess) (ctypes : Ctypes) (a n : ℕ) where
  -- When it returns, its value is `v`, and what is read at `a` is as it was.
  unfoldable Leaves : {A : Type 0} → Action guest.State A → A → Type 0
  Leaves {A = A} f v =
      (s s' : guest.State) (x : A)
      → f s ≡ (ok x, s')
      → (x ≡ v) × ((guest.read a n s').0 ≡ (guest.read a n s).0)

  pure-Leaves : {A : Type 0} (v : A) → Leaves (pure v) v
  unfolding Leaves
  pure-Leaves v s s' x e = (
    sym (ap (λ r. elim r.0 [ ok y ↦ y | raise _ ↦ v ]) e),
    ap (λ r. (guest.read a n r.1).0) (sym e),
  )

  bind-Leaves :
      {A B : Type 0} (f : Action guest.State A) (g : A → Action guest.State B) (v : A) (w : B)
      → Leaves f v
      → Leaves (g v) w
      → Leaves (f >>= g) w
  unfolding Leaves
  bind-Leaves f g v w hf hg s s'' y h =
      let (x, (s', (e₁, h₁))) = bind_returned f g s s'' y h in
      let (same, kept) = hf s s' x e₁ in
      let (result, kept') = hg s' s'' y (subst (λ z. g z s' ≡ (ok y, s'')) same h₁) in
      (result, kept' ∙ kept)

  module _ (apart : IsSeparate guest) where
    write-Leaves : (p : ℕ) (bytes : List ℕ) → p + length bytes ≤ a → Leaves (guest.write p bytes) tt
    unfolding Leaves IsSeparate
    write-Leaves p bytes below s s' tt e = (refl, apart p a n bytes s s' e (inr below))

    write_stack-Leaves :
        (p : ℕ) (bytes : List ℕ)
        → p + length bytes ≤ a
        → Leaves (write_stack guest ctypes p bytes) (p + length bytes)
    unfolding write_stack
    write_stack-Leaves p bytes below =
        bind-Leaves (guest.write p bytes) _ tt (p + length bytes) (write-Leaves p bytes below)
          (pure-Leaves (p + length bytes))

    write_ulong-Leaves : (p value : ℕ) → p + 4 ≤ a → Leaves (write_ulong guest p value) tt
    unfolding write_unsigned Leaves
    write_ulong-Leaves p value below s s' x e = elim (Bool-cases (ltb value (256 ^ 4))) [
      | inl fits ↦
          write-Leaves p (pack 4 value) (rw (length-pack 4 value) below) s s' x (rw fits at e)
      | inr large ↦ absurd (ground (arith, ap (λ r. r.0) (rw large at e)))
    ]

    write_frame64-Leaves :
        (csp : ℕ) (c : Context) (r : ExceptionRecord)
        → length (ctypes.context_bytes c) ≡ context_size true
        → csp + allocation_size true ≤ a
        → Leaves (write_frame64 guest ctypes csp c r) tt
    unfolding write_frame64 context_ex record_bytes pack
    write_frame64-Leaves csp c r sized below =
        bind-Leaves (write_stack guest ctypes csp _) _ _ tt
          (write_stack-Leaves csp _ (omega (arith, sized, below)))
          (bind-Leaves (write_stack guest ctypes _ (context_ex true)) _ _ tt
            (write_stack-Leaves _ (context_ex true) (omega (arith, sized, below)))
            (bind-Leaves (write_stack guest ctypes _ (record_bytes true r)) _ _ tt
              (write_stack-Leaves _ (record_bytes true r) (omega (arith, sized, below)))
              (bind-Leaves (write_stack guest ctypes _ (pack 8 r.address)) _ _ tt
                (write_stack-Leaves _ _ (omega (arith, sized, below)))
                (bind-Leaves (write_stack guest ctypes _ (pack 8 (c.fields (codes "Rsp")))) _ _ tt
                  (write_stack-Leaves _ _ (omega (arith, sized, below)))
                  (bind-Leaves
                    (write_stack guest ctypes _
                      (pack 8 0 ++ (pack 4 4 ++ (pack 4 8 ++ replicate 48 0))))
                    _ _ tt (write_stack-Leaves _ _ (omega (arith, sized, below)))
                    (pure-Leaves tt))))))

    write_frame32-Leaves :
        (csp : ℕ) (fields : Name → ℕ) (r : ExceptionRecord)
        → length (ctypes.wow64_bytes fields) ≡ context_size false
        → csp + allocation_size false ≤ a
        → Leaves (write_frame32 guest ctypes csp fields r) tt
    unfolding write_frame32 context_ex record_bytes pack
    write_frame32-Leaves csp fields r sized below =
        bind-Leaves (write_ulong guest csp (csp + 8)) _ tt tt
          (write_ulong-Leaves csp (csp + 8) (omega (arith, below)))
          (bind-Leaves (write_stack guest ctypes (csp + 8) (record_bytes false r)) _ _ tt
            (write_stack-Leaves (csp + 8) (record_bytes false r) (omega (arith, below)))
            (bind-Leaves (write_ulong guest (csp + 4) _) _ tt tt
              (write_ulong-Leaves (csp + 4) _ (omega (arith, below)))
              (bind-Leaves (write_stack guest ctypes _ (ctypes.wow64_bytes fields)) _ _ tt
                (write_stack-Leaves _ _ (omega (arith, sized, below)))
                (bind-Leaves (write_stack guest ctypes _ (context_ex false)) _ _ tt
                  (write_stack-Leaves _ (context_ex false) (omega (arith, sized, below)))
                  (pure-Leaves tt)))))

-- If a write does not change what is read beside it, and the bytes of the context have their size: a frame that was
-- written from `csp` on changes nothing of what is read behind the bytes that `handle_exception` allocates for it.
pub write_frame-Leaves :
    (guest : MemoryAccess) (ctypes : Ctypes) (x64 : Bool) (a n csp : ℕ) (thread : Thread)
    (r : ExceptionRecord) (s s' : guest.State)
    → IsSeparate guest
    → IsSized ctypes x64 thread
    → csp + allocation_size x64 ≤ a
    → write_frame guest ctypes csp thread r s ≡ (ok tt, s')
    → (guest.read a n s').0 ≡ (guest.read a n s).0
unfolding write_frame Leaves
write_frame-Leaves guest ctypes true a n csp (context64 c) r s s' apart sized below e =
    (write_frame64-Leaves guest ctypes a n apart csp c r sized below s s' tt e).1
write_frame-Leaves guest ctypes false a n csp (context32 fields) r s s' apart sized below e =
    (write_frame32-Leaves guest ctypes a n apart csp fields r sized below s s' tt e).1
write_frame-Leaves guest ctypes true a n csp (context32 fields) r s s' apart sized below e =
    absurd sized
write_frame-Leaves guest ctypes false a n csp (context64 c) r s s' apart sized below e =
    absurd sized
