-- ===== src/Emulator/Ready.antt =====
-- dumpulator.py: an exception that waits for its second chance has the hook and the context that `start` needs.
use dumpulator.Prelude.{◌≡◌, arith, Bool, true, false, is_some, if◌then◌else◌}
use dumpulator.Outcome.{
  Error, Result, ok, raise, Action, pure, throw, gets, reads, modify, assert, and_then, ◌>>=◌,
}
use dumpulator.Primitives.Architecture.{MemoryAccess}
use dumpulator.Registers.Access.{Cpu}
use dumpulator.Registers.Stack.{Machine}
use dumpulator.Emulator.Exceptions.{ExceptionInfo, Emulator, on_machine}
use dumpulator.Emulator.Hooks.{is_idle}

-- An exception that is reported, but not for the last time, has its hook and its context.
unfoldable pub IsReady : {cpu : Cpu} → ExceptionInfo cpu → Type 0
IsReady x =
    is_idle x ≡ false → x.final ≡ false → (is_some x.code_hook ≡ true) × (is_some x.context ≡ true)

module _ {cpu : Cpu} where
  pub final-IsReady : (x : ExceptionInfo cpu) → x.final ≡ true → IsReady x
  unfolding IsReady
  final-IsReady x final idle now = absurd (ground (arith, final, now))

  pub idle-IsReady : (x : ExceptionInfo cpu) → is_idle x ≡ true → IsReady x
  unfolding IsReady
  idle-IsReady x idle busy now = absurd (ground (arith, idle, busy))

  pub hooked-IsReady :
      (x : ExceptionInfo cpu) → is_some x.code_hook ≡ true → is_some x.context ≡ true → IsReady x
  unfolding IsReady
  hooked-IsReady x hook context idle now = (hook, context)

module _ (cpu : Cpu) (guest : MemoryAccess) where
  -- Whatever it does and whether it raises, the pending exception is ready after it if it was before.
  unfoldable pub Keeps : {A : Type 0} → Action (Emulator cpu guest) A → Type 0
  unfolding IsReady
  Keeps f = (e : Emulator cpu guest) → IsReady e.pending → IsReady (f e).1.pending

  pub throw-Keeps : (A : Type 0) (x : Error) → Keeps {A = A} (throw x)
  unfolding Keeps
  throw-Keeps A x e v = v

  module _ {A : Type 0} where
    pub pure-Keeps : (a : A) → Keeps (pure a)
    unfolding Keeps
    pure-Keeps a e v = v

    pub gets-Keeps : (f : Emulator cpu guest → A) → Keeps (gets f)
    unfolding Keeps
    gets-Keeps f e v = v

    pub reads-Keeps : (f : Emulator cpu guest → Result A) → Keeps (reads f)
    unfolding Keeps
    reads-Keeps f e v = v

    pub on_machine-Keeps : (f : Action (Machine cpu guest) A) → Keeps (on_machine f)
    unfolding Keeps on_machine
    on_machine-Keeps f e v = v

    pub if-Keeps :
        (b : Bool) (f g : Action (Emulator cpu guest) A)
        → Keeps f
        → Keeps g
        → Keeps (if b then f else g)
    if-Keeps true f g hf hg = hf
    if-Keeps false f g hf hg = hg

  pub assert-Keeps : (b : Bool) → Keeps (assert b)
  unfolding Keeps
  assert-Keeps true e v = v
  assert-Keeps false e v = v

  pub modify-Keeps :
      (f : Emulator cpu guest → Emulator cpu guest)
      → ((e : Emulator cpu guest) → IsReady e.pending → IsReady (f e).pending)
      → Keeps (modify f)
  unfolding Keeps
  modify-Keeps f h e v = h e v

  pub modify_same-Keeps :
      (f : Emulator cpu guest → Emulator cpu guest)
      → ((e : Emulator cpu guest) → (f e).pending ≡ e.pending)
      → Keeps (modify f)
  unfolding Keeps
  modify_same-Keeps f same e v = rw (same e) v

  -- What stores a ready exception
  pub store-Keeps :
      (f : Emulator cpu guest → Emulator cpu guest) (x : ExceptionInfo cpu)
      → IsReady x
      → ((e : Emulator cpu guest) → (f e).pending ≡ x)
      → Keeps (modify f)
  unfolding Keeps
  store-Keeps f x ready stored e v = rw (stored e) ready

  module _ {A B : Type 0} where
    and_then-Keeps :
        (r : Result A) (g : A → Action (Emulator cpu guest) B) (e : Emulator cpu guest)
        → ((a : A) → Keeps (g a))
        → IsReady e.pending
        → IsReady (and_then r g e).1.pending
    unfolding Keeps
    and_then-Keeps (ok a) g e h v = h a e v
    and_then-Keeps (raise x) g e h v = v

    pub bind-Keeps :
        (f : Action (Emulator cpu guest) A) (g : A → Action (Emulator cpu guest) B)
        → Keeps f
        → ((a : A) → Keeps (g a))
        → Keeps (f >>= g)
    unfolding Keeps
    bind-Keeps f g hf hg e v = and_then-Keeps (f e).0 g (f e).1 hg (hf e v)
