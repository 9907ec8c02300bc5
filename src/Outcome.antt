-- ===== src/Outcome.antt =====
-- Statements that change a state and may raise. The state outlives an exception.
use mathlib.Core.Path.{subst}
use dumpulator.Prelude.{Bool, true, false, Option, none, some, ◌≡◌, ◌∙◌, ap, refl, arith}

-- The exceptions that the modelled code raises, and the end of a loop's fuel, which is not one of them.
pub data Error : Type 0 where
  assertion_error key_error index_error type_error not_implemented uc_error struct_error value_error
        exception attribute_error out_of_fuel :
      Error

pub data Result {ℓ} (A : Type ℓ) : Type ℓ where
  ok : A → Result A
  raise : Error → Result A

abbrev pub Action : Type 0 → Type 0 → Type 0
Action S A = S → Result A × S

module _ {S A : Type 0} where
  abbrev pub pure : A → Action S A
  pure a s = (ok a, s)

  abbrev pub throw : Error → Action S A
  throw e s = (raise e, s)

  abbrev pub gets : (S → A) → Action S A
  gets f s = (ok (f s), s)

  -- a computation that only reads the state
  abbrev pub reads : (S → Result A) → Action S A
  reads f s = (f s, s)

module _ {S : Type 0} where
  abbrev pub modify : (S → S) → Action S (Unit {0})
  modify f s = (ok tt, f s)

  -- `assert b`
  abbrev pub assert : Bool → Action S (Unit {0})
  assert true s = (ok tt, s)
  assert false s = (raise assertion_error, s)

  -- `if b: raise e`
  abbrev pub raise_if : Bool → Error → Action S (Unit {0})
  raise_if true e s = (raise e, s)
  raise_if false e s = (ok tt, s)

module _ {S A B : Type 0} where
  abbrev pub and_then : Result A → (A → Action S B) → Action S B
  and_then (ok a) f = f a
  and_then (raise e) f = throw e

  infixl 5 ◌>>=◌ ◌>>◌
  abbrev pub ◌>>=◌ : Action S A → (A → Action S B) → Action S B
  m >>= f = λ s. and_then (m s).0 f (m s).1

  abbrev pub ◌>>◌ : Action S A → Action S B → Action S B
  m >> n = m >>= λ _. n

-- A step that returns goes on with its value.
pub bind_ok :
    {S A B : Type 0} (f : Action S A) (g : A → Action S B) (s s' : S) (a : A)
    → f s ≡ (ok a, s')
    → (f >>= g) s ≡ g a s'
bind_ok f g s s' a e = ap (λ r. and_then r.0 g r.1) e

-- Steps that return: the first returned.
pub bind_returned :
    {S A B : Type 0} (f : Action S A) (g : A → Action S B) (s s'' : S) (b : B)
    → (f >>= g) s ≡ (ok b, s'')
    → (a : A) × ((s' : S) × ((f s ≡ (ok a, s')) × (g a s' ≡ (ok b, s''))))
bind_returned {S = S} {A = A} {B = B} f g s s'' b h = first (f s).0 refl h
  where
    first :
        (r : Result A)
        → (f s).0 ≡ r
        → and_then r g (f s).1 ≡ (ok b, s'')
        → (a : A) × ((s' : S) × ((f s ≡ (ok a, s')) × (g a s' ≡ (ok b, s''))))
    first (ok a) e k = (a, ((f s).1, (ap (λ r. (r, (f s).1)) e, k)))
    first (raise x) e k =
        absurd (subst (λ r. elim r [ ok _ ↦ ⊥ | raise _ ↦ Unit {0} ]) (ap (λ p. p.0) k) tt)

-- The outcome is a value that satisfies `P`.
abbrev pub Returns {ℓ} : {A : Type ℓ} → Result A → (A → Type 0) → Type 0
Returns (ok a) P = P a
Returns (raise e) P = ⊥

pub Returns-map {ℓ} :
    {A : Type ℓ} (P Q : A → Type 0) (r : Result A)
    → ((a : A) → P a → Q a)
    → Returns r P
    → Returns r Q
Returns-map P Q (ok a) f p = f a p
Returns-map P Q (raise e) f p = absurd p

-- The exception `e`, where there is one, with the state `m` as it was.
abbrev pub Raised : {S A : Type 0} → Option Error → S → Result A × S → Type 0
Raised none m r = Unit
Raised (some e) m r = r ≡ (raise e, m)

pub raising_error :
    {S A : Type 0} (o : Option Error) (e : Error) (m : S) (r : Result A × S)
    → o ≡ some e
    → Raised o m r
    → r ≡ (raise e, m)
raising_error none e m r h raised = absurd (ground arith)
raising_error (some e') e m r h raised =
    raised ∙ ap (λ (o : Option Error). (raise (elim o [ none ↦ e' | some x ↦ x ]), m)) h
