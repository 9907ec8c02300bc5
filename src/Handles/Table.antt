-- ===== src/Handles/Table.antt =====
-- handles.py: `HandleManager` as a table from handles to objects. The specification leaves open which handle
-- is given out, as long as it is not taken: it is told the handles that were given out, in their order.
use dumpulator.Prelude.{
  ℕ, ◌≡◌, refl, sym, ◌∙◌, ap, inl, inr, arith, Bool-cases, Option, none, some, List, [], ◌∷◌, ◌++◌,
  is_some, ◌==◌, if◌then◌else◌,
}
use mathlib.Core.List.{append_assoc, append-nil}
use dumpulator.Outcome.{Result}
use dumpulator.Handles.Manager.{
  HandleManager, lookup, store, delete, new, add, replace, valid, close, duplicate, without_tag,
}
use dumpulator.Handles.Fresh.{lookup-store, lookup-delete, is_some-none}
use dumpulator.Handles.Giving.{Gives, Duplicates, new-Gives, duplicate-Duplicates}
use dumpulator.Handles.History.{
  Request, new_object, add_object, replace_object, close_handle, duplicate_handle, given, perform,
  perform_all,
}

abbrev pub Table : Type 0 → Type 0
Table Object = ℕ → Option Object

module _ {Object : Type 0} where
  abbrev pub put : ℕ → Option Object → Table Object → Table Object
  put h o t q = if h == q then o else t q

  -- The object is stored under the next handle given out, which must not be taken.
  unfoldable pub give : Object → List ℕ → Table Object → Option (Table Object × List ℕ)
  give o [] t = none
  give o (h ∷ hs) t = if is_some (t h) then none else some (put h (some o) t, hs)

  -- One call, if the handles that are given out are allowed: the table and the handles given out after it
  unfoldable pub allowed : Request Object → List ℕ → Table Object → Option (Table Object × List ℕ)
  unfolding give
  allowed (new_object o) hs t = give o hs t
  allowed (add_object h o) hs t = some (if is_some (t h) then t else put h (some o) t, hs)
  allowed (replace_object h o) hs t =
      let key = without_tag Object h in some (if is_some (t key) then put key (some o) t else t, hs)
  allowed (close_handle h) hs t = some (put h none t, hs)
  allowed (duplicate_handle h) hs t = elim (t h) [ none ↦ some (t, hs) | some o ↦ give o hs t ]

  unfoldable pub allowed_all :
      List (Request Object) → List ℕ → Table Object → Option (Table Object × List ℕ)
  unfolding allowed
  allowed_all [] hs t = some (t, hs)
  allowed_all (r ∷ rs) hs t = elim (allowed r hs t) [
    | none ↦ none
    | some u ↦ allowed_all rs u.1 u.0
  ]

  abbrev pub table : HandleManager Object → Table Object
  table m q = lookup q m.handles

  same_table : (t t' : Table Object) → ((q : ℕ) → t' q ≡ t q) → t ≡ t'
  same_table t t' e = λ i q. (sym (e q)) i

  give-Gives :
      (o : Object) (m : HandleManager Object) (r : Result ℕ × HandleManager Object) (hs : List ℕ)
      → Gives o m r
      → give o ((given r).0 ++ hs) (table m) ≡ some (table (given r).1, hs)
  unfolding give
  give-Gives o m r hs (h, (m', (e, (unused, stored)))) =
      rw (e, unused)
        (ap (λ (t : Table Object). some (t, hs))
          (same_table (put h (some o) (table m)) (table m') stored))

  -- A call that gives out no handle, and changes the table as the specification does
  quiet :
      (t : Table Object) (m : HandleManager Object) (hs : List ℕ)
      → ((q : ℕ) → lookup q m.handles ≡ t q)
      → ◌≡◌ {A = Option (Table Object × List ℕ)} (some (t, hs)) (some (table m, hs))
  quiet t m hs e = ap (λ (t : Table Object). some (t, hs)) (same_table t (table m) e)

  duplicate-allowed :
      (k : ℕ) (m : HandleManager Object) (hs : List ℕ) (found : Option Object)
      → lookup k m.handles ≡ found
      → Duplicates k m found
      → allowed (duplicate_handle k) ((perform (duplicate_handle k) m).0 ++ hs) (table m)
        ≡ some (table (perform (duplicate_handle k) m).1, hs)
  unfolding allowed perform Duplicates
  duplicate-allowed k m hs none missing d = rw (allowed, missing, d) refl
  duplicate-allowed k m hs (some o) there d =
      rw (allowed, there) (give-Gives o m (duplicate Object k m) hs d)

  perform-allowed :
      (r : Request Object) (m : HandleManager Object) (hs : List ℕ)
      → allowed r ((perform r m).0 ++ hs) (table m) ≡ some (table (perform r m).1, hs)
  unfolding allowed perform add replace close valid
  perform-allowed (new_object o) m hs = give-Gives o m (new Object o m) hs (new-Gives o m)
  perform-allowed (add_object h o) m hs = elim (Bool-cases (is_some (lookup h m.handles))) [
    | inl e ↦ rw e refl
    | inr e ↦ rw e (
        quiet (put h (some o) (table m)) (record m { handles = store h o m.handles }) hs
          λ q. lookup-store q h o m.handles)
  ]
  perform-allowed (replace_object h o) m hs =
      let key = without_tag Object h in
      elim (Bool-cases (is_some (lookup key m.handles))) [
        | inl e ↦ rw e (
            quiet (put key (some o) (table m)) (record m { handles = store key o m.handles }) hs
              λ q. lookup-store q key o m.handles)
        | inr e ↦ rw e refl
      ]
  perform-allowed (close_handle h) m hs = elim (Bool-cases (is_some (lookup h m.handles))) [
    | inl e ↦ rw e (
        quiet (put h none (table m)) (record m { handles = delete h m.handles }) hs
          λ q. lookup-delete q h m.handles)
    | inr e ↦
        rw e (
          quiet (put h none (table m)) m hs
            λ q. ground (arith, is_some-none (lookup h m.handles) e))
  ]
  perform-allowed (duplicate_handle k) m hs =
      duplicate-allowed k m hs (lookup k m.handles) refl (duplicate-Duplicates k m)

  run-allowed :
      (rs : List (Request Object)) (m : HandleManager Object) (hs : List ℕ)
      → allowed_all rs ((perform_all rs m).0 ++ hs) (table m)
        ≡ some (table (perform_all rs m).1, hs)
  unfolding allowed_all perform_all
  run-allowed [] m hs = refl
  run-allowed (r ∷ rs) m hs =
      let m' : HandleManager Object = (perform r m).1 in
      rw (append_assoc (perform r m).0 (perform_all rs m').0 hs) (
        ap
          (λ (o : Option (Table Object × List ℕ)). elim o [
            | none ↦ none
            | some u ↦ allowed_all rs u.1 u.0
          ])
          (perform-allowed r m ((perform_all rs m').0 ++ hs))
        ∙ run-allowed rs m' hs)

  -- Over any sequence of calls on a handle manager, raising calls included, the specification allows the handles that
  -- are given out, and its table is that of the manager.
  pub perform_all-allowed :
      (rs : List (Request Object)) (m : HandleManager Object)
      → allowed_all rs (perform_all rs m).0 (table m) ≡ some (table (perform_all rs m).1, [])
  perform_all-allowed rs m = rw (sym (append-nil (perform_all rs m).0)) (run-allowed rs m [])
