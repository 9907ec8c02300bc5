-- ===== src/Handles/Giving.antt =====
-- What `new`, `duplicate` and `close` of `HandleManager` do to the handles.
use dumpulator.Prelude.{
  ℕ, ◌≡◌, refl, ◌∙◌, ap, true, Option, none, some, List, ◌==◌, if◌then◌else◌, arith,
}
use dumpulator.Outcome.{assertion_error, Result, ok, raise}
use dumpulator.Handles.Manager.{
  Handle, HandleManager, lookup, store, delete, find_free_handle, new, valid, close, object_at,
  duplicate,
}
use dumpulator.Handles.Fresh.{Finds, find_free_handle-Finds, lookup-store, lookup-delete}

module _ {Object : Type 0} where
  -- A handle that was not taken is returned, and stands for `o`; every other handle is as it was.
  abbrev pub Gives : Object → HandleManager Object → Result ℕ × HandleManager Object → Type 0
  Gives o m r =
      (h : ℕ) × ((m' : HandleManager Object) × ((r ≡ (ok h, m'))
          × ((lookup h m.handles ≡ none)
              × ((q : ℕ) → lookup q m'.handles ≡ (if h == q then some o else lookup q m.handles)))))

  abbrev stored : Object → ℕ → HandleManager Object → HandleManager Object
  stored o h m = record m { handles = store h o m.handles }

  store-Gives :
      (o : Object) (m m' : HandleManager Object) (h : ℕ)
      → m'.handles ≡ m.handles
      → (q : ℕ) → lookup q (stored o h m').handles ≡ (if h == q then some o else lookup q m.handles)
  store-Gives o m m' h same q =
      lookup-store q h o m'.handles
      ∙ ap (λ (hs : List (Handle Object)). if h == q then some o else lookup q hs) same

  new_found :
      (o : Object) (m m' : HandleManager Object) (h : ℕ)
      → find_free_handle Object m ≡ (ok h, m')
      → new Object o m ≡ (ok h, stored o h m')
  unfolding new
  new_found o m m' h found = rw found refl

  -- `new` returns, on every manager, with a handle that was not taken and now stands for the object;
  -- every other handle is as it was.
  pub new-Gives : (o : Object) (m : HandleManager Object) → Gives o m (new Object o m)
  unfolding Finds
  new-Gives o m =
      let (h, (m', (found, (unused, same)))) = find_free_handle-Finds m in
      (h, (stored o h m', (new_found o m m' h found, (unused, store-Gives o m m' h same))))

  object_there :
      (o : Object) (m : HandleManager Object) (k : ℕ)
      → lookup k m.handles ≡ some o
      → object_at Object k m ≡ ok o
  unfolding object_at
  object_there o m k e = rw (e, object_at) refl

  object_missing :
      (m : HandleManager Object) (k : ℕ)
      → lookup k m.handles ≡ none
      → object_at Object k m ≡ raise assertion_error
  unfolding object_at
  object_missing m k e = rw (e, object_at) refl

  duplicate_found :
      (o : Object) (m m' : HandleManager Object) (k h : ℕ)
      → lookup k m.handles ≡ some o
      → find_free_handle Object m ≡ (ok h, m')
      → duplicate Object k m ≡ (ok h, stored o h m')
  unfolding duplicate
  duplicate_found o m m' k h there found = rw (object_there o m k there, found) refl

  -- What `duplicate` of a handle does, by the object that the handle stands for.
  unfoldable pub Duplicates : ℕ → HandleManager Object → Option Object → Type 0
  Duplicates k m (some o) = Gives o m (duplicate Object k m)
  Duplicates k m none = duplicate Object k m ≡ (raise assertion_error, m)

  duplicate_by :
      (k : ℕ) (m : HandleManager Object) (found : Option Object)
      → lookup k m.handles ≡ found
      → Duplicates k m found
  unfolding Finds duplicate Duplicates
  duplicate_by k m (some o) there =
      let (h, (m', (found, (unused, same)))) = find_free_handle-Finds m in
      (
        h,
        (
          stored o h m',
          (duplicate_found o m m' k h there found, (unused, store-Gives o m m' h same)),
        ),
      )
  duplicate_by k m none missing = rw (object_missing m k missing) refl

  -- `duplicate` of a handle that is taken gives a new handle for the same object; of any other it
  -- raises `AssertionError` and changes nothing.
  pub duplicate-Duplicates :
      (k : ℕ) (m : HandleManager Object) → Duplicates k m (lookup k m.handles)
  duplicate-Duplicates k m = duplicate_by k m (lookup k m.handles) refl

  close_taken :
      (h : ℕ) (m : HandleManager Object)
      → valid Object h m ≡ true
      → close Object h m ≡ (true, record m { handles = delete h m.handles })
  unfolding close
  close_taken h m e = rw e refl

  close_given :
      (o : Object) (m m' : HandleManager Object) (h : ℕ)
      → lookup h m.handles ≡ none
      → ((q : ℕ) → lookup q m'.handles ≡ (if h == q then some o else lookup q m.handles))
      → ((close Object h m').0 ≡ true)
        × ((q : ℕ) → lookup q (close Object h m').1.handles ≡ lookup q m.handles)
  unfolding valid
  close_given o m m' h unused given =
      let taken : valid Object h m' ≡ true = ground (arith, given h) in
      rw (close_taken h m' taken)
        (refl, λ q. ground (arith, lookup-delete q h m'.handles, given q, unused))

  -- `close` of the handle that `new` returned succeeds, and then every handle is as it was before `new`.
  pub close-new :
      (o : Object) (m : HandleManager Object)
      → (h : ℕ) × ((m' : HandleManager Object) × ((new Object o m ≡ (ok h, m'))
            × (((close Object h m').0 ≡ true)
                × ((q : ℕ) → lookup q (close Object h m').1.handles ≡ lookup q m.handles))))
  close-new o m =
      let (h, (m', (returned, (unused, given)))) = new-Gives o m in
      (h, (m', (returned, close_given o m m' h unused given)))
