-- ===== src/Handles/History.antt =====
-- Sequences of calls of `HandleManager`, from a new one on.
use dumpulator.Prelude.{
  ℕ, zero, suc, ◌+◌, ◌*◌, ◌/◌, ◌%◌, ◌≤◌, ◌<◌, ◌≡◌, refl, ap, inl, inr, none, some, List, [], ◌∷◌,
  ◌++◌, is_some, length, arith, Bool-cases,
}
use mathlib.Core.Path.{subst}
use dumpulator.Outcome.{Result, ok, raise, and_then, pure, modify, ◌>>=◌, ◌>>◌}
use dumpulator.Handles.Manager.{
  HandleManager, new_handles, lookup, store, delete, next_handle, search, find_free_handle, new,
  add, get, replace, valid, close, object_at, duplicate, without_tag,
}
use dumpulator.Handles.Fresh.{search-stops, search-goes_on, is_some-none}
use dumpulator.Handles.Giving.{new-Gives}

pub data Request (Object : Type 0) : Type 0 where
  new_object : Object → Request Object
  add_object : ℕ → Object → Request Object
  replace_object : ℕ → Object → Request Object
  close_handle : ℕ → Request Object
  duplicate_handle : ℕ → Request Object

-- Multiples of 4 in ascending order, from `low` on and below `high`.
unfoldable pub Ascends : (low high : ℕ) → List ℕ → Type 0
Ascends low high [] = low ≤ high
Ascends low high (h ∷ hs) = (low ≤ h) × ((h % 4 ≡ 0) × Ascends (h + 4) high hs)

Ascends-lower :
    (low low' high : ℕ) (hs : List ℕ) → low ≤ low' → Ascends low' high hs → Ascends low high hs
unfolding Ascends
Ascends-lower low low' high [] le a = omega (arith, le, a)
Ascends-lower low low' high (h ∷ hs) le (b, a) = (omega (arith, le, b), a)

Ascends-append :
    (low mid high : ℕ) (hs hs' : List ℕ)
    → Ascends low mid hs
    → Ascends mid high hs'
    → Ascends low high (hs ++ hs')
unfolding Ascends
Ascends-append low mid high [] hs' a b = Ascends-lower low mid high hs' a b
Ascends-append low mid high (h ∷ hs) hs' (le, (e, a)) b =
    (le, (e, Ascends-append (h + 4) mid high hs hs' a b))

module _ {Object : Type 0} where
  abbrev pub given : Result ℕ × HandleManager Object → List ℕ × HandleManager Object
  given (ok h, m) = (h ∷ [], m)
  given (raise e, m) = ([], m)

  -- One call, and the handle that it gives out; an exception is caught by the caller.
  unfoldable pub perform : Request Object → HandleManager Object → List ℕ × HandleManager Object
  perform (new_object o) m = given (new Object o m)
  perform (add_object h o) m = ([], (add Object h o m).1)
  perform (replace_object h o) m = ([], (replace Object h o m).1)
  perform (close_handle h) m = ([], (close Object h m).1)
  perform (duplicate_handle h) m = given (duplicate Object h m)

  unfoldable pub perform_all :
      List (Request Object) → HandleManager Object → List ℕ × HandleManager Object
  unfolding perform
  perform_all [] m = ([], m)
  perform_all (r ∷ rs) m =
      let (hs, m') = perform r m in let (hs', m'') = perform_all rs m' in (hs ++ hs', m'')

  -- No handle is free again, and the handles to come are multiples of 4.
  abbrev pub IsFresh : HandleManager Object → Type 0
  IsFresh m = (m.free_handles ≡ []) × (m.base_handle % 4 ≡ 0)

  -- The next handle to be generated.
  abbrev pub next : HandleManager Object → ℕ
  next m = m.base_handle + 4 * m.handle_id

  abbrev GoesOn : HandleManager Object → List ℕ × HandleManager Object → Type 0
  GoesOn m r = IsFresh r.1 × Ascends (next m) (next r.1) r.0

  search-GoesOn :
      (fuel : ℕ) (m : HandleManager Object) → IsFresh m → GoesOn m (given (search Object fuel m))
  unfolding search next_handle Ascends
  search-GoesOn zero m fresh = (fresh, omega arith)
  search-GoesOn (suc fuel) m (free, aligned) =
      let m' : HandleManager Object = record m { handle_id = m.handle_id + 1 } in
      let taken_next : next_handle Object m.free_handles m ≡ (next m, m') =
        ap (λ (ks : List ℕ). next_handle Object ks m) free in
      elim (Bool-cases (is_some (lookup (next m) m.handles))) [
        | inl taken ↦
            let (fresh, a) = search-GoesOn fuel m' (free, aligned) in
            rw (search-goes_on fuel (next m) m m' taken_next taken)
              (fresh, Ascends-lower (next m) (next m') _ _ (omega arith) a)
        | inr unused ↦
            rw
              (search-stops fuel (next m) m m' taken_next
                (is_some-none (lookup (next m) m.handles) unused))
              ((free, aligned), (omega arith, (omega (arith, aligned), omega arith)))
      ]

  find_free_handle-GoesOn :
      (m : HandleManager Object) → IsFresh m → GoesOn m (given (find_free_handle Object m))
  unfolding find_free_handle
  find_free_handle-GoesOn m fresh =
      search-GoesOn (suc (length m.free_handles + length m.handles)) m fresh

  -- To store an object under the handle that was found gives out no other.
  store-GoesOn :
      (o : Object) (m : HandleManager Object) (r : Result ℕ × HandleManager Object)
      → GoesOn m (given r)
      → GoesOn m (
          given (
            and_then r.0
              (λ h. modify (λ m'. record m' { handles = store h o m'.handles }) >> pure h)
              r.1))
  store-GoesOn o m (ok h, m') goes = goes
  store-GoesOn o m (raise e, m') goes = goes

  new-GoesOn :
      (o : Object) (m : HandleManager Object) → IsFresh m → GoesOn m (given (new Object o m))
  unfolding new
  new-GoesOn o m fresh =
      store-GoesOn o m (find_free_handle Object m) (find_free_handle-GoesOn m fresh)

  none_given : (m m' : HandleManager Object) → IsFresh m' → next m ≡ next m' → GoesOn m ([], m')
  unfolding Ascends
  none_given m m' fresh e = (fresh, omega (arith, e))

  duplicate-GoesOn :
      (k : ℕ) (m : HandleManager Object) → IsFresh m → GoesOn m (given (duplicate Object k m))
  unfolding duplicate
  duplicate-GoesOn k m fresh = duplicated (object_at Object k m)
    where
      duplicated :
          (r : Result Object)
          → GoesOn m (
              given (
                and_then r
                  (λ o. find_free_handle Object >>= λ h.
                    modify (λ m'. record m' { handles = store h o m'.handles }) >> pure h)
                  m))
      duplicated (ok o) =
          store-GoesOn o m (find_free_handle Object m) (find_free_handle-GoesOn m fresh)
      duplicated (raise e) = none_given m m fresh refl

  perform-GoesOn :
      (r : Request Object) (m : HandleManager Object) → IsFresh m → GoesOn m (perform r m)
  unfolding perform add replace close
  perform-GoesOn (new_object o) m fresh = new-GoesOn o m fresh
  perform-GoesOn (duplicate_handle h) m fresh = duplicate-GoesOn h m fresh
  perform-GoesOn (add_object h o) m fresh = elim (Bool-cases (is_some (lookup h m.handles))) [
    | inl e ↦ rw e (none_given m m fresh refl)
    | inr e ↦ rw e (none_given m (record m { handles = store h o m.handles }) fresh refl)
  ]
  perform-GoesOn (replace_object h o) m fresh =
      elim (Bool-cases (is_some (lookup (without_tag Object h) m.handles))) [
        | inl e ↦ rw e (
            none_given m (record m { handles = store (without_tag Object h) o m.handles }) fresh
              refl)
        | inr e ↦ rw e (none_given m m fresh refl)
      ]
  perform-GoesOn (close_handle h) m fresh = elim (Bool-cases (valid Object h m)) [
    | inl e ↦ rw e (none_given m (record m { handles = delete h m.handles }) fresh refl)
    | inr e ↦ rw e (none_given m m fresh refl)
  ]

  perform_all-GoesOn :
      (rs : List (Request Object)) (m : HandleManager Object)
      → IsFresh m
      → GoesOn m (perform_all rs m)
  unfolding perform_all
  perform_all-GoesOn [] m fresh = none_given m m fresh refl
  perform_all-GoesOn (r ∷ rs) m fresh =
      let (fresh', a) = perform-GoesOn r m fresh in
      let (fresh'', b) = perform_all-GoesOn rs (perform r m).1 fresh' in
      (fresh'', Ascends-append (next m) (next (perform r m).1) _ (perform r m).0 _ a b)

  -- The handles that a new manager gives out over any sequence of calls are multiples of 4 in strictly
  -- ascending order from 0x100 on, whatever handles are added or closed between: none is given out twice.
  pub handles_ascend :
      (rs : List (Request Object))
      → Ascends 0x100
          (next (perform_all rs (new_handles Object)).1)
          (perform_all rs (new_handles Object)).0
  handles_ascend rs = (perform_all-GoesOn rs (new_handles Object) (refl, refl)).1

  given_aligned : (m m' : HandleManager Object) (h : ℕ) → GoesOn m (given (ok h, m')) → h % 4 ≡ 0
  unfolding Ascends
  given_aligned m m' h (_, (_, (e, _))) = e

  get_stored :
      (o : Object) (m : HandleManager Object) (h tag : ℕ)
      → h % 4 ≡ 0
      → tag < 4
      → lookup h m.handles ≡ some o
      → get Object (h + tag) none m ≡ ok (some o)
  unfolding get
  get_stored o m h tag aligned small there =
      let same : (h + tag) / 4 * 4 ≡ h = omega (arith, aligned, small) in rw (same, there, get) refl

  -- After any sequence of calls on a new manager, `new` returns a handle for which `get` finds the
  -- object, also with any of the two low bits set.
  pub get-new :
      (rs : List (Request Object)) (o : Object) (tag : ℕ)
      → tag < 4
      → (h : ℕ) × ((m' : HandleManager Object) × ((new Object o
                (perform_all rs (new_handles Object)).1
              ≡ (ok h, m'))
            × (get Object (h + tag) none m' ≡ ok (some o))))
  get-new rs o tag small =
      let m : HandleManager Object = (perform_all rs (new_handles Object)).1 in
      let (h, (m', (returned, (_, given_at)))) = new-Gives o m in
      let fresh : IsFresh m = (perform_all-GoesOn rs (new_handles Object) (refl, refl)).0 in
      let aligned : h % 4 ≡ 0 = given_aligned m m' h (
        subst (λ (r : Result ℕ × HandleManager Object). GoesOn m (given r)) returned
          (new-GoesOn o m fresh)) in
      let there : lookup h m'.handles ≡ some o = ground (arith, given_at h) in
      (h, (m', (returned, get_stored o m' h tag aligned small there)))
