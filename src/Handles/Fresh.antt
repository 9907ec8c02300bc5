-- ===== src/Handles/Fresh.antt =====
-- The loop of `__find_free_handle`: among one more candidates than there are handles one is free.
use dumpulator.Prelude.{
  ℕ, zero, suc, ◌+◌, ◌*◌, ◌≤◌, ◌<◌, ◌≡◌, refl, sym, ◌∙◌, ap, inl, inr, true, false, Option, none,
  some, List, [], ◌∷◌, ◌==◌, if◌then◌else◌, is_some, length, arith, Bool-cases,
}
use dumpulator.Outcome.{Result, ok}
use dumpulator.Handles.Manager.{
  Handle, HandleManager, lookup, store, delete, next_handle, search, find_free_handle,
}

abbrev pub generated : (base id : ℕ) → ℕ
generated base id = base + 4 * id

pub is_some-none {ℓ} : {A : Type ℓ} (o : Option A) → is_some o ≡ false → o ≡ none
is_some-none none e = refl
is_some-none (some a) e = absurd (ground arith)

module _ {Object : Type 0} where
  pub lookup-store :
      (q k : ℕ) (o : Object) (hs : List (Handle Object))
      → lookup q (store k o hs) ≡ (if k == q then some o else lookup q hs)
  unfolding lookup store
  lookup-store q k o [] = refl
  lookup-store q k o (h ∷ hs) = ground (arith, lookup-store q k o hs)

  pub lookup-delete :
      (q k : ℕ) (hs : List (Handle Object))
      → lookup q (delete k hs) ≡ (if k == q then none else lookup q hs)
  unfolding lookup delete
  lookup-delete q k [] = ground arith
  lookup-delete q k (h ∷ hs) = ground (arith, lookup-delete q k hs)

  length-delete_le : (k : ℕ) (hs : List (Handle Object)) → length (delete k hs) ≤ length hs
  unfolding delete
  length-delete_le k [] = omega arith
  length-delete_le k (h ∷ hs) = ground (arith, length-delete_le k hs)

  length-delete :
      (k : ℕ) (hs : List (Handle Object))
      → is_some (lookup k hs) ≡ true
      → length (delete k hs) < length hs
  unfolding lookup delete
  length-delete k [] e = absurd (ground arith)
  length-delete k (h ∷ hs) e = elim (Bool-cases (h.value == k)) [
    | inl same ↦ rw same (ground (arith, length-delete_le k hs))
    | inr other ↦ ground (arith, length-delete k hs)
  ]

  free_id :
      (base id n : ℕ) (hs : List (Handle Object))
      → length hs ≤ n
      → (i : ℕ) × ((i ≤ n) × (lookup (generated base (id + i)) hs ≡ none))
  unfolding lookup
  free_id base id zero [] h = (0, (omega arith, refl))
  free_id base id zero (x ∷ xs) h = absurd (omega arith)
  free_id base id (suc n) hs h = elim (Bool-cases (is_some (lookup (generated base id) hs))) [
    | inl taken ↦
        let (i, (le, e)) =
          free_id base (suc id) n (delete (generated base id) hs)
            (omega (arith, length-delete (generated base id) hs taken)) in
        let same : generated base (suc id + i) ≡ generated base (id + suc i) = omega arith in
        (
          suc i,
          (
            omega (arith, le),
            ground (
              arith,
              e,
              same,
              lookup-delete (generated base (suc id + i)) (generated base id) hs,
            ),
          ),
        )
    | inr unused ↦
        let here : generated base (id + 0) ≡ generated base id = omega arith in
        (0, (omega arith, rw here (is_some-none (lookup (generated base id) hs) unused)))
  ]

  -- The loop ends with a handle that is not taken, and changes none.
  unfoldable pub Finds : HandleManager Object → Result ℕ × HandleManager Object → Type 0
  Finds m r =
      (h : ℕ) × ((m' : HandleManager Object) × ((r ≡ (ok h, m'))
          × ((lookup h m.handles ≡ none) × (m'.handles ≡ m.handles))))

  module _ (fuel k : ℕ) (m m' : HandleManager Object)
      (next : next_handle Object m.free_handles m ≡ (k, m')) where
    pub search-stops : lookup k m.handles ≡ none → search Object (suc fuel) m ≡ (ok k, m')
    unfolding search
    search-stops unused = rw (next, unused) refl

    pub search-goes_on :
        is_some (lookup k m.handles) ≡ true → search Object (suc fuel) m ≡ search Object fuel m'
    unfolding search
    search-goes_on taken = rw (next, taken) refl

    search_step :
        m'.handles ≡ m.handles
        → (is_some (lookup k m.handles) ≡ true → Finds m' (search Object fuel m'))
        → Finds m (search Object (suc fuel) m)
    unfolding Finds
    search_step same rest = elim (Bool-cases (is_some (lookup k m.handles))) [
      | inl taken ↦
          let (h, (m'', (found, (unused, same')))) = rest taken in
          (
            h,
            (
              m'',
              (
                search-goes_on taken ∙ found,
                (ap (λ (hs : List (Handle Object)). lookup h hs) (sym same) ∙ unused, same' ∙ same),
              ),
            ),
          )
      | inr free ↦
          let unused : lookup k m.handles ≡ none = is_some-none (lookup k m.handles) free in
          (k, (m', (search-stops unused, (unused, same))))
    ]

  search-generated :
      (fuel i : ℕ) (m : HandleManager Object)
      → m.free_handles ≡ []
      → i < fuel
      → lookup (generated m.base_handle (m.handle_id + i)) m.handles ≡ none
      → Finds m (search Object fuel m)
  unfolding next_handle
  search-generated zero i m e lt free = absurd (omega arith)
  search-generated (suc fuel) zero m e lt free =
      let here : m.handle_id + 0 ≡ m.handle_id = omega arith in
      search_step fuel (generated m.base_handle m.handle_id) m
        (record m { handle_id = m.handle_id + 1 }) (ap (λ (ks : List ℕ). next_handle Object ks m) e)
        refl (λ taken. absurd (ground (arith, taken, here, free)))
  search-generated (suc fuel) (suc i) m e lt free =
      let later : m.handle_id + 1 + i ≡ m.handle_id + suc i = omega arith in
      search_step fuel (generated m.base_handle m.handle_id) m
        (record m { handle_id = m.handle_id + 1 }) (ap (λ (ks : List ℕ). next_handle Object ks m) e)
        refl
        (λ _.
          search-generated fuel i (record m { handle_id = m.handle_id + 1 }) e (omega arith)
            (rw later free))

  search-Finds :
      (fuel : ℕ) (m : HandleManager Object) (keys : List ℕ)
      → m.free_handles ≡ keys
      → length keys + length m.handles < fuel
      → Finds m (search Object fuel m)
  unfolding next_handle
  search-Finds zero m keys e lt = absurd (omega arith)
  search-Finds (suc fuel) m [] e lt =
      let (i, (le, free)) =
        free_id m.base_handle m.handle_id (length m.handles) m.handles (omega arith) in
      search-generated (suc fuel) i m e (omega (arith, le)) free
  search-Finds (suc fuel) m (key ∷ keys) e lt =
      search_step fuel key m (record m { free_handles = keys })
        (ap (λ (ks : List ℕ). next_handle Object ks m) e) refl
        (λ _. search-Finds fuel (record m { free_handles = keys }) keys refl (omega arith))

  pub find_free_handle-Finds : (m : HandleManager Object) → Finds m (find_free_handle Object m)
  unfolding find_free_handle
  find_free_handle-Finds m =
      search-Finds (suc (length m.free_handles + length m.handles)) m m.free_handles refl
        (omega arith)
