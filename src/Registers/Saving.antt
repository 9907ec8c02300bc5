-- ===== src/Registers/Saving.antt =====
-- `save` and `load` of `Registers`.
use dumpulator.Prelude.{
  ℕ, ◌≡◌, refl, sym, ◌∙◌, ap, Bool, true, Bool-cases, inl, inr, List, [], ◌∷◌, ◌==◌, if◌then◌else◌,
  map, arith,
}
use dumpulator.Outcome.{Result, ok, raise, bind_ok}
use dumpulator.Native.Text.{Name, same_name, same_name_refl}
use dumpulator.Registers.Names.{Entry, entry, find_name, regmap, is_member}
use dumpulator.Registers.Access.{
  Cpu, resolve_reg, read_reg, get_attr, set_attr, save, load, default_saved,
}

pub same_name-eq : (a b : Name) → same_name a b ≡ true → a ≡ b
unfolding same_name
same_name-eq [] [] h = refl
same_name-eq [] (y ∷ ys) h = absurd (ground (arith, h))
same_name-eq (x ∷ xs) [] h = absurd (ground (arith, h))
same_name-eq (x ∷ xs) (y ∷ ys) h = elim (Bool-cases (x == y)) [
  | inr differ ↦ absurd (ground (arith, rw differ at h))
  | inl same ↦
      let rest : same_name xs ys ≡ true = rw same at h in
      let head : x ≡ y = ground (arith, same) in
      ap (λ n. n ∷ xs) head ∙ ap (λ ns. y ∷ ns) (same_name-eq xs ys rest)
]

pub ok-inj : {A : Type 0} {a b : A} → ok a ≡ ok b → a ≡ b
ok-inj {a = a} e = ap (λ r. elim r [ ok x ↦ x | raise _ ↦ a ]) e

first_member : (n : Name) (ns : List Name) → is_member (n ∷ ns) n ≡ true
unfolding is_member
first_member n ns = rw (same_name_refl n) refl

later_member :
    (n : Name) (ns : List Name) (b : Name) → is_member ns b ≡ true → is_member (n ∷ ns) b ≡ true
unfolding is_member
later_member n ns b h = elim (Bool-cases (same_name n b)) [ inl e ↦ rw e refl | inr e ↦ rw e h ]

module _ (cpu : Cpu) (x64 old : Bool) where
  open cpu use {State}

  save-cons :
      (n : Name) (ns : List Name) (s : State) (es : List Entry)
      → save cpu x64 old (n ∷ ns) s ≡ ok es
      → (v : ℕ) × ((rest : List Entry) × ((get_attr cpu x64 old n s ≡ ok v)
            × ((save cpu x64 old ns s ≡ ok rest) × (es ≡ entry n v ∷ rest))))
  unfolding save
  save-cons n ns s es saved =
      parts (get_attr cpu x64 old n s) (save cpu x64 old ns s) refl refl saved
    where
      parts :
          (r : Result ℕ) (q : Result (List Entry))
          → get_attr cpu x64 old n s ≡ r
          → save cpu x64 old ns s ≡ q
          → elim r [
            | raise e ↦ raise e
            | ok value ↦ elim q [ raise e ↦ raise e | ok es ↦ ok (entry n value ∷ es) ]
          ]
            ≡ ok es
          → (v : ℕ) × ((rest : List Entry) × ((get_attr cpu x64 old n s ≡ ok v)
                × ((save cpu x64 old ns s ≡ ok rest) × (es ≡ entry n v ∷ rest))))
      parts (ok v) (ok rest) e₁ e₂ h = (v, (rest, (e₁, (e₂, sym (ok-inj h)))))
      parts (ok v) (raise e) e₁ e₂ h = absurd (ground (arith, h))
      parts (raise e) q e₁ e₂ h = absurd (ground (arith, h))

  no_entries : (s : State) (es : List Entry) → save cpu x64 old [] s ≡ ok es → es ≡ []
  unfolding save
  no_entries s es e = sym (ok-inj e)

  -- Among these registers, one that is set to what it was in `s` then has that value, and the others
  -- keep theirs.
  unfoldable pub AreApart : List Name → State → Type 0
  AreApart names s =
      (a b : Name) (v : ℕ) (t : State)
      → is_member names a ≡ true
      → is_member names b ≡ true
      → get_attr cpu x64 old a s ≡ ok v
      → ((set_attr cpu x64 old a v t).0 ≡ ok tt)
        × (get_attr cpu x64 old b (set_attr cpu x64 old a v t).1
            ≡ (if same_name a b then ok v else get_attr cpu x64 old b t))

  module _ (all : List Name) (s : State) (apart : AreApart all s) where
    -- What `load` of the registers saved in `s` leaves in each of them.
    abbrev Loads : List Name → List Entry → State → Type 0
    Loads names es t =
        ((load cpu x64 old es t).0 ≡ ok tt)
        × ((b : Name)
            → is_member all b ≡ true
            → get_attr cpu x64 old b (load cpu x64 old es t).1
              ≡ (if is_member names b then get_attr cpu x64 old b s else get_attr cpu x64 old b t))

    loads_lem :
        (names : List Name) (es : List Entry) (t : State)
        → ((b : Name) → is_member names b ≡ true → is_member all b ≡ true)
        → save cpu x64 old names s ≡ ok es
        → Loads names es t
    unfolding load is_member AreApart
    loads_lem [] es t within saved = rw (no_entries s es saved) (refl, λ b h. refl)
    loads_lem (n ∷ ns) es t within saved =
        let (v, (rest, (e₁, (e₂, e₃)))) = save-cons n ns s es saved in
        let t' = (set_attr cpu x64 old n v t).1 in
        let here : is_member all n ≡ true = within n (first_member n ns) in
        let (fine, kept) = loads_lem ns rest t' (λ b h. within b (later_member n ns b h)) e₂ in
        let set : set_attr cpu x64 old n v t ≡ (ok tt, t') =
          ap (λ (r : Result (Unit {0})). (r, t')) (apart n n v t here here e₁).0 in
        let whole : load cpu x64 old (entry n v ∷ rest) t ≡ load cpu x64 old rest t' =
          bind_ok (set_attr cpu x64 old n v) (λ u. load cpu x64 old rest) t t' tt set in
        rw (e₃, whole)
          (
            fine,
            λ b h. kept b h ∙ elim (Bool-cases (is_member ns b)) [
              | inl later ↦ elim (Bool-cases (same_name n b)) [
                | inl same ↦ rw (later, same) refl
                | inr other ↦ rw (later, other) refl
              ]
              | inr not_later ↦ elim (Bool-cases (same_name n b)) [
                | inl same ↦
                    rw (not_later, same)
                      ((apart n b v t here h e₁).1
                        ∙ rw same
                            (sym e₁ ∙ ap (λ k. get_attr cpu x64 old k s) (same_name-eq n b same)))
                | inr other ↦ rw (not_later, other) ((apart n b v t here h e₁).1 ∙ rw other refl)
              ]
            ],
          )

  -- If the registers can be set apart: after `load` of what `save` returned for them in some state, in
  -- another state, `load` has not raised and each of the registers has the value that it had in the first.
  pub load-save :
      (names : List Name) (es : List Entry) (b : Name) (s t : State)
      → AreApart names s
      → save cpu x64 old names s ≡ ok es
      → is_member names b ≡ true
      → ((load cpu x64 old es t).0 ≡ ok tt)
        × (get_attr cpu x64 old b (load cpu x64 old es t).1 ≡ get_attr cpu x64 old b s)
  load-save names es b s t apart saved member =
      let (fine, kept) = loads_lem names s apart names es t (λ b h. h) saved in
      (fine, kept b member ∙ rw member refl)

  -- `save` of the registers that it takes if none are given does not raise, for both widths and every
  -- version of unicorn: it returns one value for each.
  pub save-default_saved :
      (s : State)
      → (es : List Entry) × ((save cpu x64 old (default_saved x64) s ≡ ok es)
          × (map (λ (e : Entry). e.name) es ≡ default_saved x64))
  unfolding save get_attr read_reg resolve_reg regmap find_name same_name
  save-default_saved s = elim (Bool-cases x64) [
    | inl e ↦ elim (Bool-cases old) [
      | inl f ↦ rw (e, f) (_, (refl, refl))
      | inr f ↦ rw (e, f) (_, (refl, refl))
    ]
    | inr e ↦ elim (Bool-cases old) [
      | inl f ↦ rw (e, f) (_, (refl, refl))
      | inr f ↦ rw (e, f) (_, (refl, refl))
    ]
  ]
