-- ===== src/Memory/Decommitting.antt =====
-- `_decommit_region`, `decommit` and `protect`: what they do, on every branch.
use dumpulator.Prelude.{
  ℕ, ◌%◌, ◌≡◌, refl, sym, ◌∙◌, ap, is_some, Option, Bool-cases, true, false, none, some, arith, inl,
  inr, if◌then◌else◌, Option-cases,
}
use dumpulator.Outcome.{
  and_then, modify, pure, ◌>>◌, Result, ok, raise, assertion_error, key_error, Returns,
}
use dumpulator.Memory.Protect.{page_size}
use dumpulator.Memory.Region.{MemoryRegion, page_count, pages, contains}
use dumpulator.Memory.Count.{in_range}
use dumpulator.Memory.Manager.{MemoryManager}
use dumpulator.Memory.Layout.{lookup_region}
use dumpulator.Memory.Commit.{
  Ledger, open_ledger, set_count, close_ledger, decommit_loop, is_page_range, decommit_region,
  decommit,
}
use dumpulator.Memory.Decommit.{Decommitted, decommit_loop-Decommitted}
use dumpulator.Memory.Valid.{
  IsValid, Homed, parent-IsFound, parent_homed, close_ledger-IsValid, type_of, type_of-set_count,
}
use dumpulator.Memory.Range.{is_page_range_lem, find_parent-none, find_parent-some, parent_range}

-- `decommit` returned, the state after it is valid, and exactly the pages of the range are gone.
abbrev pub Decommits :
    (m : MemoryManager) (start size : ℕ) → Result (Unit {0}) × MemoryManager → Type 0
Decommits m start size (result, m') =
    (result ≡ ok tt)
    × IsValid m'
    × ((q : ℕ)
        → m'.committed q ≡ (if in_range q start (page_count size) then none else m.committed q))

-- The result of `_decommit_region` and the state after it, for the ledger that its loop ends with.
abbrev pub region_outcome :
    MemoryManager → MemoryRegion → Ledger → Result MemoryRegion × MemoryManager
region_outcome m r l = (ok (record r { commit_count = l.commit_count }), close_ledger r.start l m)

module _ (m : MemoryManager) (v : IsValid m) (at n : ℕ) (r : MemoryRegion)
    (found : lookup_region m.regions at n ≡ some r) (start size : ℕ)
    (aligned : start % page_size ≡ 0)
    (within : (q : ℕ)
      → in_range q start (page_count size) ≡ true
      → in_range q r.start (page_count r.size) ≡ true) where
  abbrev pub ClearedLedger : Ledger → Type 0
  ClearedLedger l =
      Decommitted r.start (page_count r.size) start (page_count size) (open_ledger m r) l

  looped : Returns (decommit_loop (pages start size) none 0 (open_ledger m r)) ClearedLedger
  unfolding pages
  looped =
      decommit_loop-Decommitted r.start (page_count r.size) (page_count size) start
        (open_ledger m r) aligned within
        (record { synced = v.synced; counted = (parent-IsFound m v at n r found).counted })

  homed :
      (l : Ledger)
      → ClearedLedger l
      → (q : ℕ) → in_range q r.start (page_count r.size) ≡ true
      → Homed q (l.committed q) (some r.type)
  homed l (s, effect) q e = rw (effect q) (elim (Bool-cases (in_range q start (page_count size))) [
    | inl i ↦ rw i tt
    | inr o ↦ rw o (parent_homed m v at n r found q e)
  ])

  pub cleared-IsValid : (l : Ledger) → ClearedLedger l → IsValid (close_ledger r.start l m)
  cleared-IsValid l (s, effect) =
      close_ledger-IsValid m v at n r found l s (λ q e. ground (arith, effect q, within q))
        (homed l (s, effect))

  abbrev pub Ends : Result MemoryRegion × MemoryManager → Type 0
  Ends o = (l : Ledger) × ClearedLedger l × (o ≡ region_outcome m r l)

  finished :
      (result : Result Ledger)
      → Returns result ClearedLedger
      → Ends (
          and_then {S = MemoryManager} result
            (λ l.
              modify (close_ledger r.start l) >> pure (record r { commit_count = l.commit_count }))
            m)
  finished (raise e) c = absurd c
  finished (ok l) c = (l, c, refl)

  -- `_decommit_region` of pages inside the parent region raises nothing.
  pub decommit_region_inside : contains r start size ≡ true → Ends (decommit_region r start size m)
  unfolding decommit_region
  decommit_region_inside h = rw h (finished _ looped)

-- On a valid manager `decommit` of whole pages inside a region `r` succeeds and leaves a valid manager,
-- in which exactly the pages of the range are not committed any more.
pub decommit_inside :
    (m : MemoryManager) (start size : ℕ) (r : MemoryRegion)
    → IsValid m
    → lookup_region m.regions start size ≡ some r
    → is_page_range start size ≡ true
    → Decommits m start size (decommit start size m)
unfolding decommit
decommit_inside m start size r v found whole =
    let aligned = (is_page_range_lem start size whole).1 in
    let within = λ (q : ℕ). parent_range m v start size r found q whole in
    let (l, c, e) =
      decommit_region_inside m v start size r found start size aligned within
        (parent-IsFound m v start size r found).inside in
    rw (whole, find_parent-some m v start size r found, e)
      (
        refl,
        cleared-IsValid m v start size r found start size aligned within l c,
        unfold close_ledger in c.1,
      )

is_some-type_of : (o : Option MemoryRegion) → is_some (type_of o) ≡ is_some o
is_some-type_of none = refl
is_some-type_of (some r) = refl

-- It changes the number of pages of the region, and no address of any region.
pub decommit-regions :
    (m : MemoryManager) (start size : ℕ) (r : MemoryRegion)
    → IsValid m
    → lookup_region m.regions start size ≡ some r
    → is_page_range start size ≡ true
    → (q : ℕ)
    → is_some (lookup_region (decommit start size m).1.regions q 0)
      ≡ is_some (lookup_region m.regions q 0)
unfolding decommit close_ledger
decommit-regions m start size r v found whole q =
    let aligned = (is_page_range_lem start size whole).1 in
    let within = λ (q : ℕ). parent_range m v start size r found q whole in
    let (l, c, e) =
      decommit_region_inside m v start size r found start size aligned within
        (parent-IsFound m v start size r found).inside in
    rw (whole, find_parent-some m v start size r found, e)
      (sym (is_some-type_of (lookup_region (set_count r.start l.commit_count m.regions) q 0))
        ∙ ap is_some (type_of-set_count r.start l.commit_count m.regions q 0)
        ∙ is_some-type_of (lookup_region m.regions q 0))

decommit_outside :
    (m : MemoryManager) (start size : ℕ)
    → IsValid m
    → is_page_range start size ≡ true
    → lookup_region m.regions start size ≡ none
    → decommit start size m ≡ (raise key_error, m)
unfolding decommit
decommit_outside m start size v whole missing =
    rw (whole, find_parent-none m v start size missing) refl

decommit_refused :
    (m : MemoryManager) (start size : ℕ)
    → is_page_range start size ≡ false
    → decommit start size m ≡ (raise assertion_error, m)
unfolding decommit
decommit_refused m start size part = rw part refl

-- `decommit` keeps the invariant, also when it raises.
pub decommit-IsValid :
    (m : MemoryManager) (start size : ℕ) → IsValid m → IsValid (decommit start size m).1
decommit-IsValid m start size v = elim (Bool-cases (is_page_range start size)) [
  | inr part ↦ rw (decommit_refused m start size part) v
  | inl whole ↦ elim (Option-cases (lookup_region m.regions start size)) [
    | inl missing ↦ rw (decommit_outside m start size v whole missing) v
    | inr (r, found) ↦ (decommit_inside m start size r v found whole).1
  ]
]
