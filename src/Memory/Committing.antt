-- ===== src/Memory/Committing.antt =====
-- `commit`: what it does, on every branch.
use dumpulator.Prelude.{
  ℕ, ◌%◌, ◌≡◌, refl, sym, ◌∙◌, Bool-cases, true, false, Option, none, some, ◌∷◌, arith, inl, inr,
  ◌==◌, if◌then◌else◌, is_some, Option-cases,
}
use dumpulator.Outcome.{
  Error, Raised, raising_error, and_then, modify, Result, ok, raise, assertion_error, key_error,
  Returns,
}
use dumpulator.Memory.Protect.{page_size, MemoryProtect, MemoryType, undefined}
use dumpulator.Memory.Region.{MemoryRegion, post_init, page_count, page_range, pages}
use dumpulator.Memory.Pager.{Call}
use dumpulator.Memory.Count.{in_range, in_range_aligned, count-eq-zero}
use dumpulator.Memory.Manager.{Page, MemoryManager}
use dumpulator.Memory.Layout.{lookup_region}
use dumpulator.Memory.Commit.{
  Ledger, open_ledger, close_ledger, commit_ledger, commit_all, commit_each, is_page_range, commit,
  none_committed,
}
use dumpulator.Memory.Ledger.{
  IsSound, IsSynced-commit, commit_to, commit_each-IsSound, commit_each_effect, commit_all_effect,
  commit_all_calls, commit_all-count,
}
use dumpulator.Memory.Valid.{IsValid, Homed, parent-IsFound, parent_homed, close_ledger-IsValid}
use dumpulator.Memory.Range.{
  is_page_range_lem, find_parent-none, find_parent-some, parent_range, absent→none_committed,
}

-- The protection that `commit` gives: the region's, if none is asked for.
abbrev pub commit_protect : MemoryProtect → MemoryRegion → MemoryProtect
commit_protect prot r = if prot == undefined then r.protect else prot

-- `commit` returned, the state after it is valid, and exactly the pages of the range have changed.
abbrev pub Commits :
    (m : MemoryManager) (start size : ℕ)
    → MemoryProtect
    → MemoryType
    → Result (Unit {0}) × MemoryManager
    → Type 0
Commits m start size prot type (result, m') =
    (result ≡ ok tt)
    × IsValid m'
    × ((q : ℕ)
        → m'.committed q ≡ (
            if in_range q start (page_count size)
            then commit_to prot type (m.committed q)
            else m.committed q))

commit_to-Homed :
    (q : ℕ) (prot : MemoryProtect) (type : MemoryType) (o : Option Page)
    → q % page_size ≡ 0
    → Homed q o (some type)
    → Homed q (commit_to prot type o) (some type)
commit_to-Homed q prot type none a h = (a, refl)
commit_to-Homed q prot type (some p) a h = h

module _ (m : MemoryManager) (v : IsValid m) (start size : ℕ) (prot : MemoryProtect)
    (r : MemoryRegion) (found : lookup_region m.regions start size ≡ some r)
    (whole : is_page_range start size ≡ true) where
  abbrev Committed : Ledger → Type 0
  Committed l =
      IsSound r.start (page_count r.size) l
      × ((q : ℕ)
          → l.committed q ≡ (
              if in_range q start (page_count size)
              then commit_to prot r.type (m.committed q)
              else m.committed q))

  opened : IsSound r.start (page_count r.size) (open_ledger m r)
  opened = record { synced = v.synced; counted = (parent-IsFound m v start size r found).counted }

  aligned : start % page_size ≡ 0
  aligned = (is_page_range_lem start size whole).1

  whole_pages : post_init start size ≡ true
  unfolding is_page_range
  whole_pages = ground arith

  inside :
      (q : ℕ)
      → in_range q start (page_count size) ≡ true
      → in_range q r.start (page_count r.size) ≡ true
  inside q = parent_range m v start size r found q whole

  absent :
      r.commit_count ≡ 0
      → (q : ℕ) → in_range q start (page_count size) ≡ true
      → is_some (m.committed q) ≡ false
  absent e q i =
      count-eq-zero m.committed r.start (page_count r.size) q
        (sym (parent-IsFound m v start size r found).counted ∙ e) (inside q i)

  commit_all-Committed :
      r.commit_count ≡ 0
      → Committed (
          commit_all prot r.type
            (pages start size)
            (record (open_ledger m r) { calls = Call.commit start size prot ∷ m.calls }))
  unfolding pages
  commit_all-Committed e =
      let l : Ledger = record (open_ledger m r) { calls = Call.commit start size prot ∷ m.calls } in
      let effect = λ (q : ℕ).
        commit_all_effect prot r.type r.start (page_count r.size) (page_count size) start q l
          (absent e) in
      (
        record {
          synced =
              rw
                (commit_all_calls prot r.type r.start (page_count r.size) (page_count size) start l)
                (IsSynced-commit m.calls m.committed
                  (commit_all prot r.type (page_range start (page_count size)) l).committed start
                  size v.synced whole_pages prot (absent e) (λ q. ground (arith, effect q)));
          counted =
              commit_all-count prot r.type r.start (page_count r.size) (page_count size) start l
                inside (absent e) opened.counted;
        },
        effect,
      )

  commit_each-Committed : Committed (commit_each prot r.type (pages start size) (open_ledger m r))
  unfolding pages
  commit_each-Committed = (
    commit_each-IsSound prot r.type r.start (page_count r.size) (page_count size) start
        (open_ledger m r) aligned inside opened,
    λ q.
        commit_each_effect prot r.type r.start (page_count r.size) (page_count size) start q
          (open_ledger m r),
  )

  free_pages : r.commit_count ≡ 0 → none_committed m.committed (pages start size) ≡ true
  unfolding pages
  free_pages e = absent→none_committed m.committed (page_count size) start (absent e)

  commit_ledger-Committed : Returns (commit_ledger start size prot r (open_ledger m r)) Committed
  unfolding commit_ledger
  commit_ledger-Committed = elim (Bool-cases (r.commit_count == 0)) [
    | inl empty ↦
        let e : r.commit_count ≡ 0 = ground arith in
        rw (empty, free_pages e) (commit_all-Committed e)
    | inr used ↦ rw used commit_each-Committed
  ]

  homed :
      (l : Ledger)
      → Committed l
      → (q : ℕ) → in_range q r.start (page_count r.size) ≡ true
      → Homed q (l.committed q) (some r.type)
  homed l (s, effect) q e = rw (effect q) (elim (Bool-cases (in_range q start (page_count size))) [
    | inl i ↦ rw i (
        commit_to-Homed q prot r.type (m.committed q)
          (in_range_aligned q start (page_count size) aligned i)
          (parent_homed m v start size r found q e))
    | inr o ↦ rw o (parent_homed m v start size r found q e)
  ])

  closed :
      (l : Ledger)
      → Committed l
      → Commits m start size prot r.type (ok tt, close_ledger r.start l m)
  closed l (s, effect) = (
    refl,
    close_ledger-IsValid m v start size r found l s (λ q e. ground (arith, effect q, inside q))
        (homed l (s, effect)),
    unfold close_ledger in effect,
  )

  finished :
      (result : Result Ledger)
      → Returns result Committed
      → Commits m start size prot r.type
          (and_then {S = MemoryManager} result (λ l. modify (close_ledger r.start l)) m)
  finished (ok l) c = closed l c
  finished (raise e) c = absurd c

-- On a valid manager `commit` of whole pages inside a region `r` succeeds and leaves a valid manager.
-- Each page of the range is committed with the protection asked for (that of `r`, if it is 0): a page
-- that was committed keeps its type and info, a new one has the type of `r` and no info. No other
-- page changes.
pub commit_inside :
    (m : MemoryManager) (start size : ℕ) (prot : MemoryProtect) (r : MemoryRegion)
    → IsValid m
    → lookup_region m.regions start size ≡ some r
    → is_page_range start size ≡ true
    → Commits m start size (commit_protect prot r) r.type (commit start size prot m)
unfolding commit
commit_inside m start size prot r v found whole =
    rw (whole, find_parent-some m v start size r found)
      (finished m v start size (commit_protect prot r) r found whole _
        (commit_ledger-Committed m v start size (commit_protect prot r) r found whole))

pub commit_outside :
    (m : MemoryManager) (start size : ℕ) (prot : MemoryProtect)
    → IsValid m
    → is_page_range start size ≡ true
    → lookup_region m.regions start size ≡ none
    → commit start size prot m ≡ (raise key_error, m)
unfolding commit
commit_outside m start size prot v whole missing =
    rw (whole, find_parent-none m v start size missing) refl

pub commit_refused :
    (m : MemoryManager) (start size : ℕ) (prot : MemoryProtect)
    → is_page_range start size ≡ false
    → commit start size prot m ≡ (raise assertion_error, m)
unfolding commit
commit_refused m start size prot part = rw part refl

-- `commit` keeps the invariant, also when it raises.
pub commit-IsValid :
    (m : MemoryManager) (start size : ℕ) (prot : MemoryProtect)
    → IsValid m
    → IsValid (commit start size prot m).1
commit-IsValid m start size prot v = elim (Bool-cases (is_page_range start size)) [
  | inr part ↦ rw (commit_refused m start size prot part) v
  | inl whole ↦ elim (Option-cases (lookup_region m.regions start size)) [
    | inl missing ↦ rw (commit_outside m start size prot v whole missing) v
    | inr (r, found) ↦ (commit_inside m start size prot r v found whole).1
  ]
]

abbrev pub commit_error : MemoryManager → (start size : ℕ) → Option Error
commit_error m start size =
    if is_page_range start size
    then (if is_some (lookup_region m.regions start size) then none else some key_error)
    else some assertion_error

commit-Raised :
    (m : MemoryManager) (start size : ℕ) (prot : MemoryProtect)
    → IsValid m
    → Raised (commit_error m start size) m (commit start size prot m)
commit-Raised m start size prot v = elim (Bool-cases (is_page_range start size)) [
  | inr part ↦ rw part (commit_refused m start size prot part)
  | inl whole ↦ elim (Option-cases (lookup_region m.regions start size)) [
    | inl missing ↦ rw (whole, missing) (commit_outside m start size prot v whole missing)
    | inr (r, found) ↦ rw (whole, found) tt
  ]
]

-- On a valid manager `commit` raises and leaves it unchanged: `AssertionError` for a range that is empty
-- or not made of whole pages, else `KeyError` if no region contains the range.
pub commit_errors :
    (m : MemoryManager) (start size : ℕ) (prot : MemoryProtect) (e : Error)
    → IsValid m
    → commit_error m start size ≡ some e
    → commit start size prot m ≡ (raise e, m)
commit_errors m start size prot e v h =
    raising_error (commit_error m start size) e m (commit start size prot m) h
      (commit-Raised m start size prot v)
