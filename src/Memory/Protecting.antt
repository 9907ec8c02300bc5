-- ===== src/Memory/Protecting.antt =====
-- `protect`: what it does, on every branch.
use dumpulator.Prelude.{
  ◌&&◌, ℕ, zero, suc, ◌+◌, ◌≡◌, refl, ◌∙◌, Bool-cases, true, false, Option, none, some, List, [],
  ◌∷◌, arith, inl, inr, ◌==◌, if◌then◌else◌, is_some, Option-cases,
}
use dumpulator.Prelude.Dict.{Dict}
use dumpulator.Outcome.{Error, Raised, raising_error, Result, ok, raise, assertion_error, key_error}
use dumpulator.Memory.Protect.{page_size, MemoryProtect, MemoryType}
use dumpulator.Memory.Region.{MemoryRegion, page_count, page_range, pages, post_init}
use dumpulator.Memory.Pager.{Call}
use dumpulator.Memory.Count.{in_range, in_range_below, in_range_intro, count_cong}
use dumpulator.Memory.Manager.{Page, MemoryManager}
use dumpulator.Memory.Layout.{lookup_region}
use dumpulator.Memory.Commit.{
  protect_page, protect_all, all_committed, protection_at, is_page_range, protect,
}
use dumpulator.Memory.Ledger.{IsSynced-protect, protection}
use dumpulator.Memory.Valid.{IsValid, Homed, Counts, type_of}
use dumpulator.Memory.Range.{
  is_page_range_lem, find_parent-none, find_parent-some, all_committed→present,
  present→all_committed,
}

protect_all_effect :
    (prot : MemoryProtect) (k page q : ℕ) (c : Dict Page)
    → protect_all prot (page_range page k) c q
      ≡ (if in_range q page k then protect_page prot (c q) else c q)
unfolding protect_all page_range in_range protect_page
protect_all_effect prot zero page q c = refl
protect_all_effect prot (suc k) page q c = ground (
  arith,
  protect_all_effect prot k (page + page_size) q
      (λ p. if page == p then protect_page prot (c p) else c p),
  in_range_below q (page + page_size) k,
)

pub Counts-same :
    (c d : Dict Page) (rs : List MemoryRegion)
    → ((q : ℕ) → is_some (c q) ≡ is_some (d q))
    → Counts c rs
    → Counts d rs
Counts-same c d [] h k = tt
Counts-same c d (r ∷ rs) h k =
    (k.0 ∙ count_cong c d r.start (page_count r.size) (λ q _. h q), Counts-same c d rs h k.1)

Homed-protect_page :
    (prot : MemoryProtect) (q : ℕ) (o : Option Page) (t : Option MemoryType)
    → Homed q o t
    → Homed q (protect_page prot o) t
unfolding protect_page
Homed-protect_page prot q none t h = tt
Homed-protect_page prot q (some p) none h = h
Homed-protect_page prot q (some p) (some t) h = h

-- `protect` returned the old protection of the first page; exactly the pages of the range have the
-- new one, and the regions are as they were.
abbrev pub Protects :
    (m : MemoryManager) (start size : ℕ)
    → MemoryProtect
    → Result MemoryProtect × MemoryManager
    → Type 0
Protects m start size prot (result, m') =
    ((p : Page) × (m.committed start ≡ some p) × (result ≡ ok p.protect))
    × IsValid m'
    × (m'.regions ≡ m.regions)
    × ((q : ℕ)
        → m'.committed q ≡ (
            if in_range q start (page_count size)
            then protect_page prot (m.committed q)
            else m.committed q))

module _ (m : MemoryManager) (v : IsValid m) (start size : ℕ) (prot : MemoryProtect)
    (whole : is_page_range start size ≡ true)
    (present : (q : ℕ)
      → in_range q start (page_count size) ≡ true
      → is_some (m.committed q) ≡ true) where
  abbrev after : MemoryManager
  after = record m {
    calls = Call.protect start size prot ∷ m.calls;
    committed = protect_all prot (pages start size) m.committed;
  }

  effect :
      (q : ℕ)
      → after.committed q ≡ (
          if in_range q start (page_count size)
          then protect_page prot (m.committed q)
          else m.committed q)
  unfolding pages
  effect q = protect_all_effect prot (page_count size) start q m.committed

  whole_pages : post_init start size ≡ true
  unfolding is_page_range
  whole_pages = ground arith

  kept : (q : ℕ) → is_some (m.committed q) ≡ is_some (after.committed q)
  unfolding protect_page
  kept q = ground (arith, effect q)

  homed : (q : ℕ) → Homed q (after.committed q) (type_of (lookup_region m.regions q 0))
  homed q = rw (effect q) (elim (Bool-cases (in_range q start (page_count size))) [
    | inl i ↦ rw i (
        Homed-protect_page prot q (m.committed q) (type_of (lookup_region m.regions q 0))
          (v.homed q))
    | inr o ↦ rw o (v.homed q)
  ])

  shown :
      (q : ℕ)
      → protection (after.committed q)
        ≡ (if in_range q start (page_count size) then some prot else protection (m.committed q))
  unfolding protect_page
  shown q = ground (arith, effect q, present q)

  after-IsValid : IsValid after
  after-IsValid = record {
    layout = v.layout;
    counts = Counts-same m.committed after.committed m.regions kept v.counts;
    homed = homed;
    synced =
        IsSynced-protect m.calls m.committed after.committed start size v.synced whole_pages prot
          present shown;
  }

  all_present : all_committed m.committed (pages start size) ≡ true
  unfolding pages
  all_present = present→all_committed m.committed (page_count size) start present

  first : in_range start start (page_count size) ≡ true
  first =
      let (some_page, s, z) = is_page_range_lem start size whole in
      in_range_intro start start (page_count size) s s (omega arith) (omega arith)

  first_page : (p : Page) × (m.committed start ≡ some p) × (protection_at start m ≡ ok p.protect)
  unfolding protection_at
  first_page = elim (Option-cases (m.committed start)) [
    | inl free ↦ absurd (ground (arith, present start first))
    | inr (p, used) ↦ (p, used, ground arith)
  ]

-- On a valid manager `protect` of whole pages inside a region, all of them committed, returns the old
-- protection of the first page and leaves a valid manager: exactly the pages of the range have the new
-- protection, with their type and info, and the regions are as they were.
pub protect_inside :
    (m : MemoryManager) (start size : ℕ) (prot : MemoryProtect) (r : MemoryRegion)
    → IsValid m
    → lookup_region m.regions start size ≡ some r
    → is_page_range start size ≡ true
    → ((q : ℕ) → in_range q start (page_count size) ≡ true → is_some (m.committed q) ≡ true)
    → Protects m start size prot (protect start size prot m)
unfolding protect
protect_inside m start size prot r v found whole present =
    let (p, used, read) = first_page m v start size prot whole present in
    rw
      (
        whole,
        find_parent-some m v start size r found,
        all_present m v start size prot whole present,
        read,
      )
      (
        (p, used, refl),
        after-IsValid m v start size prot whole present,
        refl,
        effect m v start size prot whole present,
      )

protect_uncommitted :
    (m : MemoryManager) (start size : ℕ) (prot : MemoryProtect) (r : MemoryRegion)
    → IsValid m
    → lookup_region m.regions start size ≡ some r
    → is_page_range start size ≡ true
    → all_committed m.committed (pages start size) ≡ false
    → protect start size prot m ≡ (raise key_error, m)
unfolding protect
protect_uncommitted m start size prot r v found whole missing =
    rw (whole, find_parent-some m v start size r found, missing) refl

protect_outside :
    (m : MemoryManager) (start size : ℕ) (prot : MemoryProtect)
    → IsValid m
    → is_page_range start size ≡ true
    → lookup_region m.regions start size ≡ none
    → protect start size prot m ≡ (raise key_error, m)
unfolding protect
protect_outside m start size prot v whole missing =
    rw (whole, find_parent-none m v start size missing) refl

protect_refused :
    (m : MemoryManager) (start size : ℕ) (prot : MemoryProtect)
    → is_page_range start size ≡ false
    → protect start size prot m ≡ (raise assertion_error, m)
unfolding protect
protect_refused m start size prot part = rw part refl

pub pages_present :
    (c : Dict Page) (start size : ℕ)
    → all_committed c (pages start size) ≡ true
    → (q : ℕ) → in_range q start (page_count size) ≡ true
    → is_some (c q) ≡ true
unfolding pages
pages_present c start size h q = all_committed→present c (page_count size) start q h

-- `protect` keeps the invariant, also when it raises.
pub protect-IsValid :
    (m : MemoryManager) (start size : ℕ) (prot : MemoryProtect)
    → IsValid m
    → IsValid (protect start size prot m).1
protect-IsValid m start size prot v = elim (Bool-cases (is_page_range start size)) [
  | inr part ↦ rw (protect_refused m start size prot part) v
  | inl whole ↦ elim (Option-cases (lookup_region m.regions start size)) [
    | inl missing ↦ rw (protect_outside m start size prot v whole missing) v
    | inr (r, found) ↦ elim (Bool-cases (all_committed m.committed (pages start size))) [
      | inr missing ↦ rw (protect_uncommitted m start size prot r v found whole missing) v
      | inl here ↦
          (protect_inside m start size prot r v found whole
            (pages_present m.committed start size here)).1
    ]
  ]
]

abbrev pub protect_error : MemoryManager → (start size : ℕ) → Option Error
protect_error m start size =
    if is_page_range start size
    then (if is_some (lookup_region m.regions start size)
          && all_committed m.committed (pages start size)
        then none
        else some key_error)
    else some assertion_error

protect-Raised :
    (m : MemoryManager) (start size : ℕ) (prot : MemoryProtect)
    → IsValid m
    → Raised (protect_error m start size) m (protect start size prot m)
protect-Raised m start size prot v = elim (Bool-cases (is_page_range start size)) [
  | inr part ↦ rw part (protect_refused m start size prot part)
  | inl whole ↦ elim (Option-cases (lookup_region m.regions start size)) [
    | inl missing ↦ rw (whole, missing) (protect_outside m start size prot v whole missing)
    | inr (r, found) ↦ elim (Bool-cases (all_committed m.committed (pages start size))) [
      | inl here ↦ rw (whole, found, here) tt
      | inr missing ↦
          rw (whole, found, missing) (protect_uncommitted m start size prot r v found whole missing)
    ]
  ]
]

-- On a valid manager `protect` raises and leaves it unchanged: `AssertionError` for a range that is empty
-- or not made of whole pages, else `KeyError` if no region contains the range or a page of it is not
-- committed.
pub protect_errors :
    (m : MemoryManager) (start size : ℕ) (prot : MemoryProtect) (e : Error)
    → IsValid m
    → protect_error m start size ≡ some e
    → protect start size prot m ≡ (raise e, m)
protect_errors m start size prot e v h =
    raising_error (protect_error m start size) e m (protect start size prot m) h
      (protect-Raised m start size prot v)
