-- ===== src/Memory/Releasing.antt =====
-- `release`: what it does, on every branch.
use dumpulator.Prelude.{
  Option, if◌then◌else◌, ℕ, ◌+◌, ◌%◌, ◌≤◌, ◌<◌, ◌≡◌, refl, ◌∙◌, ap, Bool, Bool-cases, and_true,
  true, false, ◌&&◌, none, some, Option-cases, arith, inl, inr, ◌==◌, if◌then◌else◌, is_some, ltb,
  leb,
}
use dumpulator.Prelude.Dict.{Dict}
use dumpulator.Outcome.{Error, Raised, raising_error, Result, ok, raise, key_error, assertion_error}
use dumpulator.Memory.Protect.{page_size}
use dumpulator.Memory.Region.{
  MemoryRegion, end, page_count, contains, align_allocation, post_init, containing_page,
}
use dumpulator.Memory.Count.{in_range}
use dumpulator.Memory.Manager.{Page, MemoryManager}
use dumpulator.Memory.Layout.{lookup_region}
use dumpulator.Memory.Commit.{Ledger, close_ledger}
use dumpulator.Memory.Release.{release_size, split_parent, release}
use dumpulator.Memory.Valid.{IsValid, parent-IsFound}
use dumpulator.Memory.Range.{find_parent-none, find_parent-some}
use dumpulator.Memory.Decommitting.{ClearedLedger, decommit_region_inside}
use dumpulator.Memory.Align.{align_allocation-add}
use dumpulator.Memory.Splitting.{at_or_after, within, split_parent-Splits}

-- `release` returned, the state after it is valid, exactly the pages of the range are not committed any
-- more, and exactly the addresses of the range have lost their region.
abbrev pub Releases :
    (m : MemoryManager) (start size : ℕ) → Result (Unit {0}) × MemoryManager → Type 0
Releases m start size (result, m') =
    (result ≡ ok tt)
    × IsValid m'
    × ((q : ℕ)
        → m'.committed q ≡ (if in_range q start (page_count size) then none else m.committed q))
    × ((q : ℕ)
        → is_some (lookup_region m'.regions q 0) ≡ (
            if leb start q && ltb q (start + size)
            then false
            else is_some (lookup_region m.regions q 0)))

module _ (m : MemoryManager) (start size : ℕ) (r : MemoryRegion) (v : IsValid m)
    (start_aligned : align_allocation m.granularity start ≡ start)
    (size_aligned : align_allocation m.granularity size ≡ size)
    (found : lookup_region m.regions (containing_page start) 0 ≡ some r) where
  abbrev pub released : ℕ
  released = release_size size r

  module _ (fits : start + released ≤ end r) (whole : post_init start released ≡ true) where
    start_page : start % page_size ≡ 0
    start_page = ground arith

    size_page : released % page_size ≡ 0
    size_page = ground arith

    found_here : lookup_region m.regions start 0 ≡ some r
    found_here = let e : containing_page start ≡ start = omega (arith, start_page) in rw e at found

    released_filled : 0 < released
    released_filled = ground (arith, (parent-IsFound m v start 0 r found_here).filled)

    rest_aligned :
        start + released < end r
        → align_allocation m.granularity (start + released) ≡ start + released
    rest_aligned left = elim (Bool-cases (size == 0)) [
      | inl whole_region ↦ absurd (
          ground (
            arith,
            at_or_after m v start released r found_here fits released_filled start_page size_page,
          ))
      | inr part ↦
          rw part (align_allocation-add m.granularity start size start_aligned size_aligned)
    ]

    abbrev InRegion : (l : Ledger) → Type 0
    InRegion l =
        ClearedLedger m v start 0 r found_here start released start_page
          (within m v start released r found_here fits released_filled start_page size_page) l

    released-Releases :
        (l : Ledger)
        → InRegion l
        → Releases m start released (
            split_parent
              (record r { commit_count = l.commit_count })
              start
              released
              (close_ledger r.start l m))
    released-Releases l c =
        let (returned, valid, same, places) =
          split_parent-Splits m v start released r found_here fits released_filled start_page
            size_page l c rest_aligned in
        (returned, valid, λ q. ap (λ (d : Dict Page). d q) same ∙ c.1 q, places)

    covers : contains r start released ≡ true
    unfolding contains
    covers = ground (
      arith,
      released_filled,
      at_or_after m v start released r found_here fits released_filled start_page size_page,
    )

    -- On a valid manager `release` of `size` bytes, or of the whole region from its start if `size` is 0,
    -- succeeds if the start and the size are multiples of the allocation granularity, the range is made
    -- of whole pages and ends within the region of its start. The manager is valid afterwards; exactly
    -- the pages of the range are not committed any more, and exactly the addresses of the range lie in
    -- no region any more.
    pub release_inside : Releases m start released (release start size m)
    unfolding release
    release_inside =
        let aligned : (align_allocation m.granularity start == start) ≡ true = ground arith in
        let aligned' : (align_allocation m.granularity size == size) ≡ true = ground arith in
        let fitting : ltb (end r) (start + released) ≡ false = ground arith in
        let (l, c, e) =
          decommit_region_inside m v start 0 r found_here start released start_page
            (within m v start released r found_here fits released_filled start_page size_page)
            covers in
        rw
          (
            aligned,
            aligned',
            find_parent-some m v (containing_page start) 0 r found,
            fitting,
            whole,
            e,
          )
          (released-Releases l c)

module _ (m : MemoryManager) (start size : ℕ) where
  -- The assertions of `release` on its arguments.
  abbrev pub may_release : Bool
  may_release =
      (align_allocation m.granularity start == start)
      && (align_allocation m.granularity size == size)

  release_refused : may_release ≡ false → release start size m ≡ (raise assertion_error, m)
  unfolding release
  release_refused h = ground arith

  module _ (v : IsValid m) (h : may_release ≡ true) where
    release_missing :
        lookup_region m.regions (containing_page start) 0 ≡ none
        → release start size m ≡ (raise key_error, m)
    unfolding release
    release_missing e =
        let (a, b) =
          and_true (align_allocation m.granularity start == start)
            (align_allocation m.granularity size == size) h in
        rw (a, b, find_parent-none m v (containing_page start) 0 e) refl

    module _ (r : MemoryRegion)
        (found : lookup_region m.regions (containing_page start) 0 ≡ some r) where
      release_too_long :
          ltb (end r) (start + release_size size r) ≡ true
          → release start size m ≡ (raise key_error, m)
      unfolding release
      release_too_long e =
          let (a, b) =
            and_true (align_allocation m.granularity start == start)
              (align_allocation m.granularity size == size) h in
          rw (a, b, find_parent-some m v (containing_page start) 0 r found, e) refl

      release_part_page :
          ltb (end r) (start + release_size size r) ≡ false
          → post_init start (release_size size r) ≡ false
          → release start size m ≡ (raise assertion_error, m)
      unfolding release
      release_part_page e e' =
          let (a, b) =
            and_true (align_allocation m.granularity start == start)
              (align_allocation m.granularity size == size) h in
          rw (a, b, find_parent-some m v (containing_page start) 0 r found, e, e') refl

-- `release` keeps the invariant, also when it raises.
pub release-IsValid :
    (m : MemoryManager) (start size : ℕ) → IsValid m → IsValid (release start size m).1
release-IsValid m start size v = elim (Bool-cases (may_release m start size)) [
  | inr refused ↦ rw (release_refused m start size refused) v
  | inl h ↦ elim (Option-cases (lookup_region m.regions (containing_page start) 0)) [
    | inl missing ↦ rw (release_missing m start size v h missing) v
    | inr (r, found) ↦ elim (Bool-cases (ltb (end r) (start + release_size size r))) [
      | inl long ↦ rw (release_too_long m start size v h r found long) v
      | inr fits ↦ elim (Bool-cases (post_init start (release_size size r))) [
        | inr torn ↦ rw (release_part_page m start size v h r found fits torn) v
        | inl whole ↦
            (release_inside m start size r v (ground arith) (ground arith) found (ground arith)
              whole).1
      ]
    ]
  ]
]

-- The range has no region at its start, or goes on past the end of that region.
abbrev pub past_end : (start size : ℕ) → Option MemoryRegion → Bool
past_end start size none = true
past_end start size (some r) = ltb (end r) (start + release_size size r)

abbrev pub release_error : MemoryManager → (start size : ℕ) → Option Error
release_error m start size =
    if may_release m start size
    then (if past_end start size (lookup_region m.regions (containing_page start) 0)
        then some key_error
        else none)
    else some assertion_error

release-Raised :
    (m : MemoryManager) (start size : ℕ)
    → IsValid m
    → Raised (release_error m start size) m (release start size m)
release-Raised m start size v = elim (Bool-cases (may_release m start size)) [
  | inr refused ↦ rw refused (release_refused m start size refused)
  | inl h ↦ elim (Option-cases (lookup_region m.regions (containing_page start) 0)) [
    | inl missing ↦ rw (h, missing) (release_missing m start size v h missing)
    | inr (r, found) ↦ elim (Bool-cases (ltb (end r) (start + release_size size r))) [
      | inl long ↦ rw (h, found, long) (release_too_long m start size v h r found long)
      | inr fits ↦ rw (h, found, fits) tt
    ]
  ]
]

-- On a valid manager `release` raises and leaves it unchanged: `AssertionError` if the start or the size
-- is not a multiple of the allocation granularity, else `KeyError` if no region contains the start, or if
-- the range goes on past the end of that region.
pub release_errors :
    (m : MemoryManager) (start size : ℕ) (e : Error)
    → IsValid m
    → release_error m start size ≡ some e
    → release start size m ≡ (raise e, m)
release_errors m start size e v h =
    raising_error (release_error m start size) e m (release start size m) h
      (release-Raised m start size v)
