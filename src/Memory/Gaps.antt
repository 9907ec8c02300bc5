-- ===== src/Memory/Gaps.antt =====
-- The gaps between the regions: what `query` reports of an address that no region contains.
use dumpulator.Prelude.{
  ℕ, ◌+◌, ◌-◌, ◌%◌, ◌≤◌, ◌<◌, ◌≡◌, refl, ◌∙◌, ◌⊎◌, inl, inr, Bool-cases, true, false, none, some,
  List, [], ◌∷◌, arith, ltb, leb, if◌then◌else◌, get_elem?,
}
use dumpulator.Prelude.Int.{pos}
use dumpulator.Outcome.{ok}
use dumpulator.Memory.Protect.{page_size, mem_free}
use dumpulator.Memory.Region.{MemoryRegion, end, contains, overlaps, containing_page}
use dumpulator.Memory.Bisect.{starts, rank}
use dumpulator.Memory.Manager.{MemoryManager, find_region}
use dumpulator.Memory.Layout.{
  Layout, Layout-le, lookup_region, any_overlap, any_overlap-below, bisect_right-Layout,
}
use dumpulator.Memory.Valid.{IsValid}
use dumpulator.Memory.Range.{find_region-IsValid}
use dumpulator.Memory.Query.{
  MemoryBasicInformation, start_or, next_start, query_free, query_page, query,
}

-- The start of the first region above `start`, or the end of the address space.
unfoldable pub gap_end : List MemoryRegion → (start maximum : ℕ) → ℕ
gap_end [] start maximum = maximum
gap_end (r ∷ rs) start maximum =
    let rest = gap_end rs start maximum in if ltb start r.start then r.start else rest

gap_end-rank :
    (rs : List MemoryRegion) (start maximum : ℕ)
    → start_or maximum (get_elem? rs (rank (starts rs) start)) ≡ gap_end rs start maximum
unfolding rank gap_end
gap_end-rank [] start maximum = refl
gap_end-rank (r ∷ rs) start maximum = elim (Bool-cases (ltb start r.start)) [
  | inl above ↦ rw above refl
  | inr below ↦ rw below (gap_end-rank rs start maximum)
]

module _ (g hi : ℕ) where
  gap_end-gt :
      (rs : List MemoryRegion) (lo start : ℕ)
      → Layout g lo hi rs
      → start < hi
      → start < gap_end rs start hi
  unfolding gap_end
  gap_end-gt [] lo start l h = h
  gap_end-gt (r ∷ rs) lo start l h = ground (arith, gap_end-gt rs (end r) start l.5 h)

  gap_end-le :
      (rs : List MemoryRegion) (lo start : ℕ) → Layout g lo hi rs → gap_end rs start hi ≤ hi
  unfolding gap_end
  gap_end-le [] lo start l = omega arith
  gap_end-le (r ∷ rs) lo start l =
      ground (arith, gap_end-le rs (end r) start l.5, Layout-le g hi rs (end r) l.5)

  -- No region overlaps a range in the gap.
  gap_clear :
      (rs : List MemoryRegion) (lo start from size : ℕ)
      → Layout g lo hi rs
      → lookup_region rs start 0 ≡ none
      → start ≤ from
      → 0 < size
      → from + size ≤ gap_end rs start hi
      → any_overlap rs from size ≡ false
  unfolding gap_end lookup_region any_overlap contains overlaps
  gap_clear [] lo start from size l missing h filled fits = refl
  gap_clear (r ∷ rs) lo start from size l missing h filled fits =
      elim (Bool-cases (ltb start r.start)) [
        | inl above ↦ ground (arith, fits, any_overlap-below g hi rs (end r) from size l.5 filled)
        | inr below ↦ ground (arith, missing, fits, gap_clear rs (end r) start from size l.5)
      ]

  gap_end_aligned :
      (rs : List MemoryRegion) (lo start : ℕ)
      → Layout g lo hi rs
      → (gap_end rs start hi % page_size ≡ 0) ⊎ (gap_end rs start hi ≡ hi)
  unfolding gap_end
  gap_end_aligned [] lo start l = inr refl
  gap_end_aligned (r ∷ rs) lo start l = elim (Bool-cases (ltb start r.start)) [
    | inl above ↦ rw above (inl l.2)
    | inr below ↦ rw below (gap_end_aligned rs (end r) start l.5)
  ]

-- What `query` reports of a page in the gap that `start` lies in.
pub record ReportsGap (m : MemoryManager) (start n : ℕ) (info : MemoryBasicInformation)
    : Type 0 where
  pub from : info.base ≡ start
  pub in_state : info.state ≡ mem_free
  pub sized : info.region_size ≡ pos n
  pub filled : 0 < n
  pub to_end : start + n ≡ gap_end m.regions start m.maximum
  pub bounded : start + n ≤ m.maximum
  pub clear :
      (from size : ℕ)
      → start ≤ from
      → 0 < size
      → from + size ≤ start + n
      → any_overlap m.regions from size ≡ false

module _ (m : MemoryManager) (v : IsValid m) where
  next_start-gap_end : (start : ℕ) → next_start m start ≡ gap_end m.regions start m.maximum
  unfolding next_start
  next_start-gap_end start =
      rw (bisect_right-Layout m.granularity m.maximum m.regions m.minimum start v.layout)
        (gap_end-rank m.regions start m.maximum)

  pub gap_stop :
      (start : ℕ)
      → (gap_end m.regions start m.maximum % page_size ≡ 0)
        ⊎ (gap_end m.regions start m.maximum ≡ m.maximum)
  gap_stop start = gap_end_aligned m.granularity m.maximum m.regions m.minimum start v.layout

  -- On a valid manager `query` of an address below the maximum that no region contains reports a free
  -- span from its page to the first region above it or to the maximum, and no region overlaps the span.
  pub query_gap :
      (addr : ℕ)
      → containing_page addr < m.maximum
      → lookup_region m.regions (containing_page addr) 0 ≡ none
      → (info : MemoryBasicInformation) × ((n : ℕ) × ((query m addr ≡ ok (some info))
            × ReportsGap m (containing_page addr) n info))
  unfolding query query_page query_free
  query_gap addr below missing =
      let start = containing_page addr in
      let stop = gap_end m.regions start m.maximum in
      let lt : start < stop =
        gap_end-gt m.granularity m.maximum m.regions m.minimum start v.layout below in
      let e : next_start m start ≡ stop = next_start-gap_end start in
      let none_found : find_region m.regions start 0 ≡ none =
        find_region-IsValid m v start 0 ∙ missing in
      let first : leb start stop ≡ true = ground arith in
      let whole : start + (stop - start) ≡ stop = omega arith in
      (
        query_free m start,
        (
          stop - start,
          (
            rw none_found refl,
            record {
              from = refl;
              in_state = refl;
              sized = rw (e, first) refl;
              filled = omega arith;
              to_end = whole;
              bounded = omega (
                arith,
                whole,
                gap_end-le m.granularity m.maximum m.regions m.minimum start v.layout,
              );
              clear = λ from size h filled fits.
                  gap_clear m.granularity m.maximum m.regions m.minimum start from size v.layout
                    missing h filled (omega arith);
            },
          ),
        ),
      )
