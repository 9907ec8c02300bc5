-- ===== src/Memory/Tiles.antt =====
-- One round of `map`: what `query` reports of a page where a span may begin.
use dumpulator.Prelude.{
  ℕ, suc, ◌+◌, ◌*◌, ◌%◌, ◌≤◌, ◌<◌, ◌≡◌, refl, sym, ◌∙◌, ap, ◌⊎◌, inl, inr, Bool-cases, true, false,
  Option-cases, none, some, arith, ◌==◌, is_some, not, Option,
}
use dumpulator.Prelude.Int.{pos}
use dumpulator.Outcome.{ok}
use dumpulator.Memory.Protect.{
  page_size, mem_reserve, mem_commit, MemoryProtect, MemoryType, MemoryState, undefined,
}
use dumpulator.Memory.Region.{MemoryRegion, end, containing_page, page_count}
use dumpulator.Memory.Count.{in_range, in_range_intro, count-eq-zero}
use dumpulator.Memory.Manager.{Page, MemoryManager}
use dumpulator.Memory.Layout.{lookup_region}
use dumpulator.Memory.Valid.{IsValid, Homed, parent-IsFound}
use dumpulator.Memory.Query.{MemoryBasicInformation, query, matches}
use dumpulator.Memory.Spans.{IsSpan, is_reserved}
use dumpulator.Memory.Querying.{Reports, query_committed_lem, query_reserved_lem, query_empty_lem}
use dumpulator.Memory.Gaps.{ReportsGap, query_gap, gap_stop}
use dumpulator.Memory.Describing.{
  PageIs, IsBoundary, IsTile, clear_lookup, found_bounds, same_region, region-IsBoundary,
  gap-IsBoundary,
}

module _ (m : MemoryManager) (v : IsValid m) (base : ℕ) (aligned : base % page_size ≡ 0)
    (below : base < m.maximum) where
  same_page : containing_page base ≡ base
  same_page = omega (arith, aligned)

  abbrev Tile : Type 0
  Tile =
      (info : MemoryBasicInformation) × ((n : ℕ) × ((query m base ≡ ok (some info))
          × IsTile m base n info))

  gap-Tile : lookup_region m.regions base 0 ≡ none → Tile
  gap-Tile missing =
      let (info, (n, (e, gap'))) = query_gap m v base (rw same_page below) (rw same_page missing) in
      let gap : ReportsGap m base n info = rw same_page at gap' in
      (
        info,
        (
          n,
          (
            e,
            record {
              at_base = gap.from;
              sized = gap.sized;
              filled = gap.filled;
              bounded = gap.bounded;
              described = λ q paged low high. rw gap.in_state (
                  clear_lookup m.regions q (gap.clear q 1 low (omega arith) (omega (arith, high))));
              next_page = elim (gap_stop m v base) [
                | inl p ↦ inl (rw gap.to_end p)
                | inr p ↦ inr (gap.to_end ∙ p)
              ];
              next_boundary = gap-IsBoundary m v base n info aligned gap;
            },
          ),
        ),
      )

  -- A report of a span of a region
  report-IsTile :
      (r : MemoryRegion) (state : MemoryState) (prot : MemoryProtect) (n : ℕ)
      (info : MemoryBasicInformation)
      → lookup_region m.regions base 0 ≡ some r
      → Reports r (containing_page base) state prot info
      → info.region_size ≡ pos n
      → 0 < n
      → n % page_size ≡ 0
      → base + n ≤ end r
      → (0 < r.commit_count) ⊎ (base + n ≡ end r)
      → ((q : ℕ)
          → lookup_region m.regions q 0 ≡ some r
          → in_range q base (page_count n) ≡ true
          → PageIs state prot r.type m q)
      → IsTile m base n info
  report-IsTile r state prot n info found reports size filled whole fits why pages =
      let (lo, up, top) = found_bounds m v base r found in
      record {
        at_base = reports.from ∙ same_page;
        sized = size;
        filled = filled;
        bounded = omega (arith, fits, top);
        described = λ q paged low high.
            rw (reports.in_state, reports.protected, reports.of_type)
              (pages q
                (same_region m v base q r found (omega (arith, lo, low))
                  (omega (arith, fits, high)))
                (in_range_intro q base (page_count n) aligned paged low
                  (omega (arith, high, whole))));
        next_page = inl (omega (arith, aligned, whole));
        next_boundary = region-IsBoundary m v base n r aligned whole filled found fits why;
      }

  module _ (r : MemoryRegion) (found : lookup_region m.regions base 0 ≡ some r) where
    found_page : lookup_region m.regions (containing_page base) 0 ≡ some r
    found_page = rw same_page found

    region_page : in_range base r.start (page_count r.size) ≡ true
    region_page =
        let f = parent-IsFound m v base 0 r found in
        let (lo, up, _) = found_bounds m v base r found in
        in_range_intro base r.start (page_count r.size) f.start_page aligned lo
          (omega (arith, up, f.size_page))

    committed_counted : (p : Page) → m.committed base ≡ some p → 0 < r.commit_count
    committed_counted p committed = elim (Bool-cases (r.commit_count == 0)) [
      | inr some_pages ↦ ground (arith, some_pages)
      | inl empty ↦
          let f = parent-IsFound m v base 0 r found in
          let no_page =
            count-eq-zero m.committed r.start (page_count r.size) base
              (sym f.counted ∙ ground (arith, empty)) region_page in
          absurd (ground (arith, no_page, ap is_some committed))
    ]

    -- A page of the region that matches one of its committed pages
    matched :
        (q : ℕ) (prot : MemoryProtect) (type : MemoryType)
        → lookup_region m.regions q 0 ≡ some r
        → matches prot type (m.committed q) ≡ true
        → PageIs mem_commit prot r.type m q
    unfolding matches
    matched q prot type at h = elim (Option-cases (m.committed q)) [
      | inl missing ↦ absurd (ground (arith, rw (missing, matches) at h))
      | inr (p, committed) ↦
          let same = rw (committed, matches) at h in
          let home : Homed q (some p) (some r.type) = rw (committed, at) at (v.homed q) in
          (p, (committed, ground (arith, same), home.1))
    ]

    uncommitted : (o : Option Page) → is_some o ≡ false → o ≡ none
    uncommitted none h = refl
    uncommitted (some p) h = absurd (ground (arith, h))

    unreserved : (o : Option Page) → not (is_some o) ≡ true → o ≡ none
    unreserved none h = refl
    unreserved (some p) h = absurd (ground (arith, h))

    pages_of : (n : ℕ) → page_count (suc n * page_size) ≡ suc n
    pages_of n = omega arith

    committed-Tile : (p : Page) → m.committed base ≡ some p → Tile
    committed-Tile p committed =
        let (info, (n, (e, reports, size, span))) =
          query_committed_lem m base r v found_page p (rw same_page committed) in
        let span' : IsSpan (λ q. matches p.protect p.type (m.committed q)) base (suc n) (end r) =
          rw same_page at span in
        (
          info,
          (
            suc n * page_size,
            (
              e,
              report-IsTile r mem_commit p.protect (suc n * page_size) info found reports size
                  (omega arith) (omega arith) span'.inside (inl (committed_counted p committed))
                  (λ q at inside.
                    matched q p.protect p.type at (span'.all q (rw (pages_of n) at inside))),
            ),
          ),
        )

    no_pages-Tile : m.committed base ≡ none → r.commit_count ≡ 0 → IsBoundary m base → Tile
    no_pages-Tile unused empty boundary =
        let (info, (e, reports, size)) =
          query_empty_lem m base r v found_page (rw same_page unused) empty in
        let f = parent-IsFound m v base 0 r found in
        let start : r.start ≡ base = boundary r found empty in
        (
          info,
          (
            r.size,
            (
              e,
              report-IsTile r mem_reserve undefined r.size info found reports size f.filled
                  f.size_page (omega (arith, start)) (inr (omega (arith, start)))
                  (λ q at inside. (
                    r,
                    (
                      at,
                      refl,
                      uncommitted (m.committed q) (
                          count-eq-zero m.committed r.start (page_count r.size) q
                            (sym f.counted ∙ empty) (rw start inside)),
                    ),
                  )),
            ),
          ),
        )

    unused-Tile : m.committed base ≡ none → IsBoundary m base → Tile
    unused-Tile unused boundary = elim (Bool-cases (r.commit_count == 0)) [
      | inr counted ↦
          let some_pages : 0 < r.commit_count = ground (arith, counted) in
          let (info, (n, (e, reports, size, span))) =
            query_reserved_lem m base r v found_page (rw same_page unused) some_pages in
          let span' : IsSpan (is_reserved m.committed) base (suc n) (end r) =
            rw same_page at span in
          (
            info,
            (
              suc n * page_size,
              (
                e,
                report-IsTile r mem_reserve undefined (suc n * page_size) info found reports size
                    (omega arith) (omega arith) span'.inside (inl some_pages)
                    (λ q at inside. (
                      r,
                      (
                        at,
                        refl,
                        unreserved (m.committed q) (span'.all q (rw (pages_of n) at inside)),
                      ),
                    )),
              ),
            ),
          )
      | inl empty ↦ no_pages-Tile unused (ground (arith, empty)) boundary
    ]

  -- On a valid manager every page below the maximum that is a boundary gets a report that describes it.
  pub tile_lem : IsBoundary m base → Tile
  tile_lem boundary = elim (Option-cases (lookup_region m.regions base 0)) [
    | inl missing ↦ gap-Tile missing
    | inr (r, found) ↦ elim (Option-cases (m.committed base)) [
      | inr (p, committed) ↦ committed-Tile r found p committed
      | inl unused ↦ unused-Tile r found unused boundary
    ]
  ]
