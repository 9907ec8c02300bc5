-- ===== src/Memory/Querying.antt =====
-- What `query` reports of a page that lies in a region.
use dumpulator.Prelude.{
  ℕ, suc, ◌+◌, ◌*◌, ◌≤◌, ◌<◌, ◌≡◌, refl, ◌∙◌, ap, true, false, none, some, List, [], ◌∷◌, arith,
  ◌==◌,
}
use dumpulator.Prelude.Int.{pos}
use dumpulator.Outcome.{ok}
use dumpulator.Memory.Protect.{
  page_size, MemoryProtect, undefined, MemoryType, no_type, mem_image, mem_mapped, mem_private,
  MemoryState, mem_commit, mem_reserve,
}
use dumpulator.Memory.Region.{
  MemoryRegion, end, contains, page_count, page_range, pages, containing_page,
}
use dumpulator.Memory.Manager.{Page, MemoryManager, find_region}
use dumpulator.Memory.Layout.{lookup_region}
use dumpulator.Memory.Valid.{IsValid, Homed, parent-IsFound}
use dumpulator.Memory.Range.{find_region-IsValid}
use dumpulator.Memory.Query.{
  MemoryBasicInformation, InfoAt, same_type, pages_from, matches, add_info, query_pages, query_page,
  query, query_reserved, query_committed,
}
use dumpulator.Memory.Spans.{
  IsSpan, IsSpan-longer, is_reserved, reserved_span-IsSpan, committed_span-IsSpan, pages_from_lem,
}

same_type_self : (t : MemoryType) → same_type t t ≡ true
same_type_self no_type = refl
same_type_self mem_image = refl
same_type_self mem_mapped = refl
same_type_self mem_private = refl

-- The report of a page at `base` in the region `r`.
pub record Reports (r : MemoryRegion) (base : ℕ) (state : MemoryState) (prot : MemoryProtect)
    (info : MemoryBasicInformation) : Type 0 where
  pub from : info.base ≡ base
  pub allocated : info.allocation_base ≡ r.start
  pub allocated_with : info.allocation_protect ≡ r.protect
  pub in_state : info.state ≡ state
  pub protected : info.protect ≡ prot
  pub of_type : info.type ≡ r.type

module _ (m : MemoryManager) (addr : ℕ) (r : MemoryRegion) (v : IsValid m)
    (found : lookup_region m.regions (containing_page addr) 0 ≡ some r) where
  abbrev page : ℕ
  page = containing_page addr

  region_lem : find_region m.regions page 0 ≡ some r
  region_lem = find_region-IsValid m v page 0 ∙ found

  pub inside : (r.start ≤ page) × (page < end r)
  unfolding contains
  inside = let f = parent-IsFound m v page 0 r found in ground (arith, f.inside)

  -- The rounds of the loop that do not `continue`.
  rounds :
      (n : ℕ) × ((pages_from page (pages r.start r.size) ≡ page ∷ page_range (page + page_size) n)
        × (page + suc n * page_size ≡ end r))
  unfolding pages
  rounds =
      let f = parent-IsFound m v page 0 r found in
      let whole : r.start + page_count r.size * page_size ≡ end r = omega (arith, f.size_page) in
      let (n, (e, stop)) =
        pages_from_lem page r.start (page_count r.size) f.start_page (omega arith) inside.0
          (omega (arith, inside, whole)) in
      (n, (e, stop ∙ whole))

  query_rounds :
      (n : ℕ)
      → pages_from page (pages r.start r.size) ≡ page ∷ page_range (page + page_size) n
      → query m addr ≡ query_pages m r (page ∷ page_range (page + page_size) n)
  unfolding query query_page
  query_rounds n e = rw (region_lem, e) refl

  module _ (p : Page) (committed : m.committed page ≡ some p) where
    type_of_page : p.type ≡ r.type
    type_of_page =
        let h : Homed page (some p) (some r.type) = rw (committed, found) at (v.homed page) in h.1

    self_matches : matches p.protect p.type (m.committed page) ≡ true
    unfolding matches
    self_matches = rw (committed, same_type_self p.type) (ground arith)

    query_found :
        (n : ℕ)
        → pages_from page (pages r.start r.size) ≡ page ∷ page_range (page + page_size) n
        → query m addr ≡ ok (some (query_committed m r p page (page_range (page + page_size) n)))
    unfolding query_pages
    query_found n e =
        let same : same_type p.type r.type ≡ true = rw type_of_page (same_type_self r.type) in
        query_rounds n e ∙ rw (committed, query_pages, same) refl

    -- On a valid manager `query` of an address in a committed page reports the page with its protection
    -- and type, and the longest span of pages of the region that are committed with the same ones.
    pub query_committed_lem :
        (info : MemoryBasicInformation) × ((n : ℕ) × ((query m addr ≡ ok (some info))
            × Reports r page mem_commit p.protect info
            × (info.region_size ≡ pos (suc n * page_size))
            × IsSpan (λ q. matches p.protect p.type (m.committed q)) page (suc n) (end r)))
    unfolding query_committed
    query_committed_lem =
        let (k, (e, stop)) = rounds in
        let seen : List InfoAt = add_info p.info page (add_info r.info r.start []) in
        let (n, (size, span)) =
          committed_span-IsSpan p.protect p.type m.committed k (page + page_size) page_size seen in
        let far : page + page_size + k * page_size ≡ end r = omega (arith, stop) in
        (
          query_committed m r p page (page_range (page + page_size) k),
          (
            n,
            (
              query_found k e,
              record {
                from = refl;
                allocated = refl;
                allocated_with = refl;
                in_state = refl;
                protected = refl;
                of_type = type_of_page;
              },
              ap pos (size ∙ omega arith),
              IsSpan-longer (λ q. matches p.protect p.type (m.committed q)) page n (end r)
                  self_matches (rw far at span),
            ),
          ),
        )

  module _ (unused : m.committed page ≡ none) where
    query_unused :
        (n : ℕ)
        → pages_from page (pages r.start r.size) ≡ page ∷ page_range (page + page_size) n
        → query m addr ≡ ok (some (query_reserved m r page (page_range (page + page_size) n)))
    unfolding query_pages
    query_unused n e = query_rounds n e ∙ rw (unused, query_pages) refl

    -- On a valid manager `query` of an address in a page that is not committed, in a region with committed
    -- pages, reports the longest span of pages of the region that are not committed.
    pub query_reserved_lem :
        0 < r.commit_count
        → (info : MemoryBasicInformation) × ((n : ℕ) × ((query m addr ≡ ok (some info))
              × Reports r page mem_reserve undefined info
              × (info.region_size ≡ pos (suc n * page_size))
              × IsSpan (is_reserved m.committed) page (suc n) (end r)))
    unfolding query_reserved
    query_reserved_lem counted =
        let (k, (e, stop)) = rounds in
        let (n, (size, span)) = reserved_span-IsSpan m.committed k (page + page_size) page_size in
        let far : page + page_size + k * page_size ≡ end r = omega (arith, stop) in
        let some_pages : (r.commit_count == 0) ≡ false = ground arith in
        (
          query_reserved m r page (page_range (page + page_size) k),
          (
            n,
            (
              query_unused k e,
              record {
                from = refl;
                allocated = refl;
                allocated_with = refl;
                in_state = refl;
                protected = refl;
                of_type = refl;
              },
              rw some_pages (ap pos (size ∙ omega arith)),
              IsSpan-longer (is_reserved m.committed) page n (end r) (rw unused refl)
                  (rw far at span),
            ),
          ),
        )

    -- On a valid manager `query` of an address in a region without committed pages reports the size of the
    -- whole region from the page on.
    pub query_empty_lem :
        r.commit_count ≡ 0
        → (info : MemoryBasicInformation) × ((query m addr ≡ ok (some info))
            × Reports r page mem_reserve undefined info
            × (info.region_size ≡ pos r.size))
    unfolding query_reserved
    query_empty_lem empty =
        let (k, (e, stop)) = rounds in
        let no_pages : (r.commit_count == 0) ≡ true = ground arith in
        (
          query_reserved m r page (page_range (page + page_size) k),
          (
            query_unused k e,
            record {
              from = refl;
              allocated = refl;
              allocated_with = refl;
              in_state = refl;
              protected = refl;
              of_type = refl;
            },
            rw no_pages refl,
          ),
        )
