-- ===== src/Memory/Steps.antt =====
-- One call of `query` in the loops of `find_free` and `map`.
use dumpulator.Prelude.{
  ℕ, suc, ◌+◌, ◌*◌, ◌%◌, ◌≤◌, ◌<◌, ◌≡◌, refl, ◌∙◌, ap, ◌⊎◌, inl, inr, Bool-cases, false,
  Option-cases, none, some, arith, ◌==◌,
}
use dumpulator.Prelude.Int.{pos}
use dumpulator.Outcome.{ok}
use dumpulator.Memory.Protect.{
  page_size, mem_reserve, mem_commit, MemoryProtect, MemoryState, undefined,
}
use dumpulator.Memory.Region.{MemoryRegion, containing_page}
use dumpulator.Memory.Manager.{MemoryManager}
use dumpulator.Memory.Layout.{lookup_region}
use dumpulator.Memory.Valid.{IsValid, parent-IsFound}
use dumpulator.Memory.Query.{MemoryBasicInformation, query, after, is_free}
use dumpulator.Memory.Querying.{Reports, query_committed_lem, query_reserved_lem, query_empty_lem}
use dumpulator.Memory.Gaps.{ReportsGap, query_gap, gap_stop}

-- What a round of the search knows of the span at `base`.
pub record IsStep (m : MemoryManager) (base n : ℕ) (info : MemoryBasicInformation) : Type 0 where
  pub at_base : info.base ≡ base
  pub sized : after base info.region_size ≡ base + n
  pub filled : 0 < n
  pub next_page : ((base + n) % page_size ≡ 0) ⊎ (m.maximum ≤ base + n)
  pub busy_or_gap : (is_free info.state ≡ false) ⊎ ReportsGap m base n info

module _ (m : MemoryManager) (v : IsValid m) (base : ℕ) (aligned : base % page_size ≡ 0)
    (below : base < m.maximum) where
  same_page : containing_page base ≡ base
  same_page = omega (arith, aligned)

  IsStep-gap :
      lookup_region m.regions base 0 ≡ none
      → (info : MemoryBasicInformation) × ((n : ℕ) × ((query m base ≡ ok (some info))
            × IsStep m base n info))
  unfolding after
  IsStep-gap missing =
      let (info, (n, (e, gap))) = query_gap m v base (rw same_page below) (rw same_page missing) in
      let gap' : ReportsGap m base n info = rw same_page at gap in
      (
        info,
        (
          n,
          (
            e,
            record {
              at_base = gap'.from;
              sized = rw gap'.sized refl;
              filled = gap'.filled;
              next_page = elim (gap_stop m v base) [
                | inl p ↦ inl (rw gap'.to_end p)
                | inr p ↦ inr (omega (arith, gap'.to_end, p))
              ];
              busy_or_gap = inr gap';
            },
          ),
        ),
      )

  IsStep-report :
      (r : MemoryRegion) (state : MemoryState) (prot : MemoryProtect) (n : ℕ)
      (info : MemoryBasicInformation)
      → Reports r (containing_page base) state prot info
      → is_free state ≡ false
      → info.region_size ≡ pos n
      → 0 < n
      → n % page_size ≡ 0
      → IsStep m base n info
  unfolding after
  IsStep-report r state prot n info reports busy size filled whole = record {
    at_base = reports.from ∙ same_page;
    sized = rw size refl;
    filled = filled;
    next_page = inl (omega (arith, aligned, whole));
    busy_or_gap = inl (ap is_free reports.in_state ∙ busy);
  }

  IsStep-region :
      (r : MemoryRegion)
      → lookup_region m.regions base 0 ≡ some r
      → (info : MemoryBasicInformation) × ((n : ℕ) × ((query m base ≡ ok (some info))
            × IsStep m base n info))
  IsStep-region r found =
      let found' : lookup_region m.regions (containing_page base) 0 ≡ some r = rw same_page found in
      let f = parent-IsFound m v base 0 r found in
      elim (Option-cases (m.committed (containing_page base))) [
        | inr (p, committed) ↦
            let (info, (n, (e, reports, size, _))) =
              query_committed_lem m base r v found' p committed in
            (
              info,
              (
                suc n * page_size,
                (
                  e,
                  IsStep-report r mem_commit p.protect (suc n * page_size) info reports refl size
                      (omega arith) (omega arith),
                ),
              ),
            )
        | inl unused ↦ elim (Bool-cases (r.commit_count == 0)) [
          | inl empty ↦
              let (info, (e, reports, size)) =
                query_empty_lem m base r v found' unused (ground (arith, empty)) in
              (
                info,
                (
                  r.size,
                  (
                    e,
                    IsStep-report r mem_reserve undefined r.size info reports refl size f.filled
                        f.size_page,
                  ),
                ),
              )
          | inr counted ↦
              let (info, (n, (e, reports, size, _))) =
                query_reserved_lem m base r v found' unused (ground (arith, counted)) in
              (
                info,
                (
                  suc n * page_size,
                  (
                    e,
                    IsStep-report r mem_reserve undefined (suc n * page_size) info reports refl size
                        (omega arith) (omega arith),
                  ),
                ),
              )
        ]
      ]

  -- On a valid manager every page below the maximum gets a report.
  pub step_lem :
      (info : MemoryBasicInformation) × ((n : ℕ) × ((query m base ≡ ok (some info))
          × IsStep m base n info))
  step_lem = elim (Option-cases (lookup_region m.regions base 0)) [
    | inl missing ↦ IsStep-gap missing
    | inr (r, found) ↦ IsStep-region r found
  ]
