-- ===== src/Memory/Describing.antt =====
-- What a report of `map` says of the pages of its span, and where a span may begin.
use dumpulator.Prelude.{
  ℕ, ◌+◌, ◌-◌, ◌%◌, ◌≤◌, ◌<◌, ◌≡◌, refl, sym, ◌∙◌, ap, ◌⊎◌, inl, inr, Bool-cases, false, none, some,
  List, [], ◌∷◌, arith, ltb,
}
use dumpulator.Prelude.Int.{pos}
use dumpulator.Memory.Protect.{
  page_size, mem_free, mem_reserve, mem_commit, MemoryProtect, MemoryType, MemoryState,
}
use dumpulator.Memory.Region.{MemoryRegion, end, contains, overlaps}
use dumpulator.Memory.Manager.{Page, MemoryManager}
use dumpulator.Memory.Layout.{Layout, Layout-le, lookup_region, any_overlap}
use dumpulator.Memory.Valid.{IsValid, parent-IsFound, lookup_region_same}
use dumpulator.Memory.Query.{MemoryBasicInformation}
use dumpulator.Memory.Gaps.{ReportsGap}

-- What the manager has at a page with the state, the protection and the type of a report.
abbrev pub PageIs : MemoryState → MemoryProtect → MemoryType → MemoryManager → ℕ → Type 0
PageIs mem_free prot type m q = lookup_region m.regions q 0 ≡ none
PageIs mem_reserve prot type m q =
    (r : MemoryRegion) × ((lookup_region m.regions q 0 ≡ some r)
      × (r.type ≡ type)
      × (m.committed q ≡ none))
PageIs mem_commit prot type m q =
    (p : Page) × ((m.committed q ≡ some p) × (p.protect ≡ prot) × (p.type ≡ type))

-- A region without committed pages that has the address starts there.
abbrev pub IsBoundary : MemoryManager → ℕ → Type 0
IsBoundary m q =
    (r : MemoryRegion) → lookup_region m.regions q 0 ≡ some r → r.commit_count ≡ 0 → r.start ≡ q

-- The span [base, base + n): it is described page by page, and ends at a page or the maximum.
pub record IsTile (m : MemoryManager) (base n : ℕ) (info : MemoryBasicInformation) : Type 0 where
  pub at_base : info.base ≡ base
  pub sized : info.region_size ≡ pos n
  pub filled : 0 < n
  pub bounded : base + n ≤ m.maximum
  pub described :
      (q : ℕ)
      → q % page_size ≡ 0
      → base ≤ q
      → q < base + n
      → PageIs info.state info.protect info.type m q
  pub next_page : ((base + n) % page_size ≡ 0) ⊎ (base + n ≡ m.maximum)
  pub next_boundary : IsBoundary m (base + n)

lookup_region-below :
    (g hi : ℕ) (rs : List MemoryRegion) (lo start size : ℕ) (r : MemoryRegion)
    → Layout g lo hi rs
    → lookup_region rs start size ≡ some r
    → end r ≤ hi
unfolding lookup_region
lookup_region-below g hi [] lo start size r l e = absurd (ground (arith, e))
lookup_region-below g hi (x ∷ rs) lo start size r l e = elim (Bool-cases (contains x start size)) [
  | inl here ↦ ground (arith, Layout-le g hi rs (end x) l.5)
  | inr there ↦ lookup_region-below g hi rs (end x) start size r l.5 (rw there at e)
]

pub clear_lookup :
    (rs : List MemoryRegion) (q : ℕ) → any_overlap rs q 1 ≡ false → lookup_region rs q 0 ≡ none
unfolding lookup_region any_overlap contains overlaps
clear_lookup [] q h = refl
clear_lookup (r ∷ rs) q h = ground (arith, clear_lookup rs q)

module _ (m : MemoryManager) (v : IsValid m) where
  pub found_bounds :
      (q : ℕ) (r : MemoryRegion)
      → lookup_region m.regions q 0 ≡ some r
      → (r.start ≤ q) × (q < end r) × (end r ≤ m.maximum)
  unfolding contains
  found_bounds q r e =
      let f = parent-IsFound m v q 0 r e in
      let up = lookup_region-below m.granularity m.maximum m.regions m.minimum q 0 r v.layout e in
      ground (arith, f.inside, up)

  pub same_region :
      (q p : ℕ) (r : MemoryRegion)
      → lookup_region m.regions q 0 ≡ some r
      → r.start ≤ p
      → p < end r
      → lookup_region m.regions p 0 ≡ some r
  unfolding contains
  same_region q p r e lo up =
      lookup_region_same m.granularity m.maximum m.committed m.regions m.minimum q 0 p r v.layout
        v.counts e (ground arith)

  -- The page before an address in a region that starts before it
  page_before :
      (q : ℕ) (r : MemoryRegion)
      → q % page_size ≡ 0
      → lookup_region m.regions q 0 ≡ some r
      → r.start < q
      → lookup_region m.regions (q - page_size) 0 ≡ some r
  page_before q r paged e h =
      let f = parent-IsFound m v q 0 r e in
      let (lo, up, _) = found_bounds q r e in
      same_region q (q - page_size) r e (omega (arith, f.start_page, paged, h)) (omega (arith, up))

  -- Behind pages of a region with committed ones, or behind the whole region
  pub region-IsBoundary :
      (base n : ℕ) (r : MemoryRegion)
      → base % page_size ≡ 0
      → n % page_size ≡ 0
      → 0 < n
      → lookup_region m.regions base 0 ≡ some r
      → base + n ≤ end r
      → (0 < r.commit_count) ⊎ (base + n ≡ end r)
      → IsBoundary m (base + n)
  region-IsBoundary base n r a b filled e fits why x at empty =
      let (lo, up, _) = found_bounds (base + n) x at in
      let (lo', up', _) = found_bounds base r e in
      elim (Bool-cases (ltb x.start (base + n))) [
        | inr out ↦ ground (arith, lo, out)
        | inl low ↦
            let h : x.start < base + n = ground (arith, low) in
            let before = page_before (base + n) x (omega (arith, a, b)) at h in
            let before' =
              same_region base (base + n - page_size) r e (omega (arith, lo', a, b, filled))
                (omega (arith, fits, a, b, filled)) in
            let same : x ≡ r = ap (λ o. elim o [ none ↦ x | some y ↦ y ]) (sym before ∙ before') in
            absurd (elim why [
              | inl counted ↦
                  omega (arith, counted, empty, ap (λ (y : MemoryRegion). y.commit_count) same)
              | inr whole ↦ omega (arith, whole, up, ap (λ (y : MemoryRegion). end y) same)
            ])
      ]

  -- A gap ends at the maximum or where a region starts.
  pub gap-IsBoundary :
      (base n : ℕ) (info : MemoryBasicInformation)
      → base % page_size ≡ 0
      → ReportsGap m base n info
      → IsBoundary m (base + n)
  gap-IsBoundary base n info a gap x at empty =
      let (lo, up, top) = found_bounds (base + n) x at in
      elim (Bool-cases (ltb x.start (base + n))) [
        | inr out ↦ ground (arith, lo, out)
        | inl low ↦
            let h : base + n - 1 < base + n = omega (arith, gap.filled) in
            let before =
              same_region (base + n) (base + n - 1) x at (ground (arith, low))
                (omega (arith, up)) in
            let missing = clear_lookup m.regions (base + n - 1) (
              gap.clear (base + n - 1) 1 (omega (arith, gap.filled)) (omega arith)
                (omega (arith, gap.filled))) in
            absurd (ground (arith, sym before ∙ missing))
      ]
