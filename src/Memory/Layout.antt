-- ===== src/Memory/Layout.antt =====
-- The order of `_regions`: what the list looks like, and what the searches in it find.
use dumpulator.Prelude.{
  ℕ, zero, suc, ◌+◌, ◌%◌, ◌≤◌, ◌<◌, ◌≡◌, refl, inl, inr, Bool, Bool-cases, false, ◌||◌, Option,
  none, some, List, [], ◌∷◌, arith, ltb, if◌then◌else◌,
}
use dumpulator.Memory.Protect.{page_size}
use dumpulator.Memory.Region.{MemoryRegion, end, contains, overlaps, align_allocation}
use dumpulator.Memory.Bisect.{starts, bisect_right, rank, IsSorted, bisect_right-rank}
use dumpulator.Memory.Manager.{region_before, find_region, neighbours_overlap}

-- The regions lie in [lo, hi) in the order of their addresses and do not overlap. Each is not empty,
-- consists of whole pages, and starts at a multiple of the allocation granularity.
abbrev pub Layout : (granularity lo hi : ℕ) → List MemoryRegion → Type 0
Layout g lo hi [] = lo ≤ hi
Layout g lo hi (r ∷ rs) =
    (lo ≤ r.start)
    × (0 < r.size)
    × (r.start % page_size ≡ 0)
    × (r.size % page_size ≡ 0)
    × (align_allocation g r.start ≡ r.start)
    × Layout g (end r) hi rs

-- The first region that contains the range, by a walk over all regions.
unfoldable pub lookup_region : List MemoryRegion → (start size : ℕ) → Option MemoryRegion
lookup_region [] start size = none
lookup_region (r ∷ rs) start size =
    if contains r start size then some r else lookup_region rs start size

-- Whether any region overlaps the range.
unfoldable pub any_overlap : List MemoryRegion → (start size : ℕ) → Bool
any_overlap [] start size = false
any_overlap (r ∷ rs) start size = overlaps start size r || any_overlap rs start size

module _ (g hi : ℕ) where
  pub Layout-le : (rs : List MemoryRegion) (lo : ℕ) → Layout g lo hi rs → lo ≤ hi
  Layout-le [] lo l = l
  Layout-le (r ∷ rs) lo l = omega (arith, Layout-le rs (end r) l.5)

  pub Layout-weaken :
      (rs : List MemoryRegion) (lo lo' : ℕ) → lo' ≤ lo → Layout g lo hi rs → Layout g lo' hi rs
  Layout-weaken [] lo lo' h l = omega arith
  Layout-weaken (r ∷ rs) lo lo' h l = (omega arith, l.1, l.2, l.3, l.4, l.5)

  Layout-IsSorted :
      (rs : List MemoryRegion) (lo b : ℕ) → b ≤ lo → Layout g lo hi rs → IsSorted b (starts rs)
  Layout-IsSorted [] lo b h l = tt
  Layout-IsSorted (r ∷ rs) lo b h l =
      (omega arith, Layout-IsSorted rs (end r) r.start (omega arith) l.5)

  pub bisect_right-Layout :
      (rs : List MemoryRegion) (lo start : ℕ)
      → Layout g lo hi rs
      → bisect_right rs start ≡ rank (starts rs) start
  bisect_right-Layout rs lo start l =
      bisect_right-rank rs lo start (Layout-IsSorted rs lo lo (omega arith) l)

  -- Nothing lies in front of the first region.
  lookup_region-below :
      (rs : List MemoryRegion) (lo start size : ℕ)
      → Layout g lo hi rs
      → start < lo
      → lookup_region rs start size ≡ none
  unfolding lookup_region contains
  lookup_region-below [] lo start size l h = refl
  lookup_region-below (r ∷ rs) lo start size l h =
      ground (arith, lookup_region-below rs (end r) start size l.5)

  pub any_overlap-below :
      (rs : List MemoryRegion) (lo start size : ℕ)
      → Layout g lo hi rs
      → 0 < size
      → start + size ≤ lo
      → any_overlap rs start size ≡ false
  unfolding any_overlap overlaps
  any_overlap-below [] lo start size l h p = refl
  any_overlap-below (r ∷ rs) lo start size l h p =
      ground (arith, any_overlap-below rs (end r) start size l.5)

  rank-pos :
      (rs : List MemoryRegion) (lo start i : ℕ)
      → Layout g lo hi rs
      → rank (starts rs) start ≡ suc i
      → lo ≤ start
  unfolding rank
  rank-pos [] lo start i l e = absurd (omega arith)
  rank-pos (r ∷ rs) lo start i l e = ground arith

  find-cons :
      (r : MemoryRegion) (rs : List MemoryRegion) (start size k : ℕ)
      → ((i : ℕ) → k ≡ suc i → end r ≤ start)
      → region_before rs k start size ≡ lookup_region rs start size
      → region_before (r ∷ rs) (suc k) start size ≡ lookup_region (r ∷ rs) start size
  unfolding region_before lookup_region contains
  find-cons r rs start size zero h e = ground arith
  find-cons r rs start size (suc i) h e = ground (arith, h i refl)

  region_before-rank :
      (rs : List MemoryRegion) (lo start size : ℕ)
      → Layout g lo hi rs
      → region_before rs (rank (starts rs) start) start size ≡ lookup_region rs start size
  unfolding rank
  region_before-rank [] lo start size l = unfold region_before lookup_region in refl
  region_before-rank (r ∷ rs) lo start size l = elim (Bool-cases (ltb start r.start)) [
    | inl below ↦ rw below (
        unfold region_before lookup_region contains in
        ground (arith, lookup_region-below rs (end r) start size l.5))
    | inr above ↦ rw above (
        find-cons r rs start size (rank (starts rs) start)
          (λ i e. rank-pos rs (end r) start i l.5 e) (region_before-rank rs (end r) start size l.5))
  ]

  -- On a list with the layout, `find_region` finds what a walk over all regions finds.
  pub find_region-lookup_region :
      (rs : List MemoryRegion) (lo start size : ℕ)
      → Layout g lo hi rs
      → find_region rs start size ≡ lookup_region rs start size
  unfolding find_region
  find_region-lookup_region rs lo start size l =
      rw (bisect_right-Layout rs lo start l) (region_before-rank rs lo start size l)

  overlap-cons :
      (r : MemoryRegion) (rs : List MemoryRegion) (start size k : ℕ)
      → 0 < size
      → 0 < r.size
      → r.start ≤ start
      → ((i : ℕ) → k ≡ suc i → end r ≤ start)
      → neighbours_overlap rs start size k ≡ any_overlap rs start size
      → neighbours_overlap (r ∷ rs) start size (suc k) ≡ any_overlap (r ∷ rs) start size
  unfolding neighbours_overlap any_overlap overlaps
  overlap-cons r rs start size zero p s q h e = ground arith
  overlap-cons r rs start size (suc i) p s q h e = ground (arith, h i refl)

  neighbours_overlap-rank :
      (rs : List MemoryRegion) (lo start size : ℕ)
      → 0 < size
      → Layout g lo hi rs
      → neighbours_overlap rs start size (rank (starts rs) start) ≡ any_overlap rs start size
  unfolding rank
  neighbours_overlap-rank [] lo start size p l = unfold neighbours_overlap any_overlap in refl
  neighbours_overlap-rank (r ∷ rs) lo start size p l = elim (Bool-cases (ltb start r.start)) [
    | inl below ↦ rw below (
        unfold neighbours_overlap any_overlap overlaps in
        ground (arith, any_overlap-below rs (end r) start size l.5))
    | inr above ↦ rw above (
        overlap-cons r rs start size (rank (starts rs) start) p l.1 (ground arith)
          (λ i e. rank-pos rs (end r) start i l.5 e)
          (neighbours_overlap-rank rs (end r) start size p l.5))
  ]

  -- On a list with the layout, the neighbours overlap exactly when some region does.
  pub neighbours_overlap-any_overlap :
      (rs : List MemoryRegion) (lo start size : ℕ)
      → 0 < size
      → Layout g lo hi rs
      → neighbours_overlap rs start size (bisect_right rs start) ≡ any_overlap rs start size
  neighbours_overlap-any_overlap rs lo start size p l =
      rw (bisect_right-Layout rs lo start l) (neighbours_overlap-rank rs lo start size p l)
