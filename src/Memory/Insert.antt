-- ===== src/Memory/Insert.antt =====
-- Inserting a region at the place that `bisect_right` gives, and what the lookups find afterwards.
use dumpulator.Prelude.{
  ℕ, zero, suc, ◌%◌, ◌≤◌, ◌<◌, ◌≡◌, refl, Bool-cases, false, inl, inr, some, List, [], ◌∷◌, arith,
  ltb, if◌then◌else◌, insert_at,
}
use dumpulator.Memory.Protect.{page_size}
use dumpulator.Memory.Region.{MemoryRegion, end, contains, overlaps, align_allocation}
use dumpulator.Memory.Bisect.{starts, bisect_right, rank}
use dumpulator.Memory.Layout.{Layout, lookup_region, any_overlap, bisect_right-Layout}

-- What `reserve` checks of a region.
pub record IsPlaced (g lo hi : ℕ) (r : MemoryRegion) : Type 0 where
  pub above : lo ≤ r.start
  pub below : end r ≤ hi
  pub filled : 0 < r.size
  pub start_page : r.start % page_size ≡ 0
  pub size_page : r.size % page_size ≡ 0
  pub aligned : align_allocation g r.start ≡ r.start

module _ (g hi : ℕ) where
  insert-rank-Layout :
      (rs : List MemoryRegion) (lo : ℕ) (x : MemoryRegion)
      → IsPlaced g lo hi x
      → Layout g lo hi rs
      → any_overlap rs x.start x.size ≡ false
      → Layout g lo hi (insert_at (rank (starts rs) x.start) x rs)
  unfolding rank any_overlap overlaps
  insert-rank-Layout [] lo x p l e = omega (arith, p.above, p.below, p.filled)
  insert-rank-Layout (r ∷ rs) lo x p l e = elim (Bool-cases (ltb x.start r.start)) [
    | inl before ↦ rw before (ground arith)
    | inr after ↦ rw after (
      l.0,
      l.1,
      l.2,
      l.3,
      l.4,
      insert-rank-Layout rs (end r) x
          (record {
            above = ground arith;
            below = p.below;
            filled = p.filled;
            start_page = p.start_page;
            size_page = p.size_page;
            aligned = p.aligned;
          })
          l.5 (ground arith),
    )
  ]

  -- A region that overlaps none may be inserted.
  pub insert-Layout :
      (rs : List MemoryRegion) (lo : ℕ) (x : MemoryRegion)
      → IsPlaced g lo hi x
      → Layout g lo hi rs
      → any_overlap rs x.start x.size ≡ false
      → Layout g lo hi (insert_at (bisect_right rs x.start) x rs)
  insert-Layout rs lo x p l e =
      rw (bisect_right-Layout g hi rs lo x.start l) (insert-rank-Layout rs lo x p l e)

-- Inserting adds the region to what a walk over the list finds, and takes nothing away.
pub lookup_region-insert_at :
    (rs : List MemoryRegion) (i : ℕ) (x : MemoryRegion) (start size : ℕ)
    → any_overlap rs x.start x.size ≡ false
    → 0 < x.size
    → lookup_region (insert_at i x rs) start size
      ≡ (if contains x start size then some x else lookup_region rs start size)
unfolding lookup_region any_overlap overlaps contains
lookup_region-insert_at [] zero x start size e p = refl
lookup_region-insert_at [] (suc i) x start size e p = refl
lookup_region-insert_at (r ∷ rs) zero x start size e p = refl
lookup_region-insert_at (r ∷ rs) (suc i) x start size e p =
    ground (arith, lookup_region-insert_at rs i x start size)
