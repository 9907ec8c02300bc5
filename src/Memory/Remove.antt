-- ===== src/Memory/Remove.antt =====
-- Taking the parent region out of the list.
use dumpulator.Prelude.{
  ℕ, ◌+◌, ◌≤◌, ◌<◌, ◌≡◌, refl, Bool-cases, false, some, List, [], ◌∷◌, arith, inl, inr, ◌⊎◌, ◌==◌,
}
use dumpulator.Prelude.Dict.{Dict}
use dumpulator.Memory.Region.{MemoryRegion, end, contains, overlaps}
use dumpulator.Memory.Manager.{Page}
use dumpulator.Memory.Layout.{
  Layout, lookup_region, any_overlap, Layout-le, Layout-weaken, any_overlap-below,
}
use dumpulator.Memory.Commit.{set_count}
use dumpulator.Memory.Release.{remove_region}
use dumpulator.Memory.Valid.{Counts, lookup_region-IsFound}

pub remove_region-set_count :
    (start n : ℕ) (rs : List MemoryRegion)
    → remove_region start (set_count start n rs) ≡ remove_region start rs
unfolding remove_region set_count
remove_region-set_count start n [] = refl
remove_region-set_count start n (r ∷ rs) = ground (arith, remove_region-set_count start n rs)

pub Counts-remove_region :
    (c : Dict Page) (start : ℕ) (rs : List MemoryRegion)
    → Counts c rs
    → Counts c (remove_region start rs)
unfolding remove_region
Counts-remove_region c start [] k = tt
Counts-remove_region c start (r ∷ rs) k = elim (Bool-cases (r.start == start)) [
  | inl here ↦ rw here k.1
  | inr other ↦ rw other (k.0, Counts-remove_region c start rs k.1)
]

module _ (g hi : ℕ) where
  pub Layout-remove_region :
      (start : ℕ) (rs : List MemoryRegion) (lo : ℕ)
      → Layout g lo hi rs
      → Layout g lo hi (remove_region start rs)
  unfolding remove_region
  Layout-remove_region start [] lo l = l
  Layout-remove_region start (r ∷ rs) lo l = elim (Bool-cases (r.start == start)) [
    | inl here ↦ rw here (Layout-weaken g hi rs (end r) lo (omega arith) l.5)
    | inr other ↦ rw other (l.0, l.1, l.2, l.3, l.4, Layout-remove_region start rs (end r) l.5)
  ]

  module _ (c : Dict Page) (start size : ℕ) (r : MemoryRegion) where
    pub found-below :
        (rs : List MemoryRegion) (lo : ℕ)
        → Layout g lo hi rs
        → lookup_region rs start size ≡ some r
        → end r ≤ hi
    unfolding lookup_region
    found-below [] lo l e = cc
    found-below (x ∷ rs) lo l e = elim (Bool-cases (contains x start size)) [
      | inl here ↦ ground (arith, Layout-le g hi rs (end x) l.5)
      | inr there ↦ found-below rs (end x) l.5 (rw there at e)
    ]

    -- Outside the removed region the lookups find what they found.
    pub lookup_region-remove_region :
        (rs : List MemoryRegion) (lo q : ℕ)
        → Layout g lo hi rs
        → Counts c rs
        → lookup_region rs start size ≡ some r
        → (q < r.start) ⊎ (end r ≤ q)
        → lookup_region (remove_region r.start rs) q 0 ≡ lookup_region rs q 0
    unfolding lookup_region remove_region
    lookup_region-remove_region [] lo q l k e side = cc
    lookup_region-remove_region (x ∷ rs) lo q l k e side =
        elim (Bool-cases (contains x start size)) [
          | inl here ↦ unfold contains in ground arith
          | inr there ↦
              let tail : lookup_region rs start size ≡ some r = rw there at e in
              let f = lookup_region-IsFound g hi c rs (end x) start size r l.5 k.1 tail in
              ground (arith, f.above, lookup_region-remove_region rs (end x) q l.5 k.1 tail side)
        ]

    -- No other region lies in the place of the removed one.
    pub any_overlap-remove_region :
        (rs : List MemoryRegion) (lo start' size' : ℕ)
        → Layout g lo hi rs
        → Counts c rs
        → lookup_region rs start size ≡ some r
        → r.start ≤ start'
        → start' + size' ≤ end r
        → 0 < size'
        → any_overlap (remove_region r.start rs) start' size' ≡ false
    unfolding lookup_region remove_region any_overlap overlaps
    any_overlap-remove_region [] lo start' size' l k e a b p = cc
    any_overlap-remove_region (x ∷ rs) lo start' size' l k e a b p =
        elim (Bool-cases (contains x start size)) [
          | inl here ↦ ground (arith, any_overlap-below g hi rs (end x) start' size' l.5)
          | inr there ↦
              let tail : lookup_region rs start size ≡ some r = rw there at e in
              let f = lookup_region-IsFound g hi c rs (end x) start size r l.5 k.1 tail in
              ground
                (arith, f.above, any_overlap-remove_region rs (end x) start' size' l.5 k.1 tail)
        ]
