-- ===== src/Memory/Valid.antt =====
-- The invariant of `MemoryManager`, and how it stands when a ledger is closed.
use dumpulator.Prelude.{
  ℕ, ◌%◌, ◌≤◌, ◌<◌, ◌≡◌, refl, sym, ◌∙◌, ap, Bool-cases, true, false, Option, none, some, List, [],
  ◌∷◌, arith, inl, inr, ◌==◌, is_some,
}
use dumpulator.Prelude.Dict.{Dict}
use dumpulator.Memory.Protect.{page_size, MemoryType}
use dumpulator.Memory.Region.{MemoryRegion, end, page_count, contains, align_allocation}
use dumpulator.Memory.Count.{in_range, in_range_below, in_range_bounds, count, count_cong}
use dumpulator.Memory.Manager.{Page, MemoryManager}
use dumpulator.Memory.Layout.{Layout, lookup_region}
use dumpulator.Memory.Commit.{Ledger, set_count, close_ledger}
use dumpulator.Memory.Ledger.{IsSynced, IsSound}

-- `commit_count` of every region is the number of its committed pages.
abbrev pub Counts : Dict Page → List MemoryRegion → Type 0
Counts c [] = Unit {0}
Counts c (r ∷ rs) = (r.commit_count ≡ count c r.start (page_count r.size)) × Counts c rs

-- A committed page lies in a region and has its type.
abbrev pub Homed : (page : ℕ) → Option Page → Option MemoryType → Type 0
Homed page none t = Unit {0}
Homed page (some p) none = ⊥
Homed page (some p) (some t) = (page % page_size ≡ 0) × (p.type ≡ t)

abbrev pub type_of : Option MemoryRegion → Option MemoryType
type_of none = none
type_of (some r) = some r.type

pub record IsValid (m : MemoryManager) : Type 0 where
  pub layout : Layout m.granularity m.minimum m.maximum m.regions
  pub counts : Counts m.committed m.regions
  pub homed : (q : ℕ) → Homed q (m.committed q) (type_of (lookup_region m.regions q 0))
  pub synced : IsSynced m.calls m.committed

-- What is known of a region that a lookup returns.
pub record IsFound (g lo : ℕ) (c : Dict Page) (r : MemoryRegion) (start size : ℕ) : Type 0 where
  pub above : lo ≤ r.start
  pub filled : 0 < r.size
  pub start_page : r.start % page_size ≡ 0
  pub size_page : r.size % page_size ≡ 0
  pub aligned : align_allocation g r.start ≡ r.start
  pub inside : contains r start size ≡ true
  pub counted : r.commit_count ≡ count c r.start (page_count r.size)

module _ (g hi : ℕ) (c : Dict Page) where
  pub lookup_region-IsFound :
      (rs : List MemoryRegion) (lo start size : ℕ) (r : MemoryRegion)
      → Layout g lo hi rs
      → Counts c rs
      → lookup_region rs start size ≡ some r
      → IsFound g lo c r start size
  unfolding lookup_region
  lookup_region-IsFound [] lo start size r l k e = cc
  lookup_region-IsFound (x ∷ rs) lo start size r l k e = elim (Bool-cases (contains x start size)) [
    | inl here ↦ ground arith
    | inr there ↦
        let f = lookup_region-IsFound rs (end x) start size r l.5 k.1 (rw there at e) in
        record {
          above = omega arith;
          filled = f.filled;
          start_page = f.start_page;
          size_page = f.size_page;
          aligned = f.aligned;
          inside = f.inside;
          counted = f.counted;
        }
  ]

  -- Two lookups that hit a common byte find the same region.
  pub lookup_region_same :
      (rs : List MemoryRegion) (lo start size q : ℕ) (r : MemoryRegion)
      → Layout g lo hi rs
      → Counts c rs
      → lookup_region rs start size ≡ some r
      → contains r q 0 ≡ true
      → lookup_region rs q 0 ≡ some r
  unfolding lookup_region contains
  lookup_region_same [] lo start size q r l k e h = cc
  lookup_region_same (x ∷ rs) lo start size q r l k e h =
      elim (Bool-cases (contains x start size)) [
        | inl here ↦ ground arith
        | inr there ↦
            let f = lookup_region-IsFound rs (end x) start size r l.5 k.1 (rw there at e) in
            let ih = lookup_region_same rs (end x) start size q r l.5 k.1 (rw there at e) h in
            ground (arith, f.above)
      ]

-- Past the end of a region there is none of its pages.
past : (r : MemoryRegion) (q : ℕ) → end r ≤ q → in_range q r.start (page_count r.size) ≡ false
past r q h = elim (Bool-cases (in_range q r.start (page_count r.size))) [
  | inl e ↦ absurd (omega (arith, in_range_bounds q r.start (page_count r.size) e))
  | inr e ↦ e
]

Counts-above :
    (g hi : ℕ) (c d : Dict Page) (rs : List MemoryRegion) (lo : ℕ)
    → Layout g lo hi rs
    → ((q : ℕ) → lo ≤ q → is_some (c q) ≡ is_some (d q))
    → Counts c rs
    → Counts d rs
Counts-above g hi c d [] lo l h k = tt
Counts-above g hi c d (r ∷ rs) lo l h k = (
  k.0
      ∙ count_cong c d r.start (page_count r.size)
          (λ q e. h q (omega (arith, (in_range_bounds q r.start (page_count r.size) e)))),
  Counts-above g hi c d rs (end r) l.5 (λ q e. h q (omega arith)) k.1,
)

module _ (g hi : ℕ) (c d : Dict Page) (start size : ℕ) (r : MemoryRegion)
    (same : (q : ℕ)
      → in_range q r.start (page_count r.size) ≡ false
      → is_some (c q) ≡ is_some (d q)) where
  pub Counts-set_count :
      (rs : List MemoryRegion) (lo : ℕ)
      → Layout g lo hi rs
      → Counts c rs
      → lookup_region rs start size ≡ some r
      → Counts d (set_count r.start (count d r.start (page_count r.size)) rs)
  unfolding lookup_region set_count
  Counts-set_count [] lo l k e = tt
  Counts-set_count (x ∷ rs) lo l k e = elim (Bool-cases (contains x start size)) [
    | inl here ↦
        let head : x ≡ r = ground arith in
        let e' : (x.start == r.start) ≡ true = ground arith in
        rw e' (
          ap (λ (y : MemoryRegion). count d y.start (page_count y.size)) (sym head),
          Counts-above g hi c d rs (end x) l.5 (λ q p. same q (past r q (rw head at p))) k.1,
        )
    | inr there ↦
        let tail : lookup_region rs start size ≡ some r = rw there at e in
        let f = lookup_region-IsFound g hi c rs (end x) start size r l.5 k.1 tail in
        let e' : (x.start == r.start) ≡ false = ground (arith, f.above) in
        rw e' (
          k.0
              ∙ count_cong c d x.start (page_count x.size) (λ q p. same q (
                  in_range_below q r.start (page_count r.size) (
                    omega (arith, f.above, l.3, in_range_bounds q x.start (page_count x.size) p)))),
          Counts-set_count rs (end x) l.5 k.1 tail,
        )
  ]

pub Layout-set_count :
    (g hi start n : ℕ) (rs : List MemoryRegion) (lo : ℕ)
    → Layout g lo hi rs
    → Layout g lo hi (set_count start n rs)
unfolding set_count
Layout-set_count g hi start n [] lo l = l
Layout-set_count g hi start n (r ∷ rs) lo l =
    ground (arith, Layout-set_count g hi start n rs (end r) l.5)

pub type_of-set_count :
    (start n : ℕ) (rs : List MemoryRegion) (q size : ℕ)
    → type_of (lookup_region (set_count start n rs) q size) ≡ type_of (lookup_region rs q size)
unfolding set_count lookup_region contains
type_of-set_count start n [] q size = refl
type_of-set_count start n (r ∷ rs) q size = ground (arith, type_of-set_count start n rs q size)

-- The pages of a region are those that lie in it.
pub in_range-contains :
    (r : MemoryRegion) (q : ℕ)
    → in_range q r.start (page_count r.size) ≡ true
    → contains r q 0 ≡ true
unfolding contains
in_range-contains r q h = ground (arith, in_range_bounds q r.start (page_count r.size) h)

module _ (m : MemoryManager) (v : IsValid m) (start size : ℕ) (r : MemoryRegion)
    (found : lookup_region m.regions start size ≡ some r) where
  pub parent-IsFound : IsFound m.granularity m.minimum m.committed r start size
  parent-IsFound =
      lookup_region-IsFound m.granularity m.maximum m.committed m.regions m.minimum start size r
        v.layout v.counts found

  -- The pages of the region that are committed have its type.
  pub parent_homed :
      (q : ℕ)
      → in_range q r.start (page_count r.size) ≡ true
      → Homed q (m.committed q) (some r.type)
  parent_homed q e =
      rw
        (lookup_region_same m.granularity m.maximum m.committed m.regions m.minimum start size q r
          v.layout v.counts found (in_range-contains r q e))
        at (v.homed q)

  -- A sound ledger that changes no page of another region may be closed.
  pub close_ledger-IsValid :
      (l : Ledger)
      → IsSound r.start (page_count r.size) l
      → ((q : ℕ) → in_range q r.start (page_count r.size) ≡ false → l.committed q ≡ m.committed q)
      → ((q : ℕ)
          → in_range q r.start (page_count r.size) ≡ true
          → Homed q (l.committed q) (some r.type))
      → IsValid (close_ledger r.start l m)
  unfolding close_ledger
  close_ledger-IsValid l s outside inside = record {
    layout =
        Layout-set_count m.granularity m.maximum r.start l.commit_count m.regions m.minimum
          v.layout;
    counts = rw s.counted (
        Counts-set_count m.granularity m.maximum m.committed l.committed start size r
          (λ q e. ap is_some (sym (outside q e))) m.regions m.minimum v.layout v.counts found);
    homed = λ q.
        rw (type_of-set_count r.start l.commit_count m.regions q 0)
          (elim (Bool-cases (in_range q r.start (page_count r.size))) [
            | inl e ↦
                rw
                  (lookup_region_same m.granularity m.maximum m.committed m.regions m.minimum start
                    size q r v.layout v.counts found (in_range-contains r q e))
                  (inside q e)
            | inr e ↦ rw (outside q e) (v.homed q)
          ]);
    synced = s.synced;
  }
