-- ===== src/Memory/Range.antt =====
-- The page ranges that `commit`, `decommit` and `protect` accept, and their parent regions.
use dumpulator.Prelude.{
  ℕ, zero, suc, ◌+◌, ◌%◌, ◌≤◌, ◌<◌, ◌≡◌, refl, true, false, none, some, arith, is_some,
}
use dumpulator.Prelude.Dict.{Dict}
use dumpulator.Outcome.{ok, raise, key_error}
use dumpulator.Memory.Protect.{page_size}
use dumpulator.Memory.Region.{MemoryRegion, end, page_count, page_range, contains}
use dumpulator.Memory.Count.{in_range, in_range_bounds, in_range_intro, in_range_aligned}
use dumpulator.Memory.Manager.{Page, MemoryManager, find_region}
use dumpulator.Memory.Layout.{lookup_region, find_region-lookup_region}
use dumpulator.Memory.Commit.{find_parent, is_page_range, all_committed, none_committed}
use dumpulator.Memory.Valid.{IsValid, parent-IsFound}

-- The assertions hold exactly of a non-empty range of whole pages.
pub is_page_range_lem :
    (start size : ℕ)
    → is_page_range start size ≡ true
    → (0 < size) × (start % page_size ≡ 0) × (size % page_size ≡ 0)
unfolding is_page_range
is_page_range_lem start size h = ground arith

module _ (m : MemoryManager) (v : IsValid m) (start size : ℕ) where
  pub find_region-IsValid : find_region m.regions start size ≡ lookup_region m.regions start size
  find_region-IsValid =
      find_region-lookup_region m.granularity m.maximum m.regions m.minimum start size v.layout

  pub find_parent-none :
      lookup_region m.regions start size ≡ none → find_parent start size m ≡ raise key_error
  unfolding find_parent
  find_parent-none e = ground (arith, find_region-IsValid)

  module _ (r : MemoryRegion) (found : lookup_region m.regions start size ≡ some r) where
    pub find_parent-some : find_parent start size m ≡ ok r
    unfolding find_parent
    find_parent-some = ground (arith, find_region-IsValid)

    -- The pages of the range are pages of the parent region.
    pub parent_range :
        (q : ℕ)
        → is_page_range start size ≡ true
        → in_range q start (page_count size) ≡ true
        → in_range q r.start (page_count r.size) ≡ true
    unfolding contains
    parent_range q h e =
        let f = parent-IsFound m v start size r found in
        let (b, s, z) = is_page_range_lem start size h in
        let (lo, up) = in_range_bounds q start (page_count size) e in
        let (lo', up') : (r.start ≤ start) × (start + size ≤ end r) = ground (arith, f.inside) in
        in_range_intro q r.start (page_count r.size) f.start_page
          (in_range_aligned q start (page_count size) s e) (omega arith)
          (omega (arith, f.size_page))

module _ (c : Dict Page) where
  pub all_committed→present :
      (k page q : ℕ)
      → all_committed c (page_range page k) ≡ true
      → in_range q page k ≡ true
      → is_some (c q) ≡ true
  unfolding all_committed page_range in_range
  all_committed→present zero page q h e = cc
  all_committed→present (suc k) page q h e =
      ground (arith, all_committed→present k (page + page_size) q)

  pub present→all_committed :
      (k page : ℕ)
      → ((q : ℕ) → in_range q page k ≡ true → is_some (c q) ≡ true)
      → all_committed c (page_range page k) ≡ true
  unfolding all_committed page_range in_range
  present→all_committed zero page h = refl
  present→all_committed (suc k) page h =
      ground (
        arith,
        h page,
        present→all_committed k (page + page_size) (λ q e. h q (rw e (ground arith))),
      )

  pub absent→none_committed :
      (k page : ℕ)
      → ((q : ℕ) → in_range q page k ≡ true → is_some (c q) ≡ false)
      → none_committed c (page_range page k) ≡ true
  unfolding none_committed page_range in_range
  absent→none_committed zero page h = refl
  absent→none_committed (suc k) page h =
      ground (
        arith,
        h page,
        absent→none_committed k (page + page_size) (λ q e. h q (rw e (ground arith))),
      )
