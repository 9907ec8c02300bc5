-- ===== src/Memory/Torn.antt =====
-- The manager in the middle of `release`: the parent region is out of the list, and a range of
-- addresses waits for the parts that are reserved again.
use dumpulator.Prelude.{
  ℕ, zero, suc, ◌+◌, ◌%◌, ◌≤◌, ◌<◌, ◌≡◌, refl, ◌∙◌, Bool-cases, true, false, ◌&&◌, none, some, List,
  [], ◌∷◌, arith, inl, inr, ◌⊎◌, if◌then◌else◌, is_some, ltb, leb, insert_at,
}
use native.Mathlib.Decide.{dec_lt}
use dumpulator.Prelude.Dict.{Dict}
use dumpulator.Outcome.{Result, ok, gets, modify, ◌>>=◌, ◌>>◌, pure}
use dumpulator.Memory.Protect.{page_size, MemoryType}
use dumpulator.Memory.Region.{
  MemoryRegion, end, page_count, page_range, pages, contains, overlaps, align_allocation,
}
use dumpulator.Memory.Bisect.{bisect_right}
use dumpulator.Memory.Count.{count}
use dumpulator.Memory.Manager.{Page, MemoryManager, reserve}
use dumpulator.Memory.Layout.{Layout, lookup_region, any_overlap}
use dumpulator.Memory.Insert.{lookup_region-insert_at}
use dumpulator.Memory.Commit.{set_count}
use dumpulator.Memory.Release.{recount, reserve_part}
use dumpulator.Memory.Ledger.{IsSynced}
use dumpulator.Memory.Valid.{IsValid, Homed, Counts, type_of}
use dumpulator.Memory.Reserving.{
  new_region, with_region, may_reserve, blocked, reserve_free, with_region-Layout, Counts-insert_at,
}

recount-count :
    (c : Dict Page) (k page n : ℕ) → recount (page_range page k) c n ≡ n + count c page k
unfolding recount count page_range
recount-count c zero page n = omega arith
recount-count c (suc k) page n =
    ground
      (arith, recount-count c k (page + page_size) n, recount-count c k (page + page_size) (n + 1))

-- The region that was inserted is the one whose count is set.
set_count-insert_at :
    (g hi : ℕ) (rs : List MemoryRegion) (lo i n : ℕ) (x : MemoryRegion)
    → Layout g lo hi rs
    → 0 < x.size
    → any_overlap rs x.start x.size ≡ false
    → set_count x.start n (insert_at i x rs) ≡ insert_at i (record x { commit_count = n }) rs
unfolding set_count any_overlap overlaps
set_count-insert_at g hi [] lo zero n x l p e = ground arith
set_count-insert_at g hi [] lo (suc i) n x l p e = ground arith
set_count-insert_at g hi (r ∷ rs) lo zero n x l p e = ground arith
set_count-insert_at g hi (r ∷ rs) lo (suc i) n x l p e =
    ground (arith, set_count-insert_at g hi rs (end r) i n x l.5)

any_overlap-insert_at :
    (rs : List MemoryRegion) (i : ℕ) (x : MemoryRegion) (start size : ℕ)
    → overlaps start size x ≡ false
    → any_overlap rs start size ≡ false
    → any_overlap (insert_at i x rs) start size ≡ false
unfolding any_overlap
any_overlap-insert_at rs zero x start size e h = ground arith
any_overlap-insert_at [] (suc i) x start size e h = ground arith
any_overlap-insert_at (r ∷ rs) (suc i) x start size e h =
    ground (arith, any_overlap-insert_at rs i x start size)

-- Everything holds but that the committed pages in [a, b) lie in a region; they have type `t`.
pub record IsTorn (t : MemoryType) (a b : ℕ) (m : MemoryManager) : Type 0 where
  pub layout : Layout m.granularity m.minimum m.maximum m.regions
  pub counts : Counts m.committed m.regions
  pub synced : IsSynced m.calls m.committed
  pub above : m.minimum ≤ a
  pub below : b ≤ m.maximum
  pub homed :
      (q : ℕ) → (q < a) ⊎ (b ≤ q) → Homed q (m.committed q) (type_of (lookup_region m.regions q 0))
  pub torn : (q : ℕ) → a ≤ q → q < b → Homed q (m.committed q) (some t)
  pub clear :
      (start size : ℕ)
      → a ≤ start
      → start + size ≤ b
      → 0 < size
      → any_overlap m.regions start size ≡ false

-- Nothing waits any more.
pub IsTorn-IsValid : (t : MemoryType) (a : ℕ) (m : MemoryManager) → IsTorn t a a m → IsValid m
IsTorn-IsValid t a m h = record {
  layout = h.layout;
  counts = h.counts;
  homed = λ q. h.homed q (omega arith);
  synced = h.synced;
}

-- The front of the range may be given up, if none of its pages is committed.
pub IsTorn-skip :
    (t : MemoryType) (a a' b : ℕ) (m : MemoryManager)
    → a ≤ a'
    → ((q : ℕ) → a ≤ q → q < a' → m.committed q ≡ none)
    → IsTorn t a b m
    → IsTorn t a' b m
IsTorn-skip t a a' b m le free h = record {
  layout = h.layout;
  counts = h.counts;
  synced = h.synced;
  above = omega (arith, h.above);
  below = h.below;
  homed = λ q side. skipped q side (dec_lt q a) (dec_lt q a');
  torn = λ q p. h.torn q (omega arith);
  clear = λ start size p. h.clear start size (omega arith);
}
  where
    skipped :
        (q : ℕ)
        → (q < a') ⊎ (b ≤ q)
        → Dec (q < a)
        → Dec (q < a')
        → Homed q (m.committed q) (type_of (lookup_region m.regions q 0))
    skipped q side (yes p) d = h.homed q (inl p)
    skipped q side (no n) (yes p) = rw (free q (omega arith) p) tt
    skipped q side (no n) (no k) = h.homed q (inr (omega arith))

reserve_part_nonempty :
    (r : MemoryRegion) (a size : ℕ) (m : MemoryManager)
    → 0 < size
    → reserve_part r a size m
      ≡ (do
        reserve a size r.protect r.type r.info
        n ← gets (λ m. recount (pages a size) m.committed 0)
        modify (λ m. record m { regions = set_count a n m.regions })
        pure n)
          m
unfolding reserve_part
reserve_part_nonempty r a zero m h = absurd (omega arith)
reserve_part_nonempty r a (suc k) m h = refl

-- A part of the parent `r`, with the pages that are committed in it, may be reserved at the front.
module _ (r : MemoryRegion) (a b size : ℕ) (m : MemoryManager) (h : IsTorn r.type a b m)
    (fits : a + size ≤ b) (aligned : align_allocation m.granularity a ≡ a)
    (start_page : a % page_size ≡ 0) (size_page : size % page_size ≡ 0) (filled : 0 < size) where
  abbrev part_count : ℕ
  part_count = count m.committed a (page_count size)

  abbrev region : MemoryRegion
  region = new_region a size r.protect r.type r.info

  abbrev part : MemoryRegion
  part = record region { commit_count = part_count }

  overlaps_none : any_overlap m.regions a size ≡ false
  overlaps_none = h.clear a size (omega arith) fits filled

  allowed : may_reserve m.granularity a size ≡ true
  allowed = ground arith

  unblocked : blocked a size m ≡ false
  unblocked = ground (arith, overlaps_none, h.above, h.below)

  filled_homed :
      (q : ℕ)
      → (q < a + size) ⊎ (b ≤ q)
      → lookup_region (with_region part m).regions q 0
        ≡ (if contains part q 0 then some part else lookup_region m.regions q 0)
      → Homed q (m.committed q) (type_of (lookup_region (with_region part m).regions q 0))
  filled_homed q side e = rw e (elim (Bool-cases (contains part q 0)) [
    | inl in_it ↦
        rw in_it (h.torn q (unfold contains in ground arith) (unfold contains in ground arith))
    | inr out ↦ rw out (h.homed q (outside q side out))
  ])
    where
      outside : (q : ℕ) → (q < a + size) ⊎ (b ≤ q) → contains part q 0 ≡ false → (q < a) ⊎ (b ≤ q)
      outside q side out = unfold contains in ground arith

  filled-IsTorn : IsTorn r.type (a + size) b (with_region part m)
  filled-IsTorn = record {
    layout =
        with_region-Layout m a size r.protect r.type r.info h.layout allowed part refl refl
          unblocked;
    counts = Counts-insert_at m.committed m.regions (bisect_right m.regions a) part refl h.counts;
    synced = h.synced;
    above = omega (arith, h.above);
    below = h.below;
    homed = λ q side. filled_homed q side (
        lookup_region-insert_at m.regions (bisect_right m.regions a) part q 0 overlaps_none filled);
    torn = λ q p. h.torn q (omega arith);
    clear = λ start size' p p' f.
        any_overlap-insert_at m.regions (bisect_right m.regions a) part start size'
          (unfold overlaps in ground arith) (h.clear start size' (omega arith) p' f);
  }

  part_found :
      (q : ℕ)
      → is_some (lookup_region (with_region part m).regions q 0)
        ≡ (if leb a q && ltb q (a + size) then true else is_some (lookup_region m.regions q 0))
  part_found q =
      rw
        (lookup_region-insert_at m.regions (bisect_right m.regions a) part q 0 overlaps_none filled)
        (unfold contains in ground arith)

  counted_part :
      set_count a part_count (with_region region m).regions ≡ (with_region part m).regions
  counted_part =
      set_count-insert_at m.granularity m.maximum m.regions m.minimum (bisect_right m.regions a)
        part_count region h.layout filled overlaps_none

  recounted : recount (pages a size) m.committed 0 ≡ part_count
  unfolding pages
  recounted = omega (arith, recount-count m.committed (page_count size) a 0)

  reserve_part_filled : reserve_part r a size m ≡ (ok part_count, with_region part m)
  reserve_part_filled =
      reserve_part_nonempty r a size m filled
      ∙ rw
          (
            reserve_free m a size r.protect r.type r.info h.layout allowed unblocked,
            recounted,
            counted_part,
          )
          refl

-- The outcome of `reserve_part`: it returns the number of committed pages of the part, and the part
-- does not wait any more.
abbrev pub Fills :
    (t : MemoryType) (a b size : ℕ) (m : MemoryManager) → Result ℕ × MemoryManager → Type 0
Fills t a b size m o =
    (m' : MemoryManager) × (o ≡ (ok (count m.committed a (page_count size)), m'))
    × IsTorn t (a + size) b m'
    × (m'.committed ≡ m.committed)
    × (m'.granularity ≡ m.granularity)
    × ((q : ℕ)
        → is_some (lookup_region m'.regions q 0)
          ≡ (if leb a q && ltb q (a + size) then true else is_some (lookup_region m.regions q 0)))

pub reserve_part-Fills :
    (r : MemoryRegion) (a b size : ℕ) (m : MemoryManager)
    → IsTorn r.type a b m
    → a + size ≤ b
    → (0 < size → align_allocation m.granularity a ≡ a)
    → a % page_size ≡ 0
    → size % page_size ≡ 0
    → Fills r.type a b size m (reserve_part r a size m)
unfolding reserve_part
reserve_part-Fills r a b zero m h fits aligned s z =
    let e : a + 0 ≡ a = omega arith in
    (m, unfold count in refl, rw e h, refl, refl, λ q. ground arith)
reserve_part-Fills r a b (suc k) m h fits aligned s z =
    let filled : 0 < suc k = omega arith in
    (
      with_region (part r a b (suc k) m h fits (aligned filled) s z filled) m,
      reserve_part_filled r a b (suc k) m h fits (aligned filled) s z filled,
      filled-IsTorn r a b (suc k) m h fits (aligned filled) s z filled,
      refl,
      refl,
      part_found r a b (suc k) m h fits (aligned filled) s z filled,
    )
