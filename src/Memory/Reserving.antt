-- ===== src/Memory/Reserving.antt =====
-- `reserve`: what it does, on every branch.
use dumpulator.Prelude.{
  ℕ, zero, suc, ◌+◌, ◌≤◌, ◌<◌, ◌≡◌, refl, sym, Bool, Bool-cases, and_true, or_false, true, false,
  ◌&&◌, ◌||◌, Option, none, some, List, [], ◌∷◌, arith, inl, inr, ◌==◌, if◌then◌else◌, ltb,
  insert_at,
}
use dumpulator.Prelude.Dict.{Dict}
use dumpulator.Outcome.{ok, raise, assertion_error, key_error}
use dumpulator.Memory.Protect.{MemoryProtect, MemoryType}
use dumpulator.Memory.Region.{
  Info, MemoryRegion, page_count, contains, overlaps, align_page, align_allocation, post_init,
}
use dumpulator.Memory.Bisect.{bisect_right}
use dumpulator.Memory.Count.{in_range, in_range_bounds, count, count_none}
use dumpulator.Memory.Manager.{Page, MemoryManager, neighbours_overlap, reserve}
use dumpulator.Memory.Layout.{Layout, lookup_region, any_overlap, neighbours_overlap-any_overlap}
use dumpulator.Memory.Insert.{insert-Layout, lookup_region-insert_at}
use dumpulator.Memory.Valid.{IsValid, Homed, Counts, type_of}

abbrev pub new_region : (start size : ℕ) → MemoryProtect → MemoryType → Option Info → MemoryRegion
new_region start size prot type info = record {
  start = start;
  size = size;
  protect = prot;
  type = type;
  info = info;
  commit_count = 0;
}

abbrev is_sized : ℕ → Bool
is_sized size = ltb 0 size && align_page size == size

abbrev is_aligned : (granularity start : ℕ) → Bool
is_aligned g start = align_allocation g start == start

-- The assertions of `reserve`.
abbrev pub may_reserve : (granularity start size : ℕ) → Bool
may_reserve g start size = is_sized size && (is_aligned g start && post_init start size)

may_reserve_parts :
    (g start size : ℕ)
    → may_reserve g start size ≡ true
    → (is_sized size ≡ true) × (is_aligned g start ≡ true) × (post_init start size ≡ true)
may_reserve_parts g start size h =
    let (sized, rest) = and_true (is_sized size) (is_aligned g start && post_init start size) h in
    let (aligned, whole) = and_true (is_aligned g start) (post_init start size) rest in
    (sized, aligned, whole)

-- `m` with one more region.
abbrev pub with_region : MemoryRegion → MemoryManager → MemoryManager
with_region r m = record m { regions = insert_at (bisect_right m.regions r.start) r m.regions }

abbrev out_of_bounds : (start size : ℕ) → MemoryManager → Bool
out_of_bounds start size m = ltb start m.minimum || ltb m.maximum (start + size)

-- What lies in the way of a region: a bound, or a region that overlaps it.
abbrev pub blocked : (start size : ℕ) → MemoryManager → Bool
blocked start size m = out_of_bounds start size m || any_overlap m.regions start size

blocked_parts :
    (start size : ℕ) (m : MemoryManager)
    → blocked start size m ≡ false
    → (out_of_bounds start size m ≡ false) × (any_overlap m.regions start size ≡ false)
blocked_parts start size m h =
    or_false (out_of_bounds start size m) (any_overlap m.regions start size) h

module _ (m : MemoryManager) (start size : ℕ) (prot : MemoryProtect) (type : MemoryType)
    (info : Option Info) where
  reserve_refused :
      may_reserve m.granularity start size ≡ false
      → reserve start size prot type info m ≡ (raise assertion_error, m)
  unfolding reserve
  reserve_refused h = ground arith

  module _ (l : Layout m.granularity m.minimum m.maximum m.regions)
      (h : may_reserve m.granularity start size ≡ true) where
    overlap_lem :
        neighbours_overlap m.regions start size (bisect_right m.regions start)
        ≡ any_overlap m.regions start size
    overlap_lem =
        neighbours_overlap-any_overlap m.granularity m.maximum m.regions m.minimum start size
          (ground arith) l

    pub reserve-blocked :
        blocked start size m ≡ true → reserve start size prot type info m ≡ (raise key_error, m)
    unfolding reserve
    reserve-blocked b =
        let (sized, aligned, whole) = may_reserve_parts m.granularity start size h in
        elim (Bool-cases (out_of_bounds start size m)) [
          | inl out ↦ rw (sized, aligned, whole, out) refl
          | inr within ↦
              let hit : any_overlap m.regions start size ≡ true = rw within at b in
              rw (sized, aligned, whole, within, overlap_lem, hit) refl
        ]

    pub reserve_free :
        blocked start size m ≡ false
        → reserve start size prot type info m ≡ (
          ok (new_region start size prot type info),
          with_region (new_region start size prot type info) m,
        )
    unfolding reserve
    reserve_free b =
        let (sized, aligned, whole) = may_reserve_parts m.granularity start size h in
        let (within, clear) = blocked_parts start size m b in
        rw (sized, aligned, whole, within, overlap_lem, clear) refl

    -- The region may carry any count.
    pub with_region-Layout :
        (r : MemoryRegion)
        → r.start ≡ start
        → r.size ≡ size
        → blocked start size m ≡ false
        → Layout m.granularity m.minimum m.maximum (with_region r m).regions
    with_region-Layout r s z b =
        let (within, clear) = blocked_parts start size m b in
        insert-Layout m.granularity m.maximum m.regions m.minimum r (ground arith) l
          (rw (s, z) clear)

-- No region lies at an address of a range that overlaps none.
pub lookup_region_clear :
    (rs : List MemoryRegion) (start size q : ℕ)
    → any_overlap rs start size ≡ false
    → start ≤ q
    → q < start + size
    → lookup_region rs q 0 ≡ none
unfolding lookup_region any_overlap overlaps contains
lookup_region_clear [] start size q e a b = refl
lookup_region_clear (r ∷ rs) start size q e a b =
    ground (arith, lookup_region_clear rs start size q)

unhomed : (q : ℕ) (o : Option Page) → Homed q o none → o ≡ none
unhomed q none h = refl
unhomed q (some p) h = absurd h

pub Counts-insert_at :
    (c : Dict Page) (rs : List MemoryRegion) (i : ℕ) (x : MemoryRegion)
    → x.commit_count ≡ count c x.start (page_count x.size)
    → Counts c rs
    → Counts c (insert_at i x rs)
Counts-insert_at c rs zero x e k = (e, k)
Counts-insert_at c [] (suc i) x e k = (e, tt)
Counts-insert_at c (r ∷ rs) (suc i) x e k = (k.0, Counts-insert_at c rs i x e k.1)

module _ (m : MemoryManager) (v : IsValid m) (start size : ℕ) (prot : MemoryProtect)
    (type : MemoryType) (info : Option Info) where
  abbrev region : MemoryRegion
  region = new_region start size prot type info

  -- None of the pages of a range that overlaps no region is committed.
  clear_uncommitted :
      (q : ℕ)
      → any_overlap m.regions start size ≡ false
      → in_range q start (page_count size) ≡ true
      → m.committed q ≡ none
  clear_uncommitted q clear i =
      let e : lookup_region m.regions q 0 ≡ none =
        let (a, b) = in_range_bounds q start (page_count size) i in
        lookup_region_clear m.regions start size q clear a (omega arith) in
      let h : Homed q (m.committed q) none = rw e at (v.homed q) in unhomed q (m.committed q) h

  added_homed :
      (rs : List MemoryRegion) (q : ℕ)
      → lookup_region rs q 0
        ≡ (if contains region q 0 then some region else lookup_region m.regions q 0)
      → (contains region q 0 ≡ true → lookup_region m.regions q 0 ≡ none)
      → Homed q (m.committed q) (type_of (lookup_region rs q 0))
  added_homed rs q e none_there = rw e (elim (Bool-cases (contains region q 0)) [
    | inr out ↦ rw out (v.homed q)
    | inl in_it ↦
        let h : Homed q (m.committed q) none = rw (none_there in_it) at (v.homed q) in
        rw (in_it, unhomed q (m.committed q) h) tt
  ])

  reserve_free-IsValid :
      may_reserve m.granularity start size ≡ true
      → blocked start size m ≡ false
      → IsValid (with_region region m)
  reserve_free-IsValid h b =
      let (within, clear) = blocked_parts start size m b in
      record {
        layout = with_region-Layout m start size prot type info v.layout h region refl refl b;
        counts =
            Counts-insert_at m.committed m.regions (bisect_right m.regions start) region
              (sym (
                count_none m.committed start (page_count size)
                  (λ q i. rw (clear_uncommitted q clear i) refl)))
              v.counts;
        homed = λ q.
            added_homed (with_region region m).regions q
              (lookup_region-insert_at m.regions (bisect_right m.regions start) region q 0 clear
                (ground arith))
              (λ i.
                lookup_region_clear m.regions start size q clear (unfold contains in ground arith)
                  (unfold contains in ground arith));
        synced = v.synced;
      }

  -- `reserve` keeps the invariant, also when it raises.
  pub reserve-IsValid : IsValid (reserve start size prot type info m).1
  reserve-IsValid = elim (Bool-cases (may_reserve m.granularity start size)) [
    | inr refused ↦ rw (reserve_refused m start size prot type info refused) v
    | inl h ↦ elim (Bool-cases (blocked start size m)) [
      | inl b ↦ rw (reserve-blocked m start size prot type info v.layout h b) v
      | inr b ↦
          rw (reserve_free m start size prot type info v.layout h b) (reserve_free-IsValid h b)
    ]
  ]

-- On a valid manager `reserve` raises `AssertionError` exactly if the range is empty, not made of whole
-- pages or does not start at a multiple of the allocation granularity; else `KeyError` exactly if it
-- leaves the bounds or overlaps any region; else it returns the region, with nothing committed, and adds
-- it. When it raises, the manager is unchanged.
pub reserve_exact :
    (m : MemoryManager) (start size : ℕ) (prot : MemoryProtect) (type : MemoryType)
    (info : Option Info)
    → IsValid m
    → reserve start size prot type info m ≡ (
        if may_reserve m.granularity start size
        then (if blocked start size m then (raise key_error, m) else (
          ok (new_region start size prot type info),
          with_region (new_region start size prot type info) m,
        ))
        else (raise assertion_error, m))
reserve_exact m start size prot type info v =
    elim (Bool-cases (may_reserve m.granularity start size)) [
      | inr refused ↦ rw (refused, reserve_refused m start size prot type info refused) refl
      | inl h ↦ elim (Bool-cases (blocked start size m)) [
        | inl b ↦ rw (h, b, reserve-blocked m start size prot type info v.layout h b) refl
        | inr b ↦ rw (h, b, reserve_free m start size prot type info v.layout h b) refl
      ]
    ]
