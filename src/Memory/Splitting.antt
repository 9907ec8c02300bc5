-- ===== src/Memory/Splitting.antt =====
-- `release` after `_decommit_region`: the parent region is replaced by the two parts that are left.
use dumpulator.Prelude.{
  ℕ, ◌+◌, ◌-◌, ◌*◌, ◌%◌, ◌≤◌, ◌<◌, ◌≡◌, refl, ◌∙◌, ap, Bool-cases, true, false, ◌&&◌, Option, none,
  some, arith, inl, inr, ◌==◌, if◌then◌else◌, is_some, ltb, leb,
}
use dumpulator.Prelude.Dict.{Dict}
use dumpulator.Outcome.{Result, ok}
use dumpulator.Memory.Protect.{page_size}
use dumpulator.Memory.Region.{MemoryRegion, end, page_count, contains, align_allocation, post_init}
use dumpulator.Memory.Count.{
  in_range, in_range_bounds, in_range_intro, in_range_aligned, count, count-add, count_none,
}
use dumpulator.Memory.Manager.{Page, MemoryManager}
use dumpulator.Memory.Layout.{lookup_region}
use dumpulator.Memory.Commit.{Ledger, close_ledger}
use dumpulator.Memory.Release.{remove_region, reserve_part, split_parent}
use dumpulator.Memory.Valid.{
  IsValid, IsFound, Homed, type_of, parent-IsFound, type_of-set_count, lookup_region_same,
}
use dumpulator.Memory.Decommitting.{ClearedLedger, cleared-IsValid}
use dumpulator.Memory.Reserving.{lookup_region_clear}
use dumpulator.Memory.Remove.{
  remove_region-set_count, Counts-remove_region, Layout-remove_region, found-below,
  lookup_region-remove_region, any_overlap-remove_region,
}
use dumpulator.Memory.Torn.{IsTorn, IsTorn-IsValid, IsTorn-skip, Fills, reserve_part-Fills}

module _ (m : MemoryManager) (v : IsValid m) (start size : ℕ) (r : MemoryRegion)
    (found : lookup_region m.regions start 0 ≡ some r) (fits : start + size ≤ end r)
    (filled : 0 < size) (start_page : start % page_size ≡ 0)
    (size_page : size % page_size ≡ 0) where
  parent : IsFound m.granularity m.minimum m.committed r start 0
  parent = parent-IsFound m v start 0 r found

  pub at_or_after : r.start ≤ start
  at_or_after = let i = parent.inside in unfold contains in ground arith

  pub within :
      (q : ℕ)
      → in_range q start (page_count size) ≡ true
      → in_range q r.start (page_count r.size) ≡ true
  within q i =
      let (a, b) = in_range_bounds q start (page_count size) i in
      in_range_intro q r.start (page_count r.size) parent.start_page
        (in_range_aligned q start (page_count size) start_page i) (omega (arith, at_or_after))
        (omega (arith, parent.size_page))

  module _ (l : Ledger) (c : ClearedLedger m v start 0 r found start size start_page within l) where
    abbrev pub closed : MemoryManager
    closed = close_ledger r.start l m

    abbrev removed : MemoryManager
    removed = record closed { regions = remove_region r.start closed.regions }

    closed-IsValid : IsValid closed
    closed-IsValid = cleared-IsValid m v start 0 r found start size start_page within l c

    removed_regions : removed.regions ≡ remove_region r.start m.regions
    unfolding close_ledger
    removed_regions = remove_region-set_count r.start l.commit_count m.regions

    type_at :
        (q : ℕ) → type_of (lookup_region closed.regions q 0) ≡ type_of (lookup_region m.regions q 0)
    unfolding close_ledger
    type_at q = type_of-set_count r.start l.commit_count m.regions q 0

    removed-IsTorn : IsTorn r.type r.start (end r) removed
    unfolding close_ledger
    removed-IsTorn = record {
      layout =
          Layout-remove_region m.granularity m.maximum r.start closed.regions m.minimum
            closed-IsValid.layout;
      counts = Counts-remove_region l.committed r.start closed.regions closed-IsValid.counts;
      synced = closed-IsValid.synced;
      above = parent.above;
      below =
          found-below m.granularity m.maximum m.committed start 0 r m.regions m.minimum v.layout
            found;
      homed = λ q side.
          rw
            (
              removed_regions,
              lookup_region-remove_region m.granularity m.maximum m.committed start 0 r m.regions
                  m.minimum q v.layout v.counts found side,
            )
            (rw (type_at q) at (closed-IsValid.homed q));
      torn = λ q a b.
          rw
            (
              type_at q,
              lookup_region_same m.granularity m.maximum m.committed m.regions m.minimum start 0 q r
                  v.layout v.counts found (unfold contains in ground arith),
            )
            at (closed-IsValid.homed q);
      clear = λ start' size' a b p. rw removed_regions (
          any_overlap-remove_region m.granularity m.maximum m.committed start 0 r m.regions
            m.minimum start' size' v.layout v.counts found a b p);
    }

    -- The parent as `_decommit_region` leaves it.
    abbrev pub parent' : MemoryRegion
    parent' = record r { commit_count = l.commit_count }

    freed :
        (q : ℕ) (o : Option Page)
        → o ≡ l.committed q
        → Homed q o (some r.type)
        → start ≤ q
        → q < start + size
        → o ≡ none
    freed q none e h a b = refl
    freed q (some p) e h a b =
        let i : in_range q start (page_count size) ≡ true =
          in_range_intro q start (page_count size) start_page h.0 a (omega arith) in
        e ∙ c.1 q ∙ rw i refl

    counted : l.commit_count ≡ count l.committed r.start (page_count r.size)
    counted = c.0.counted

    -- The pages that stay are those of the two parts.
    parts_count :
        count l.committed r.start (page_count (start - r.start))
          + count l.committed (start + size) (page_count (end r - (start + size)))
        ≡ l.commit_count
    parts_count =
        let b = page_count (start - r.start) in
        let n = page_count size in
        let a = page_count (end r - (start + size)) in
        let whole : page_count r.size ≡ b + (n + a) =
          omega (arith, parent.size_page, parent.start_page, at_or_after) in
        let e : r.start + b * page_size ≡ start = omega (arith, parent.start_page, at_or_after) in
        let e' : start + n * page_size ≡ start + size = omega arith in
        let none_left : count l.committed start n ≡ 0 =
          count_none l.committed start n (λ q i. rw (c.1 q, i) refl) in
        let front = rw e at (count-add l.committed r.start b (n + a)) in
        let back = rw e' at (count-add l.committed start n a) in
        omega (arith, counted, rw whole at counted, front, back, none_left)

    -- What `release` does after `_decommit_region`.
    abbrev pub Splits : Result (Unit {0}) × MemoryManager → Type 0
    Splits (result, m') =
        (result ≡ ok tt)
        × IsValid m'
        × (m'.committed ≡ l.committed)
        × ((q : ℕ)
            → is_some (lookup_region m'.regions q 0) ≡ (
                if leb start q && ltb q (start + size)
                then false
                else is_some (lookup_region m.regions q 0)))

    found_inside :
        (q : ℕ)
        → leb r.start q && ltb q (end r) ≡ true
        → is_some (lookup_region m.regions q 0) ≡ true
    found_inside q h =
        rw
          (lookup_region_same m.granularity m.maximum m.committed m.regions m.minimum start 0 q r
            v.layout v.counts found (unfold contains in ground arith))
          refl

    found_removed :
        (q : ℕ)
        → is_some (lookup_region removed.regions q 0) ≡ (
            if leb r.start q && ltb q (end r) then false else is_some (lookup_region m.regions q 0))
    found_removed q = elim (Bool-cases (leb r.start q && ltb q (end r))) [
      | inl inside ↦
          rw
            (
              inside,
              lookup_region_clear removed.regions r.start r.size q
                  (removed-IsTorn.clear r.start r.size (omega arith) (omega arith) parent.filled)
                  (ground arith) (ground arith),
            )
            refl
      | inr outside ↦
          rw
            (
              outside,
              removed_regions,
              lookup_region-remove_region m.granularity m.maximum m.committed start 0 r m.regions
                  m.minimum q v.layout v.counts found (ground arith),
            )
            refl
    ]

    module _
        (rest_aligned : start + size < end r
          → align_allocation m.granularity (start + size) ≡ start + size) where
      before :
          Fills r.type r.start
            (end r)
            (start - r.start)
            removed
            (reserve_part parent' r.start (start - r.start) removed)
      before =
          reserve_part-Fills parent' r.start (end r) (start - r.start) removed removed-IsTorn
            (omega (arith, at_or_after)) (λ _. unfold close_ledger in parent.aligned)
            parent.start_page (omega (arith, at_or_after, parent.start_page))

      abbrev m₁ : MemoryManager
      m₁ = before.0

      waiting : IsTorn r.type (start + size) (end r) m₁
      unfolding close_ledger
      waiting =
          let e : r.start + (start - r.start) ≡ start = omega (arith, at_or_after) in
          let t : IsTorn r.type start (end r) m₁ = rw e at before.2 in
          IsTorn-skip r.type start (start + size) (end r) m₁ (omega arith)
            (λ q a b.
              freed q (m₁.committed q) (ap (λ (d : Dict Page). d q) before.3)
                (t.torn q a (omega arith)) a b)
            t

      granularity_kept : m₁.granularity ≡ m.granularity
      granularity_kept = before.4 ∙ (unfold close_ledger in refl)

      after :
          Fills r.type
            (start + size)
            (end r)
            (end r - (start + size))
            m₁
            (reserve_part parent' (start + size) (end r - (start + size)) m₁)
      after =
          reserve_part-Fills parent' (start + size) (end r) (end r - (start + size)) m₁ waiting
            (omega arith) (λ some_left. rw granularity_kept (rest_aligned (omega arith)))
            (omega arith) (omega (arith, parent.size_page, parent.start_page))

      abbrev m₂ : MemoryManager
      m₂ = after.0

      done-IsValid : IsValid m₂
      done-IsValid =
          let e : start + size + (end r - (start + size)) ≡ end r = omega arith in
          IsTorn-IsValid r.type (end r) m₂ (rw e at after.2)

      found_after :
          (q : ℕ)
          → is_some (lookup_region m₂.regions q 0) ≡ (
              if leb start q && ltb q (start + size)
              then false
              else is_some (lookup_region m.regions q 0))
      found_after q =
          ground (arith, after.5 q, before.5 q, found_removed q, found_inside q, at_or_after)

      whole_count : (if parent'.size == size then parent'.commit_count == 0 else true) ≡ true
      whole_count = elim (Bool-cases (r.size == size)) [
        | inr part ↦ rw part refl
        | inl all ↦
            let e : r.size ≡ size = ground arith in
            let e' : r.start ≡ start = omega (arith, at_or_after) in
            let none_left : count l.committed start (page_count size) ≡ 0 =
              count_none l.committed start (page_count size) (λ q i. rw (c.1 q, i) refl) in
            let n : l.commit_count ≡ count l.committed start (page_count size) =
              rw (e, e') at counted in
            ground arith
      ]

      whole_parts :
          post_init r.start (start - r.start) && post_init (start + size) (end r - (start + size))
          ≡ true
      whole_parts = ground (arith, parent.start_page, parent.size_page, at_or_after)

      counts_match :
          (count removed.committed r.start (page_count (start - r.start))
              + count m₁.committed (start + size) (page_count (end r - (start + size)))
            == l.commit_count)
          ≡ true
      unfolding close_ledger
      counts_match = rw before.3 (ground (arith, parts_count))

      pub split_parent-Splits : Splits (split_parent parent' start size closed)
      unfolding split_parent
      split_parent-Splits =
          rw (whole_parts, whole_count, before.1, after.1, counts_match)
            (refl, done-IsValid, after.3 ∙ before.3 ∙ (unfold close_ledger in refl), found_after)
