-- ===== src/Memory/Finding.antt =====
-- `find_free`: the search ends, and what it finds can be reserved.
use dumpulator.Prelude.{
  ℕ, zero, suc, ◌+◌, ◌-◌, ◌%◌, ◌≤◌, ◌<◌, ◌≡◌, refl, ◌∙◌, ◌⊎◌, inl, inr, Bool-cases, true, false,
  ◌&&◌, ◌||◌, Option, none, some, and_true, arith, ltb, leb, ◌==◌,
}
use dumpulator.Outcome.{Result, ok, raise}
use dumpulator.Memory.Protect.{page_size, MemoryProtect, MemoryType}
use dumpulator.Memory.Region.{Info, post_init, align_page, align_allocation}
use dumpulator.Memory.Manager.{MemoryManager, reserve}
use dumpulator.Memory.Layout.{any_overlap}
use dumpulator.Memory.Valid.{IsValid}
use dumpulator.Memory.Align.{align_allocation_idem, le-align_allocation}
use dumpulator.Memory.Query.{
  MemoryBasicInformation, after, has_room, is_free, find_step, find_from, find_free,
}
use dumpulator.Memory.Gaps.{ReportsGap}
use dumpulator.Memory.Reserving.{may_reserve, blocked, reserve_exact, new_region, with_region}
use dumpulator.Memory.Steps.{IsStep, step_lem}

-- A range that `reserve` accepts.
abbrev pub Reservable : MemoryManager → (size : ℕ) → Option ℕ → Type 0
Reservable m size none = Unit
Reservable m size (some start) =
    (may_reserve m.granularity start size ≡ true) × (blocked start size m ≡ false)

abbrev pub Found : MemoryManager → (size : ℕ) → Result (Option ℕ) → Type 0
Found m size (ok start) = Reservable m size start
Found m size (raise e) = ⊥

module _ (m : MemoryManager) (v : IsValid m) (granular : m.granularity ≡ 0x10000) (size : ℕ)
    (filled : 0 < size) (whole : align_page size ≡ size) where
  start_page : (base : ℕ) → align_allocation m.granularity base % page_size ≡ 0
  start_page base = rw granular (omega arith)

  gap-Reservable :
      (base n : ℕ) (info : MemoryBasicInformation)
      → m.minimum ≤ base
      → ReportsGap m base n info
      → has_room info.region_size (align_allocation m.granularity base - base) size ≡ true
      → Reservable m size (some (align_allocation m.granularity base))
  unfolding has_room
  gap-Reservable base n info low gap room =
      let start = align_allocation m.granularity base in
      let above : base ≤ start = le-align_allocation m.granularity base (omega (arith, granular)) in
      let again : align_allocation m.granularity start ≡ start =
        align_allocation_idem m.granularity base in
      let room' : leb (size + (start - base)) n ≡ true = rw gap.sized at room in
      let fits : start + size ≤ base + n = ground (arith, room') in
      let clear : any_overlap m.regions start size ≡ false =
        gap.clear start size above filled fits in
      let page : start % page_size ≡ 0 = start_page base in
      let sized : (ltb 0 size && align_page size == size) ≡ true = ground (arith, whole) in
      let aligned : (align_allocation m.granularity start == start) ≡ true =
        ground (arith, again) in
      let paged : post_init start size ≡ true = ground (arith, page, whole) in
      let bounds : (ltb start m.minimum || ltb m.maximum (start + size)) ≡ false =
        ground (arith, gap.bounded, fits) in
      (rw (sized, aligned, paged) refl, rw (bounds, clear) refl)

  find_step-Found :
      (go_on : ℕ → Result (Option ℕ)) (base n : ℕ) (info : MemoryBasicInformation)
      → m.minimum ≤ base
      → IsStep m base n info
      → Found m size (go_on (base + n))
      → Found m size (find_step m go_on size base (ok (some info)))
  find_step-Found go_on base n info low step rest =
      let at : (info.base == base) ≡ true = ground (arith, step.at_base) in
      let next : Found m size (go_on (after base info.region_size)) = rw step.sized rest in
      elim (Bool-cases (
        is_free info.state
        && has_room info.region_size (align_allocation m.granularity info.base - info.base) size)) [
          | inr full ↦ rw (at, full) next
          | inl room ↦
              let (free, fits) =
                and_true (is_free info.state)
                  (has_room info.region_size (align_allocation m.granularity info.base - info.base)
                    size)
                  room in
              elim step.busy_or_gap [
                | inl busy ↦ absurd (ground (arith, busy, free))
                | inr gap ↦
                    rw (at, room)
                      (rw step.at_base
                        (gap-Reservable base n info low gap (rw step.at_base at fits)))
              ]
        ]

  find_from-Found :
      (fuel base : ℕ)
      → m.minimum ≤ base
      → (base % page_size ≡ 0) ⊎ (m.maximum ≤ base)
      → 0 < fuel
      → m.maximum < base + fuel
      → Found m size (find_from fuel m size base)
  unfolding find_from
  find_from-Found zero base low aligned fueled far = absurd (omega arith)
  find_from-Found (suc fuel) base low aligned fueled far = elim (Bool-cases (ltb base m.maximum)) [
    | inr out ↦ rw out tt
    | inl below ↦
        let lt : base < m.maximum = ground (arith, below) in
        let paged : base % page_size ≡ 0 = omega (arith, aligned, lt) in
        let (info, (n, (e, step))) = step_lem m v base paged lt in
        rw (below, e)
          (find_step-Found (find_from fuel m size) base n info low step (
            find_from-Found fuel (base + n) (omega arith) step.next_page (omega (arith, lt, far))
              (omega (arith, step.filled, far))))
  ]

find_free-Found :
    (m : MemoryManager) (size : ℕ)
    → IsValid m
    → m.granularity ≡ 0x10000
    → m.minimum % page_size ≡ 0
    → 0 < size
    → align_page size ≡ size
    → Found m size (find_free m size)
unfolding find_free
find_free-Found m size v granular low filled whole =
    let sized : (ltb 0 size && align_page size == size) ≡ true = ground (arith, whole) in
    rw sized (
      find_from-Found m v granular size filled whole (suc (m.maximum - m.minimum)) m.minimum
        (omega arith) (inl low) (omega arith) (omega arith))

-- The outcome of a `reserve` at the address that `find_free` found, if it found one.
unfoldable pub Reserves :
    MemoryManager → (size : ℕ) → MemoryProtect → MemoryType → Option Info → Option ℕ → Type 0
Reserves m size prot type info none = Unit
Reserves m size prot type info (some start) = reserve start size prot type info m ≡ (
  ok (new_region start size prot type info),
  with_region (new_region start size prot type info) m,
)

Reservable-Reserves :
    (m : MemoryManager) (size : ℕ) (prot : MemoryProtect) (type : MemoryType) (info : Option Info)
    (found : Option ℕ)
    → IsValid m
    → Reservable m size found
    → Reserves m size prot type info found
unfolding Reserves
Reservable-Reserves m size prot type info none v h = tt
Reservable-Reserves m size prot type info (some start) v (may, free) =
    reserve_exact m start size prot type info v ∙ rw (may, free) refl

-- On a valid manager with the granularity 0x10000 and a minimum that is a multiple of the page size,
-- `find_free` of a positive size of whole pages returns: `None`, or an address at which `reserve` of that
-- size succeeds.
pub find_free-reserve :
    (m : MemoryManager) (size : ℕ) (prot : MemoryProtect) (type : MemoryType) (info : Option Info)
    → IsValid m
    → m.granularity ≡ 0x10000
    → m.minimum % page_size ≡ 0
    → 0 < size
    → align_page size ≡ size
    → (found : Option ℕ) × ((find_free m size ≡ ok found) × Reserves m size prot type info found)
find_free-reserve m size prot type info v granular low filled whole =
    returned (find_free m size) refl (find_free-Found m size v granular low filled whole)
  where
    returned :
        (r : Result (Option ℕ))
        → find_free m size ≡ r
        → Found m size r
        → (found : Option ℕ) × ((find_free m size ≡ ok found)
            × Reserves m size prot type info found)
    returned (ok found) e h = (found, (e, Reservable-Reserves m size prot type info found v h))
    returned (raise _) e h = elim h [ ]
