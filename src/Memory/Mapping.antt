-- ===== src/Memory/Mapping.antt =====
-- `map`: the spans of the address space.
use dumpulator.Prelude.{
  ℕ, zero, suc, ◌+◌, ◌-◌, ◌%◌, ◌≤◌, ◌<◌, ◌≡◌, refl, ◌⊎◌, inl, inr, Bool-cases, some, List, [], ◌∷◌,
  arith, ltb,
}
use dumpulator.Outcome.{Result, ok, raise}
use dumpulator.Memory.Protect.{page_size}
use dumpulator.Memory.Manager.{MemoryManager}
use dumpulator.Memory.Valid.{IsValid, parent-IsFound}
use dumpulator.Memory.Query.{MemoryBasicInformation, after, map_step, map_from, map}
use dumpulator.Memory.Layout.{Layout-le}
use dumpulator.Memory.Describing.{IsTile, IsBoundary, found_bounds}
use dumpulator.Memory.Tiles.{tile_lem}

-- The spans follow one another from `base` on and end at the maximum exactly, and each is described page by
-- page.
unfoldable pub Tiles : MemoryManager → (base : ℕ) → List MemoryBasicInformation → Type 0
Tiles m base [] = base ≡ m.maximum
Tiles m base (info ∷ rest) = (n : ℕ) × (IsTile m base n info × Tiles m (base + n) rest)

abbrev Tiled : MemoryManager → ℕ → Result (List MemoryBasicInformation) → Type 0
Tiled m base (ok spans) = Tiles m base spans
Tiled m base (raise e) = ⊥

map_step-Tiled :
    (m : MemoryManager) (go_on : ℕ → Result (List MemoryBasicInformation)) (base n : ℕ)
    (info : MemoryBasicInformation)
    → IsTile m base n info
    → Tiled m (base + n) (go_on (base + n))
    → Tiled m base (map_step go_on base (ok (some info)))
unfolding Tiles after
map_step-Tiled m go_on base n info tile rest =
    rw (tile.sized, map_step) (tiled (go_on (base + n)) refl rest)
  where
    tiled :
        (r : Result (List MemoryBasicInformation))
        → go_on (base + n) ≡ r
        → Tiled m (base + n) r
        → Tiled m base
            (elim (go_on (base + n)) [ raise e ↦ raise e | ok others ↦ ok (info ∷ others) ])
    tiled (ok spans) e h = rw e (n, (tile, h))
    tiled (raise _) e h = elim h [ ]

map_from-Tiled :
    (m : MemoryManager) (fuel base : ℕ)
    → IsValid m
    → (base % page_size ≡ 0) ⊎ (base ≡ m.maximum)
    → IsBoundary m base
    → base ≤ m.maximum
    → m.maximum < base + fuel
    → Tiled m base (map_from fuel m base)
unfolding map_from Tiles
map_from-Tiled m zero base v aligned boundary below far = absurd (omega arith)
map_from-Tiled m (suc fuel) base v aligned boundary below far =
    elim (Bool-cases (ltb base m.maximum)) [
      | inr out ↦ rw out (ground (arith, out))
      | inl less ↦
          let lt : base < m.maximum = ground (arith, less) in
          let paged : base % page_size ≡ 0 = omega (arith, aligned, lt) in
          let (info, (n, (e, tile))) = tile_lem m v base paged lt boundary in
          rw (less, e)
            (map_step-Tiled m (map_from fuel m) base n info tile (
              map_from-Tiled m fuel (base + n) v tile.next_page tile.next_boundary tile.bounded
                (omega (arith, tile.filled, far))))
    ]

-- Nothing lies below the minimum.
minimum-IsBoundary : (m : MemoryManager) → IsValid m → IsBoundary m m.minimum
minimum-IsBoundary m v r found empty =
    let (low, _, _) = found_bounds m v m.minimum r found in
    omega (arith, low, (parent-IsFound m v m.minimum 0 r found).above)

-- On a valid manager whose minimum is a multiple of the page size `map` returns spans that follow one
-- another without a gap from the minimum and end at the maximum exactly. Every page of a span is what the
-- span says: in no region if it is free; in a region of its type and not committed if it is reserved; else
-- committed with its protection and type.
pub map-Tiles :
    (m : MemoryManager)
    → IsValid m
    → m.minimum % page_size ≡ 0
    → (spans : List MemoryBasicInformation) × ((map m ≡ ok spans) × Tiles m m.minimum spans)
unfolding map
map-Tiles m v low =
    let le = Layout-le m.granularity m.maximum m.regions m.minimum v.layout in
    returned (map_from (suc (m.maximum - m.minimum)) m m.minimum) refl (
      map_from-Tiled m (suc (m.maximum - m.minimum)) m.minimum v (inl low) (minimum-IsBoundary m v)
        le (omega (arith, le)))
  where
    returned :
        (r : Result (List MemoryBasicInformation))
        → map m ≡ r
        → Tiled m m.minimum r
        → (spans : List MemoryBasicInformation) × ((map m ≡ ok spans) × Tiles m m.minimum spans)
    returned (ok spans) e h = (spans, (e, h))
    returned (raise _) e h = elim h [ ]
