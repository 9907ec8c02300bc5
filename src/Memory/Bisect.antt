-- ===== src/Memory/Bisect.antt =====
-- `bisect.bisect_right`, as memory.py calls it on the sorted list of regions: the comparison
-- `x < regions[mid]` is `MemoryRegion.__lt__`, which compares the starts.
use dumpulator.Prelude.{
  ℕ, zero, suc, ◌+◌, ◌/◌, ◌≤◌, ◌<◌, ◌≡◌, refl, List, [], ◌∷◌, map, arith, ltb, length, get_or,
  if◌then◌else◌,
}
use dumpulator.Memory.Region.{MemoryRegion}

abbrev pub starts : List MemoryRegion → List ℕ
starts = map (λ r. r.start)

-- The loop halves [lo, hi), so a fuel of `hi - lo` rounds is enough. Without fuel it returns `lo`.
bisect_loop : (fuel : ℕ) (xs : List ℕ) (x lo hi : ℕ) → ℕ
bisect_loop zero xs x lo hi = lo
bisect_loop (suc fuel) xs x lo hi =
    let mid = (lo + hi) / 2 in
    let left = bisect_loop fuel xs x lo mid in
    let right = bisect_loop fuel xs x (mid + 1) hi in
    if ltb lo hi then (if ltb x (get_or xs mid 0) then left else right) else lo

unfoldable pub bisect_right : List MemoryRegion → ℕ → ℕ
unfolding bisect_loop
bisect_right rs start = bisect_loop (length rs) (starts rs) start 0 (length rs)

-- How many leading elements are at most `x`.
unfoldable pub rank : List ℕ → ℕ → ℕ
rank [] x = 0
rank (a ∷ xs) x = if ltb x a then 0 else suc (rank xs x)

-- Every element is at least `lo`, and none is less than the one before it.
abbrev pub IsSorted : ℕ → List ℕ → Type 0
IsSorted lo [] = Unit {0}
IsSorted lo (a ∷ xs) = (lo ≤ a) × IsSorted a xs

rank-le : (xs : List ℕ) (x : ℕ) → rank xs x ≤ length xs
unfolding rank
rank-le [] x = omega arith
rank-le (a ∷ xs) x = ground (arith, rank-le xs x)

IsSorted-get_or : (xs : List ℕ) (lo i : ℕ) → IsSorted lo xs → i < length xs → lo ≤ get_or xs i 0
IsSorted-get_or [] lo i s h = absurd (omega arith)
IsSorted-get_or (a ∷ xs) lo zero s h = s.0
IsSorted-get_or (a ∷ xs) lo (suc i) s h = omega (arith, IsSorted-get_or xs a i s.1 (omega arith))

rank-below :
    (xs : List ℕ) (lo x i : ℕ) → IsSorted lo xs → i < length xs → x < get_or xs i 0 → rank xs x ≤ i
unfolding rank
rank-below [] lo x i s h p = absurd (omega arith)
rank-below (a ∷ xs) lo x zero s h p = ground arith
rank-below (a ∷ xs) lo x (suc i) s h p = ground (arith, rank-below xs a x i s.1 (omega arith) p)

rank-above :
    (xs : List ℕ) (lo x i : ℕ) → IsSorted lo xs → i < length xs → get_or xs i 0 ≤ x → i < rank xs x
unfolding rank
rank-above [] lo x i s h p = absurd (omega arith)
rank-above (a ∷ xs) lo x zero s h p = ground arith
rank-above (a ∷ xs) lo x (suc i) s h p =
    ground
      (arith, rank-above xs a x i s.1 (omega arith) p, IsSorted-get_or xs a i s.1 (omega arith))

bisect_loop-rank :
    (fuel : ℕ) (xs : List ℕ) (b x lo hi : ℕ)
    → IsSorted b xs
    → hi ≤ length xs
    → hi ≤ lo + fuel
    → lo ≤ rank xs x
    → rank xs x ≤ hi
    → bisect_loop fuel xs x lo hi ≡ rank xs x
unfolding bisect_loop
bisect_loop-rank zero xs b x lo hi s n f p q = omega arith
bisect_loop-rank (suc fuel) xs b x lo hi s n f p q = ground (
  arith,
  rank-below xs b x ((lo + hi) / 2) s,
  rank-above xs b x ((lo + hi) / 2) s,
  bisect_loop-rank fuel xs b x lo ((lo + hi) / 2) s,
  bisect_loop-rank fuel xs b x ((lo + hi) / 2 + 1) hi s n,
)

length-starts : (rs : List MemoryRegion) → length (starts rs) ≡ length rs
length-starts [] = refl
length-starts (r ∷ rs) = omega (arith, length-starts rs)

-- On sorted starts the binary search returns the number of regions that start at or below `start`.
pub bisect_right-rank :
    (rs : List MemoryRegion) (b start : ℕ)
    → IsSorted b (starts rs)
    → bisect_right rs start ≡ rank (starts rs) start
unfolding bisect_right
bisect_right-rank rs b start s =
    bisect_loop-rank (length rs) (starts rs) b start 0 (length rs) s
      (omega (arith, length-starts rs)) (omega arith) (omega arith)
      (omega (arith, rank-le (starts rs) start, length-starts rs))
