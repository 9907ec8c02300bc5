-- ===== src/Emulator/Allocated.antt =====
-- `Dumpulator.allocate`: the blocks that it hands out.
use mathlib.Core.Path.{subst}
use dumpulator.Prelude.{
  ℕ, true, false, ◌+◌, ◌%◌, ◌^◌, ◌≤◌, ◌<◌, ◌≡◌, ◌⊎◌, refl, sym, ◌∙◌, ap, Bool, none, some, ltb,
  ◌==◌, ◌||◌, if◌then◌else◌, is_some, arith, Bool-cases, Option-cases, Option, inl, inr,
}
use dumpulator.Outcome.{Result, ok, raise, pure, reads, and_then, bind_returned}
use dumpulator.Memory.Protect.{
  page_size, MemoryProtect, MemoryType, undefined, page_execute_readwrite, mem_private,
}
use dumpulator.Memory.Region.{label, align_page, page_count}
use dumpulator.Memory.Count.{in_range, in_range_intro}
use dumpulator.Memory.Manager.{Page, MemoryManager, reserve}
use dumpulator.Memory.Layout.{lookup_region}
use dumpulator.Memory.Valid.{IsValid}
use dumpulator.Memory.Commit.{commit, is_page_range}
use dumpulator.Memory.Ledger.{commit_to}
use dumpulator.Memory.Reserving.{reserve-IsValid}
use dumpulator.Memory.Committing.{commit_protect, commit_inside, commit_refused, commit_outside}
use dumpulator.Native.Rounding.{round_to_pages}
use dumpulator.Emulator.Allocate.{
  Allocator, on_memory, free_region, open_region, hand_out, allocate,
}

-- Every page from the base of the region to the pointer is committed.
abbrev pub Backed : Allocator → Type 0
Backed a =
    (q : ℕ)
    → q % page_size ≡ 0
    → a.allocate_base ≤ q
    → q < a.allocate_ptr
    → is_some (a.memory.committed q) ≡ true

abbrev pub limit : Allocator → ℕ
limit a = a.allocate_base + a.allocate_size

-- Before the first call the pointer is 0, and then it lies in the region or at its end.
abbrev pub Opened : Allocator → Type 0
Opened a = (a.allocate_ptr ≡ 0) ⊎ ((a.allocate_base ≤ a.allocate_ptr) × (a.allocate_ptr ≤ limit a))

-- The block [ptr, ptr + size) lies in the region and not before the pointer of before the call, the pointer
-- has moved to its end, and all pages up to there are committed.
abbrev pub HandsOut : (size ptr : ℕ) (a a' : Allocator) → Type 0
HandsOut size ptr a a' =
    (a.allocate_ptr ≤ ptr)
    × (a'.allocate_base ≤ ptr)
    × (ptr + size ≤ limit a')
    × (a'.allocate_ptr ≡ ptr + size)
    × IsValid a'.memory
    × Backed a'

commit_to-some :
    (prot : MemoryProtect) (type : MemoryType) (o : Option Page)
    → is_some (commit_to prot type o) ≡ true
commit_to-some prot type none = refl
commit_to-some prot type (some p) = refl

-- A `commit` that returned: the pages that are committed after it.
committed_after :
    (m : MemoryManager) (start size : ℕ) (prot : MemoryProtect)
    → IsValid m
    → (commit start size prot m).0 ≡ ok tt
    → IsValid (commit start size prot m).1
      × ((q : ℕ)
          → is_some ((commit start size prot m).1.committed q)
            ≡ (in_range q start (page_count size) || is_some (m.committed q)))
committed_after m start size prot v h = elim (Bool-cases (is_page_range start size)) [
  | inr part ↦ absurd (ground (arith, ap (λ r. r.0) (commit_refused m start size prot part), h))
  | inl whole ↦ elim (Option-cases (lookup_region m.regions start size)) [
    | inl missing ↦
        absurd (ground (arith, ap (λ r. r.0) (commit_outside m start size prot v whole missing), h))
    | inr (r, found) ↦
        let (done, valid, effect) = commit_inside m start size prot r v found whole in
        (
          valid,
          λ q. elim (Bool-cases (in_range q start (page_count size))) [
            | inl i ↦
                rw (effect q, i) (commit_to-some (commit_protect prot r) r.type (m.committed q))
            | inr o ↦ rw (effect q, o) refl
          ],
        )
  ]
]

-- Pages up to the pointer `at`, and those of the block behind it, make the pages up to its end.
backed_more :
    (base at size q : ℕ) (c : Bool)
    → q % page_size ≡ 0
    → base ≤ q
    → q < at + size
    → (q < at → c ≡ true)
    → (in_range q (align_page at) (page_count (align_page size)) || c) ≡ true
backed_more base at size q c paged low high before = elim (Bool-cases (ltb q at)) [
  | inl below ↦ let h : c ≡ true = before (ground arith) in ground arith
  | inr above ↦
      let after : at ≤ q = ground arith in
      rw
        (in_range_intro q (align_page at) (page_count (align_page size)) (omega arith) paged
          (omega (arith, paged, after)) (omega (arith, paged, after, high)))
        refl
]

-- A block at `at`: it lies before the end of the region, and its pages are committed.
abbrev Handed : (at size ptr : ℕ) (a a' : Allocator) → Type 0
Handed at size ptr a a' =
    (at ≡ ptr)
    × (a'.allocate_base ≡ a.allocate_base)
    × (a'.allocate_size ≡ a.allocate_size)
    × (ptr + size ≤ limit a')
    × (a'.allocate_ptr ≡ ptr + size)
    × IsValid a'.memory
    × Backed a'

module _ (at size ptr : ℕ) (a a' : Allocator) (v : IsValid a.memory)
    (backed : Backed (record a { allocate_ptr = at })) where
  abbrev moved : Allocator
  moved = record a {
    allocate_ptr = at + size;
    memory = (commit (align_page at) (align_page size) undefined a.memory).1;
  }

  committed-Handed :
      (r : Result (Unit {0}))
      → (commit (align_page at) (align_page size) undefined a.memory).0 ≡ r
      → at + size ≤ a.allocate_base + a.allocate_size
      → and_then r (λ _. pure at) moved ≡ (ok ptr, a')
      → Handed at size ptr a a'
  committed-Handed (raise e) done fits h = absurd (ground (arith, ap (λ r. r.0) h))
  committed-Handed (ok tt) done fits h =
      let (valid, effect) =
        committed_after a.memory (align_page at) (align_page size) undefined v done in
      subst
        (λ (r : Result ℕ × Allocator). Handed at size (elim r.0 [ ok n ↦ n | raise _ ↦ at ]) a r.1)
        h
        (
          refl,
          refl,
          refl,
          fits,
          refl,
          valid,
          λ q paged low high.
              effect q
              ∙ backed_more a.allocate_base at size q (is_some (a.memory.committed q)) paged low
                  high (backed q paged low),
        )

  hand_out-Handed : hand_out at size a ≡ (ok ptr, a') → Handed at size ptr a a'
  unfolding hand_out on_memory
  hand_out-Handed h = elim (Bool-cases (ltb (a.allocate_base + a.allocate_size) (at + size))) [
    | inl over ↦ absurd (ground (arith, ap (λ r. r.0) (rw over at h)))
    | inr fits ↦ committed-Handed _ refl (ground (arith, fits)) (rw fits at h)
  ]

-- The region is open, and nothing of it is handed out yet.
first_open :
    (a b : Allocator) (u : Unit {0})
    → IsValid a.memory
    → open_region a ≡ (ok u, b)
    → IsValid b.memory × (b.allocate_ptr ≡ b.allocate_base)
unfolding open_region on_memory
first_open a b u v h =
    let (base, (s₁, (e₁, h₁))) =
      bind_returned (on_memory (reads (free_region a.allocate_size))) _ a b u h in
    let (u₂, (s₂, (e₂, h₂))) =
      bind_returned
        (on_memory
          (reserve base a.allocate_size page_execute_readwrite mem_private (some (label 0))))
        _ (record s₁ { allocate_base = base }) b u h₁ in
    let valid₁ : IsValid s₁.memory = subst IsValid (ap (λ r. r.1.memory) e₁) v in
    (
      subst IsValid (ap (λ r. r.1.memory) e₂ ∙ ap (λ r. r.1.memory) h₂) (
          reserve-IsValid s₁.memory valid₁ base a.allocate_size page_execute_readwrite mem_private
            (some (label 0))),
      sym (ap (λ r. r.1.allocate_ptr) h₂)
          ∙ ap (λ r. r.1.allocate_base) e₂
          ∙ ap (λ r. r.1.allocate_base) h₂,
    )

-- What the first call opens, or a later one finds.
abbrev Ready : (a b : Allocator) → Type 0
Ready a b =
    IsValid b.memory
    × Backed b
    × (b.allocate_base ≤ b.allocate_ptr)
    × (b.allocate_ptr ≤ limit b)
    × (a.allocate_ptr ≤ b.allocate_ptr)

open_lem :
    (a b : Allocator) (u : Unit {0})
    → IsValid a.memory
    → Opened a
    → Backed a
    → (if a.allocate_ptr == 0 then open_region else pure tt) a ≡ (ok u, b)
    → Ready a b
open_lem a b u v opened backed h = elim (Bool-cases (a.allocate_ptr == 0)) [
  | inl first ↦
      let (valid, e) = first_open a b u v (rw first at h) in
      (
        valid,
        λ q paged low high. absurd (omega (arith, e, low, high)),
        omega (arith, e),
        omega (arith, e),
        ground (arith, first),
      )
  | inr later ↦
      let same : a ≡ b = ap (λ r. r.1) (rw later at h) in
      let inside : (a.allocate_base ≤ a.allocate_ptr) × (a.allocate_ptr ≤ limit a) =
        ground (arith, later, opened) in
      subst (Ready a) same (v, backed, inside.0, inside.1, omega arith)
]

-- Rounding the pointer passes no page, and does not lower it.
round_lem :
    (n : ℕ)
    → (round_to_pages n % page_size ≡ 0)
      × ((q : ℕ) → q % page_size ≡ 0 → q < round_to_pages n → q < n)
      × (n + 0x1000 ≤ 2 ^ 64 → n ≤ round_to_pages n)
unfolding round_to_pages
round_lem n = (omega arith, λ q paged h. omega (arith, paged, h), λ h. omega (arith, h))

-- Let the manager be valid, the pointer be 0 or in the region, and all pages from the region's base to the
-- pointer be committed, as is the case before the first call. When `allocate` returns a block, the block
-- lies in the region, which shall end a page below 2^64 at most, and not before the pointer; the pointer
-- has moved to the block's end, the manager is valid, and again all pages from the base to the pointer are
-- committed. With whole pages asked for, the size is rounded up and the block starts at a page.
pub allocate-HandsOut :
    (size ptr : ℕ) (whole_pages : Bool) (a a' : Allocator)
    → IsValid a.memory
    → Opened a
    → Backed a
    → limit a' + 0x1000 ≤ 2 ^ 64
    → allocate size whole_pages a ≡ (ok ptr, a')
    → HandsOut (if whole_pages then round_to_pages size else size) ptr a a'
      × ((if whole_pages then ptr % page_size else 0) ≡ 0)
unfolding allocate
allocate-HandsOut size ptr true a a' v opened backed small h =
    let (u, (b, (e, k))) =
      bind_returned (if a.allocate_ptr == 0 then open_region else pure tt) _ a a' ptr h in
    let (valid, full, low, high, from) = open_lem a b u v opened backed e in
    let (paged, none_passed, above) = round_lem b.allocate_ptr in
    let (at, base, whole, fits, end, valid', full') =
      hand_out-Handed (round_to_pages b.allocate_ptr) (round_to_pages size) ptr
        (record b { allocate_ptr = round_to_pages b.allocate_ptr }) a' valid
        (λ q p l h. full q p l (none_passed q p h)) k in
    let le : b.allocate_ptr ≤ ptr =
      omega (arith, at, above (omega (arith, high, base, whole, small))) in
    (
      (omega (arith, from, le), omega (arith, base, low, le), fits, end, valid', full'),
      omega (arith, at, paged),
    )
allocate-HandsOut size ptr false a a' v opened backed small h =
    let (u, (b, (e, k))) =
      bind_returned (if a.allocate_ptr == 0 then open_region else pure tt) _ a a' ptr h in
    let (valid, full, low, high, from) = open_lem a b u v opened backed e in
    let (at, base, whole, fits, end, valid', full') =
      hand_out-Handed b.allocate_ptr size ptr b a' valid full k in
    ((omega (arith, from, at), omega (arith, base, low, at), fits, end, valid', full'), refl)
