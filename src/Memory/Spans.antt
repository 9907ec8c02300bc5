-- ===== src/Memory/Spans.antt =====
-- The spans of pages that `query` reports: as long as they can be.
use dumpulator.Prelude.{
  ℕ, zero, suc, ◌+◌, ◌*◌, ◌%◌, ◌≤◌, ◌<◌, ◌≡◌, refl, ◌∙◌, ◌⊎◌, inl, inr, Bool, Bool-cases, true,
  false, not, List, ◌∷◌, arith, ltb, is_some,
}
use dumpulator.Prelude.Dict.{Dict}
use dumpulator.Memory.Protect.{page_size, MemoryProtect, MemoryType}
use dumpulator.Memory.Region.{page_range}
use dumpulator.Memory.Count.{in_range}
use dumpulator.Memory.Manager.{Page}
use dumpulator.Memory.Query.{
  InfoAt, pages_from, reserved_span, matches, info_of, add_info, committed_span,
}

-- The `n` pages from `base` on satisfy `P`, and the span ends at `stop` or where `P` fails.
pub record IsSpan (P : ℕ → Bool) (base n stop : ℕ) : Type 0 where
  pub inside : base + n * page_size ≤ stop
  pub all : (q : ℕ) → in_range q base n ≡ true → P q ≡ true
  pub longest : (base + n * page_size ≡ stop) ⊎ (P (base + n * page_size) ≡ false)

IsSpan-empty :
    (P : ℕ → Bool) (base stop : ℕ)
    → base ≤ stop
    → (base ≡ stop) ⊎ (P base ≡ false)
    → IsSpan P base 0 stop
unfolding in_range
IsSpan-empty P base stop h e =
    let z : base + 0 * page_size ≡ base = omega arith in
    record { inside = omega arith; all = λ q k. cc; longest = rw z e }

pub IsSpan-longer :
    (P : ℕ → Bool) (base n stop : ℕ)
    → P base ≡ true
    → IsSpan P (base + page_size) n stop
    → IsSpan P base (suc n) stop
unfolding in_range
IsSpan-longer P base n stop h s =
    let z : base + suc n * page_size ≡ base + page_size + n * page_size = omega arith in
    record {
      inside = omega (arith, s.inside);
      all = λ q k. ground (arith, h, k, s.all q);
      longest = rw z s.longest;
    }

abbrev pub is_reserved : Dict Page → ℕ → Bool
is_reserved c q = not (is_some (c q))

pub reserved_span-IsSpan :
    (c : Dict Page) (k base size : ℕ)
    → (n : ℕ) × ((reserved_span c (page_range base k) size ≡ size + n * page_size)
        × IsSpan (is_reserved c) base n (base + k * page_size))
unfolding reserved_span page_range
reserved_span-IsSpan c zero base size =
    (0, (omega arith, IsSpan-empty (is_reserved c) base _ (omega arith) (inl (omega arith))))
reserved_span-IsSpan c (suc k) base size = elim (Bool-cases (is_some (c base))) [
  | inl taken ↦ (
    0,
    (
      rw taken (omega arith),
      IsSpan-empty (is_reserved c) base _ (omega arith) (inr (rw taken refl)),
    ),
  )
  | inr unused ↦
      let (n, (e, s)) = reserved_span-IsSpan c k (base + page_size) (size + page_size) in
      let stop : base + page_size + k * page_size ≡ base + suc k * page_size = omega arith in
      (
        suc n,
        (
          rw unused (e ∙ omega arith),
          IsSpan-longer (is_reserved c) base n _ (rw unused refl) (rw stop at s),
        ),
      )
]

pub committed_span-IsSpan :
    (prot : MemoryProtect) (type : MemoryType) (c : Dict Page) (k base size : ℕ)
    (seen : List InfoAt)
    → (n : ℕ) × (((committed_span prot type c (page_range base k) size seen).0
          ≡ size + n * page_size)
        × IsSpan (λ q. matches prot type (c q)) base n (base + k * page_size))
unfolding committed_span page_range
committed_span-IsSpan prot type c zero base size seen = (
  0,
  (
    omega arith,
    IsSpan-empty (λ q. matches prot type (c q)) base _ (omega arith) (inl (omega arith)),
  ),
)
committed_span-IsSpan prot type c (suc k) base size seen =
    elim (Bool-cases (matches prot type (c base))) [
      | inr other ↦ (
        0,
        (
          rw other (omega arith),
          IsSpan-empty (λ q. matches prot type (c q)) base _ (omega arith) (inr other),
        ),
      )
      | inl same ↦
          let (n, (e, s)) =
            committed_span-IsSpan prot type c k (base + page_size) (size + page_size)
              (add_info (info_of (c base)) base seen) in
          let stop : base + page_size + k * page_size ≡ base + suc k * page_size = omega arith in
          (
            suc n,
            (
              rw same (e ∙ omega arith),
              IsSpan-longer (λ q. matches prot type (c q)) base n _ same (rw stop at s),
            ),
          )
    ]

-- The loop skips the pages in front of `start`.
pub pages_from_lem :
    (start base k : ℕ)
    → base % page_size ≡ 0
    → start % page_size ≡ 0
    → base ≤ start
    → start < base + k * page_size
    → (n : ℕ) × ((pages_from start (page_range base k) ≡ start ∷ page_range (start + page_size) n)
        × (start + suc n * page_size ≡ base + k * page_size))
unfolding pages_from page_range
pages_from_lem start base zero b s le lt = absurd (omega arith)
pages_from_lem start base (suc k) b s le lt = elim (Bool-cases (ltb base start)) [
  | inl below ↦
      let (n, (e, f)) =
        pages_from_lem start (base + page_size) k (omega arith) s (ground arith) (omega arith) in
      (n, (rw below e, omega (arith, f)))
  | inr here ↦
      let same : base ≡ start = ground arith in (k, (rw (here, same) refl, omega (arith, same)))
]
