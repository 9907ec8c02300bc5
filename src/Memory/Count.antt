-- ===== src/Memory/Count.antt =====
-- Ranges of pages, and the number of committed pages in one.
use dumpulator.Prelude.{
  ℕ, zero, suc, ◌+◌, ◌*◌, ◌%◌, ◌≤◌, ◌<◌, ◌≡◌, refl, inl, inr, Bool, Bool-cases, true, false, ◌||◌,
  arith, ◌==◌, if◌then◌else◌, is_some,
}
use dumpulator.Prelude.Dict.{Dict, put, erase}
use dumpulator.Memory.Protect.{page_size}

-- Whether `q` is one of the `count` pages from `start`.
unfoldable pub in_range : (q start count : ℕ) → Bool
in_range q start zero = false
in_range q start (suc count) = start == q || in_range q (start + page_size) count

-- How many of the `n` pages from `start` are committed.
unfoldable pub count {ℓ} : {V : Type ℓ} → Dict V → (start n : ℕ) → ℕ
count c start zero = 0
count c start (suc n) =
    let rest = count c (start + page_size) n in if is_some (c start) then suc rest else rest

pub in_range_bounds :
    (q start n : ℕ)
    → in_range q start n ≡ true
    → (start ≤ q) × (q + page_size ≤ start + n * page_size)
unfolding in_range
in_range_bounds q start zero h = ground arith
in_range_bounds q start (suc n) h = ground (arith, in_range_bounds q (start + page_size) n)

pub in_range_below : (q start n : ℕ) → q < start → in_range q start n ≡ false
unfolding in_range
in_range_below q start zero h = refl
in_range_below q start (suc n) h = ground (arith, in_range_below q (start + page_size) n)

-- Between page addresses the bounds are exact.
pub in_range_intro :
    (q start n : ℕ)
    → start % page_size ≡ 0
    → q % page_size ≡ 0
    → start ≤ q
    → q < start + n * page_size
    → in_range q start n ≡ true
unfolding in_range
in_range_intro q start zero a b h k = absurd (omega arith)
in_range_intro q start (suc n) a b h k =
    ground (arith, in_range_intro q (start + page_size) n (omega arith) b)

pub in_range_aligned :
    (q start n : ℕ) → start % page_size ≡ 0 → in_range q start n ≡ true → q % page_size ≡ 0
unfolding in_range
in_range_aligned q start zero a h = cc
in_range_aligned q start (suc n) a h =
    ground (arith, in_range_aligned q (start + page_size) n (omega arith))

module _ {ℓ} {V : Type ℓ} where
  -- Only which pages are committed matters.
  pub count_cong :
      (c d : Dict V) (start n : ℕ)
      → ((q : ℕ) → in_range q start n ≡ true → is_some (c q) ≡ is_some (d q))
      → count c start n ≡ count d start n
  unfolding count in_range
  count_cong c d start zero h = refl
  count_cong c d start (suc n) h =
      ground
        (arith, h start, count_cong c d (start + page_size) n (λ q e. h q (rw e (ground arith))))

  pub count-le : (c : Dict V) (start n : ℕ) → count c start n ≤ n
  unfolding count
  count-le c start zero = omega arith
  count-le c start (suc n) = ground (arith, count-le c (start + page_size) n)

  -- No page of the range is committed exactly when the count is 0.
  pub count-eq-zero :
      (c : Dict V) (start n q : ℕ)
      → count c start n ≡ 0
      → in_range q start n ≡ true
      → is_some (c q) ≡ false
  unfolding count in_range
  count-eq-zero c start zero q h e = cc
  count-eq-zero c start (suc n) q h e = ground (arith, count-eq-zero c (start + page_size) n q)

  pub count_none :
      (c : Dict V) (start n : ℕ)
      → ((q : ℕ) → in_range q start n ≡ true → is_some (c q) ≡ false)
      → count c start n ≡ 0
  unfolding count in_range
  count_none c start zero h = refl
  count_none c start (suc n) h =
      ground (arith, h start, count_none c (start + page_size) n (λ q e. h q (rw e (ground arith))))

  pub count-put_new :
      (c : Dict V) (start n q : ℕ) (v : V)
      → in_range q start n ≡ true
      → is_some (c q) ≡ false
      → count (put q v c) start n ≡ suc (count c start n)
  unfolding count in_range
  count-put_new c start zero q v h e = cc
  count-put_new c start (suc n) q v h e = elim (Bool-cases (start == q)) [
    | inl here ↦ ground (
      arith,
      count_cong (put q v c) c (start + page_size) n
          (λ p k. ground (arith, in_range_bounds p (start + page_size) n k)),
    )
    | inr there ↦ ground (arith, count-put_new c (start + page_size) n q v)
  ]

  pub count-put_old :
      (c : Dict V) (start n q : ℕ) (v : V)
      → is_some (c q) ≡ true
      → count (put q v c) start n ≡ count c start n
  count-put_old c start n q v e = count_cong (put q v c) c start n (λ p k. ground arith)

  pub count-erase :
      (c : Dict V) (start n q : ℕ)
      → in_range q start n ≡ true
      → is_some (c q) ≡ true
      → suc (count (erase q c) start n) ≡ count c start n
  unfolding count in_range
  count-erase c start zero q h e = cc
  count-erase c start (suc n) q h e = elim (Bool-cases (start == q)) [
    | inl here ↦ ground (
      arith,
      count_cong (erase q c) c (start + page_size) n
          (λ p k. ground (arith, in_range_bounds p (start + page_size) n k)),
    )
    | inr there ↦ ground (arith, count-erase c (start + page_size) n q)
  ]

  -- A range of pages counts as its two parts.
  pub count-add :
      (c : Dict V) (start m n : ℕ)
      → count c start (m + n) ≡ count c start m + count c (start + m * page_size) n
  unfolding count
  count-add c start zero n =
      let e : 0 + n ≡ n = omega arith in
      let e' : start + 0 * page_size ≡ start = omega arith in rw (e, e') (omega arith)
  count-add c start (suc m) n =
      let e : suc m + n ≡ suc (m + n) = omega arith in
      let e' : start + suc m * page_size ≡ start + page_size + m * page_size = omega arith in
      rw (e, e') (ground (arith, count-add c (start + page_size) m n))
