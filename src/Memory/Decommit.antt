-- ===== src/Memory/Decommit.antt =====
-- `_decommit_region`: releasing runs of committed pages by one call each has the effect of
-- releasing every committed page of the range, and raises nothing.
use dumpulator.Prelude.{
  ℕ, zero, suc, ◌+◌, ◌-◌, ◌*◌, ◌%◌, ◌/◌, ◌≡◌, refl, Bool-cases, true, false, ◌||◌, none, some, ◌∷◌,
  arith, inl, inr, ◌==◌, if◌then◌else◌, is_some, Option-cases,
}
use dumpulator.Prelude.Dict.{erase}
use dumpulator.Outcome.{Result, ok, raise, Returns, Returns-map}
use dumpulator.Memory.Protect.{page_size}
use dumpulator.Memory.Region.{page_range}
use dumpulator.Memory.Pager.{Call}
use dumpulator.Memory.Count.{in_range, in_range_bounds, count, count-erase}
use dumpulator.Memory.Commit.{Ledger, delete_run, flush, and_next, decommit_loop}
use dumpulator.Memory.Ledger.{IsSound, IsSynced-decommit}

pub in_range-add :
    (q start m n : ℕ)
    → in_range q start (m + n) ≡ in_range q start m || in_range q (start + m * page_size) n
unfolding in_range
in_range-add q start zero n =
    let e : 0 + n ≡ n = omega arith in
    let e' : start + 0 * page_size ≡ start = omega arith in rw (e, e') refl
in_range-add q start (suc m) n =
    let e : suc m + n ≡ suc (m + n) = omega arith in
    let e' : start + suc m * page_size ≡ start + page_size + m * page_size = omega arith in
    rw (e, e') (ground (arith, in_range-add q (start + page_size) m n))

no_pages : (q start : ℕ) → in_range q start 0 ≡ false
unfolding in_range
no_pages q start = refl

and_next_Returns :
    (P Q : Ledger → Type 0) (r : Result Ledger) (f : Ledger → Result Ledger)
    → Returns r P
    → ((l : Ledger) → P l → Returns (f l) Q)
    → Returns (and_next r f) Q
unfolding and_next
and_next_Returns P Q (ok l) f p h = h l p
and_next_Returns P Q (raise e) f p h = absurd p

-- `l'` is `l` without the `k` pages from `page`.
abbrev pub Cleared : (page k : ℕ) (l l' : Ledger) → Type 0
Cleared page k l l' = (q : ℕ) → l'.committed q ≡ (if in_range q page k then none else l.committed q)

abbrev Present : (page k : ℕ) → Ledger → Type 0
Present page k l = (q : ℕ) → in_range q page k ≡ true → is_some (l.committed q) ≡ true

module _ (start n : ℕ) where
  abbrev pub Within : (page k : ℕ) → Type 0
  Within page k = (q : ℕ) → in_range q page k ≡ true → in_range q start n ≡ true

  abbrev Deleted : (page k : ℕ) (l l' : Ledger) → Type 0
  Deleted page k l l' =
      (l'.calls ≡ l.calls) × (l'.commit_count ≡ count l'.committed start n) × Cleared page k l l'

  abbrev deleted_one : ℕ → Ledger → Ledger
  deleted_one page l = record l {
    committed = erase page l.committed;
    commit_count = l.commit_count - 1;
  }

  delete_run-Deleted :
      (k page : ℕ) (l : Ledger)
      → Within page k
      → Present page k l
      → l.commit_count ≡ count l.committed start n
      → Returns (delete_run page k l) (Deleted page k l)
  unfolding delete_run in_range
  delete_run-Deleted zero page l w p e = (refl, e, λ q. refl)
  delete_run-Deleted (suc k) page l w p e = elim (Option-cases (l.committed page)) [
    | inl absent ↦ absurd (ground (arith, p page))
    | inr (v, here) ↦
        rw (here, delete_run)
          (Returns-map (Deleted (page + page_size) k (deleted_one page l)) (Deleted page (suc k) l)
            (delete_run (page + page_size) k (deleted_one page l))
            (λ l' (c, d, f). (c, d, λ q. ground (arith, f q)))
            (delete_run-Deleted k (page + page_size) (deleted_one page l)
              (λ q i. w q (rw i (ground arith)))
              (λ q i.
                ground (arith, p q (rw i (ground arith)), in_range_bounds q (page + page_size) k))
              (ground (arith, count-erase l.committed start n page (w page (ground arith))))))
  ]

  abbrev pub Decommitted : (page k : ℕ) (l l' : Ledger) → Type 0
  Decommitted page k l l' = IsSound start n l' × Cleared page k l l'

  flush-Decommitted :
      (page k : ℕ) (l : Ledger)
      → page % page_size ≡ 0
      → Within page k
      → Present page k l
      → IsSound start n l
      → Returns (flush (some page) k l) (Decommitted page k l)
  unfolding flush
  flush-Decommitted page k l a w p s =
      let called : Ledger = record l { calls = Call.decommit page (k * page_size) ∷ l.calls } in
      let whole : k * page_size / page_size ≡ k = omega arith in
      Returns-map (Deleted page k called) (Decommitted page k l) (delete_run page k called)
        (λ l' (c, d, f). (
          record {
            synced = rw c (
                IsSynced-decommit l.calls l.committed l'.committed page (k * page_size) s.synced
                  (ground arith) (rw whole p) (rw whole f));
            counted = d;
          },
          f,
        ))
        (delete_run-Deleted k page called w p s.counted)

  -- The loop between two runs, and the loop with a pending run of `suc count` pages from `run`.
  abbrev Idle : ℕ → Type 0
  Idle k =
      (page : ℕ) (l : Ledger)
      → page % page_size ≡ 0
      → Within page k
      → IsSound start n l
      → Returns (decommit_loop (page_range page k) none 0 l) (Decommitted page k l)

  abbrev Pending : ℕ → Type 0
  Pending k =
      (run c page : ℕ) (l : Ledger)
      → run % page_size ≡ 0
      → run + suc c * page_size ≡ page
      → Within run (suc c + k)
      → Present run (suc c) l
      → IsSound start n l
      → Returns (decommit_loop (page_range page k) (some run) (suc c) l)
          (Decommitted run (suc c + k) l)

  Idle-next : (k : ℕ) → Idle k → Pending k → Idle (suc k)
  unfolding decommit_loop page_range in_range
  Idle-next k idle pending page l a w s = elim (Bool-cases (is_some (l.committed page))) [
    | inl used ↦ rw used (
        let e : suc zero + k ≡ suc k = omega arith in
        rw e at
          (pending page 0 (page + page_size) l a (omega arith) (rw e w) (λ q i. ground arith) s))
    | inr free ↦ rw free (
        Returns-map (Decommitted (page + page_size) k l) (Decommitted page (suc k) l)
          (decommit_loop (page_range (page + page_size) k) none 0 l)
          (λ l' (d, f). (d, λ q. ground (arith, f q, in_range_bounds q (page + page_size) k)))
          (idle (page + page_size) l (omega arith) (λ q i. w q (rw i (ground arith))) s))
  ]

  later_in_range :
      (run c page k q : ℕ)
      → run + suc c * page_size ≡ page
      → in_range q run (suc c + suc k)
        ≡ in_range q run (suc c) || (page == q || in_range q (page + page_size) k)
  later_in_range run c page k q e =
      rw (in_range-add q run (suc c) (suc k), e) (unfold in_range in refl)

  one_more :
      (run c page : ℕ) (l : Ledger)
      → run + suc c * page_size ≡ page
      → is_some (l.committed page) ≡ true
      → Present run (suc c) l
      → Present run (suc (suc c)) l
  one_more run c page l e used p q i =
      let longer : suc (suc c) ≡ suc c + suc 0 = omega arith in
      let j : in_range q run (suc c + suc 0) ≡ true = rw longer at i in
      ground (arith, later_in_range run c page 0 q e, p q, no_pages q (page + page_size))

  Pending-next : (k : ℕ) → Idle k → Pending k → Pending (suc k)
  unfolding decommit_loop page_range
  Pending-next k idle pending run c page l a next w p s =
      elim (Bool-cases (is_some (l.committed page))) [
        | inl used ↦
            let e : c + 2 ≡ suc (suc c) = omega arith in
            let e' : suc c + suc k ≡ suc (suc c) + k = omega arith in
            rw (used, e, e')
              (pending run (suc c) (page + page_size) l a (omega arith) (rw e' at w)
                (one_more run c page l next used p) s)
        | inr free ↦ rw free (
            and_next_Returns (Decommitted run (suc c) l) (Decommitted run (suc c + suc k) l)
              (flush (some run) (suc c) l) (decommit_loop (page_range (page + page_size) k) none 0)
              (flush-Decommitted run (suc c) l a
                (λ q i. w q (rw (later_in_range run c page k q next, i) refl)) p s)
              (λ l' (d, f).
                Returns-map (Decommitted (page + page_size) k l')
                  (Decommitted run (suc c + suc k) l)
                  (decommit_loop (page_range (page + page_size) k) none 0 l')
                  (λ l'' (d', f').
                    (d', λ q. ground (arith, f q, f' q, later_in_range run c page k q next)))
                  (idle (page + page_size) l' (omega arith)
                    (λ q i. w q (rw (later_in_range run c page k q next, i) (ground arith))) d)))
      ]

  Pending-end : Pending zero
  unfolding decommit_loop page_range
  Pending-end run c page l a next w p s =
      let e : suc c + zero ≡ suc c = omega arith in
      rw e (flush-Decommitted run (suc c) l a (rw e at w) p s)

  loops : (k : ℕ) → Idle k × Pending k
  loops zero =
      ((λ page l a w s. unfold decommit_loop page_range in_range in (s, λ q. refl)), Pending-end)
  loops (suc k) =
      let (idle, pending) = loops k in (Idle-next k idle pending, Pending-next k idle pending)

  -- The loop ends without an exception, and exactly the pages of the range are gone.
  pub decommit_loop-Decommitted :
      (k page : ℕ) (l : Ledger)
      → page % page_size ≡ 0
      → Within page k
      → IsSound start n l
      → Returns (decommit_loop (page_range page k) none 0 l) (Decommitted page k l)
  decommit_loop-Decommitted k page l a w s = (loops k).0 page l a w s
