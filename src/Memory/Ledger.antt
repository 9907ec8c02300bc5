-- ===== src/Memory/Ledger.antt =====
-- The invariant of the loops of `commit` and `decommit`, and what the loop bodies do to it.
use dumpulator.Prelude.{
  ℕ, zero, suc, ◌+◌, ◌%◌, ◌≡◌, refl, ◌∙◌, Bool-cases, true, false, Option, none, some, List, ◌∷◌,
  arith, inl, inr, ◌==◌, if◌then◌else◌, is_some, Option-cases,
}
use dumpulator.Prelude.Dict.{Dict, put}
use dumpulator.Memory.Protect.{page_size, MemoryProtect, MemoryType}
use dumpulator.Memory.Region.{page_count, page_range, post_init}
use dumpulator.Memory.Pager.{Call, Table, accept, replay, replay-cons}
use dumpulator.Memory.Contract.{map_pages_lem, unmap_pages_lem, protect_pages_lem}
use dumpulator.Memory.Count.{
  in_range, in_range_below, in_range_bounds, count, count-put_new, count-put_old,
}
use dumpulator.Memory.Manager.{Page}
use dumpulator.Memory.Commit.{Ledger, new_page, commit_page, commit_each, commit_all}

abbrev pub protection : Option Page → Option MemoryProtect
protection none = none
protection (some p) = some p.protect

-- A page manager that got the calls has broken no contract, and has mapped the committed pages with
-- their protections.
pub record IsSynced (calls : List Call) (c : Dict Page) : Type 0 where
  pub mapped : Table
  pub replayed : replay calls ≡ some mapped
  pub agrees : (q : ℕ) → mapped q ≡ protection (c q)

module _ (calls : List Call) (c d : Dict Page) (addr size : ℕ) (s : IsSynced calls c)
    (whole : post_init addr size ≡ true) where
  pub IsSynced-commit :
      (prot : MemoryProtect)
      → ((q : ℕ) → in_range q addr (page_count size) ≡ true → is_some (c q) ≡ false)
      → ((q : ℕ)
          → protection (d q)
            ≡ (if in_range q addr (page_count size) then some prot else protection (c q)))
      → IsSynced (Call.commit addr size prot ∷ calls) d
  unfolding accept
  IsSynced-commit prot free effect =
      let (t, e, f) =
        map_pages_lem (page_count size) addr prot s.mapped
          (λ q k. ground (arith, s.agrees q, free q k)) in
      record {
        mapped = t;
        replayed =
            replay-cons (Call.commit addr size prot) calls s.mapped s.replayed ∙ ground arith;
        agrees = λ q. ground (arith, f q, effect q, s.agrees q);
      }

  pub IsSynced-decommit :
      ((q : ℕ) → in_range q addr (page_count size) ≡ true → is_some (c q) ≡ true)
      → ((q : ℕ) → d q ≡ (if in_range q addr (page_count size) then none else c q))
      → IsSynced (Call.decommit addr size ∷ calls) d
  unfolding accept
  IsSynced-decommit present effect =
      let (t, e, f) =
        unmap_pages_lem (page_count size) addr s.mapped
          (λ q k. ground (arith, s.agrees q, present q k)) in
      record {
        mapped = t;
        replayed = replay-cons (Call.decommit addr size) calls s.mapped s.replayed ∙ ground arith;
        agrees = λ q. ground (arith, f q, effect q, s.agrees q);
      }

  pub IsSynced-protect :
      (prot : MemoryProtect)
      → ((q : ℕ) → in_range q addr (page_count size) ≡ true → is_some (c q) ≡ true)
      → ((q : ℕ)
          → protection (d q)
            ≡ (if in_range q addr (page_count size) then some prot else protection (c q)))
      → IsSynced (Call.protect addr size prot ∷ calls) d
  unfolding accept
  IsSynced-protect prot present effect =
      let (t, e, f) =
        protect_pages_lem (page_count size) addr prot s.mapped
          (λ q k. ground (arith, s.agrees q, present q k)) in
      record {
        mapped = t;
        replayed =
            replay-cons (Call.protect addr size prot) calls s.mapped s.replayed ∙ ground arith;
        agrees = λ q. ground (arith, f q, effect q, s.agrees q);
      }

-- The invariant of a ledger whose parent region has `n` pages from `start`.
pub record IsSound (start n : ℕ) (l : Ledger) : Type 0 where
  pub synced : IsSynced l.calls l.committed
  pub counted : l.commit_count ≡ count l.committed start n

-- What `commit` makes of a page.
abbrev pub commit_to : MemoryProtect → MemoryType → Option Page → Option Page
commit_to prot type none = some (new_page prot type)
commit_to prot type (some p) = some (record p { protect = prot })

one_page : (q page : ℕ) → in_range q page 1 ≡ (page == q)
unfolding in_range
one_page q page = ground arith

module _ (prot : MemoryProtect) (type : MemoryType) (start n : ℕ) where
  commit_page_effect :
      (page q : ℕ) (l : Ledger)
      → (commit_page prot type page l).committed q
        ≡ (if page == q then commit_to prot type (l.committed page) else l.committed q)
  unfolding commit_page
  commit_page_effect page q l = ground arith

  used_page :
      (page : ℕ) (l : Ledger) (p : Page)
      → page % page_size ≡ 0
      → in_range page start n ≡ true
      → IsSound start n l
      → l.committed page ≡ some p
      → IsSound start n (
          if p.protect == prot then l else record l {
            calls = Call.protect page page_size prot ∷ l.calls;
            committed = put page (record p { protect = prot }) l.committed;
          })
  used_page page l p a h s used = elim (Bool-cases (p.protect == prot)) [
    | inl same ↦ rw same s
    | inr other ↦ rw other (record {
      synced =
          IsSynced-protect l.calls l.committed (put page (record p { protect = prot }) l.committed)
            page page_size s.synced (ground arith) prot (λ q k. ground (arith, one_page q page))
            (λ q. ground (arith, one_page q page));
      counted =
          ground (
            arith,
            s.counted,
            count-put_old l.committed start n page (record p { protect = prot }),
          );
    })
  ]

  commit_page-IsSound :
      (page : ℕ) (l : Ledger)
      → page % page_size ≡ 0
      → in_range page start n ≡ true
      → IsSound start n l
      → IsSound start n (commit_page prot type page l)
  unfolding commit_page
  commit_page-IsSound page l a h s = elim (Option-cases (l.committed page)) [
    | inl free ↦
        rw (free, commit_page)
          (record {
            synced =
                IsSynced-commit l.calls l.committed (put page (new_page prot type) l.committed) page
                  page_size s.synced (ground arith) prot (λ q k. ground (arith, one_page q page))
                  (λ q. ground (arith, one_page q page));
            counted =
                ground
                  (arith, s.counted, count-put_new l.committed start n page (new_page prot type) h);
          })
    | inr (p, used) ↦ rw (used, commit_page) (used_page page l p a h s used)
  ]

  pub commit_each-IsSound :
      (k page : ℕ) (l : Ledger)
      → page % page_size ≡ 0
      → ((q : ℕ) → in_range q page k ≡ true → in_range q start n ≡ true)
      → IsSound start n l
      → IsSound start n (commit_each prot type (page_range page k) l)
  unfolding commit_each page_range
  commit_each-IsSound zero page l a h s = s
  commit_each-IsSound (suc k) page l a h s =
      commit_each-IsSound k (page + page_size) (commit_page prot type page l) (omega arith)
        (λ q e. h q (unfold in_range in rw e (ground arith)))
        (commit_page-IsSound page l a (h page (unfold in_range in ground arith)) s)

  -- Exactly the pages of the range are changed.
  pub commit_each_effect :
      (k page q : ℕ) (l : Ledger)
      → (commit_each prot type (page_range page k) l).committed q
        ≡ (if in_range q page k then commit_to prot type (l.committed q) else l.committed q)
  unfolding commit_each page_range in_range
  commit_each_effect zero page q l = refl
  commit_each_effect (suc k) page q l = ground (
    arith,
    commit_each_effect k (page + page_size) q (commit_page prot type page l),
    commit_page_effect page q l,
    in_range_below q (page + page_size) k,
  )

  abbrev added : ℕ → Ledger → Ledger
  added page l = record l {
    committed = put page (new_page prot type) l.committed;
    commit_count = l.commit_count + 1;
  }

  rest_free :
      (k page : ℕ) (l : Ledger)
      → ((q : ℕ) → in_range q page (suc k) ≡ true → is_some (l.committed q) ≡ false)
      → (q : ℕ) → in_range q (page + page_size) k ≡ true
      → is_some ((added page l).committed q) ≡ false
  unfolding in_range
  rest_free k page l free q e =
      ground (arith, free q (rw e (ground arith)), in_range_bounds q (page + page_size) k)

  pub commit_all_effect :
      (k page q : ℕ) (l : Ledger)
      → ((q : ℕ) → in_range q page k ≡ true → is_some (l.committed q) ≡ false)
      → (commit_all prot type (page_range page k) l).committed q
        ≡ (if in_range q page k then commit_to prot type (l.committed q) else l.committed q)
  unfolding commit_all page_range in_range
  commit_all_effect zero page q l h = refl
  commit_all_effect (suc k) page q l h = ground (
    arith,
    commit_all_effect k (page + page_size) q (added page l) (rest_free k page l h),
    h page,
    in_range_below q (page + page_size) k,
  )

  pub commit_all_calls :
      (k page : ℕ) (l : Ledger) → (commit_all prot type (page_range page k) l).calls ≡ l.calls
  unfolding commit_all page_range
  commit_all_calls zero page l = refl
  commit_all_calls (suc k) page l = commit_all_calls k (page + page_size) _

  pub commit_all-count :
      (k page : ℕ) (l : Ledger)
      → ((q : ℕ) → in_range q page k ≡ true → in_range q start n ≡ true)
      → ((q : ℕ) → in_range q page k ≡ true → is_some (l.committed q) ≡ false)
      → l.commit_count ≡ count l.committed start n
      → (commit_all prot type (page_range page k) l).commit_count
        ≡ count (commit_all prot type (page_range page k) l).committed start n
  unfolding commit_all page_range in_range
  commit_all-count zero page l h free e = e
  commit_all-count (suc k) page l h free e =
      commit_all-count k (page + page_size) (added page l) (λ q i. h q (rw i (ground arith)))
        (rest_free k page l free)
        (ground (
          arith,
          count-put_new l.committed start n page (new_page prot type) (h page (ground arith))
              (free page (ground arith)),
        ))
