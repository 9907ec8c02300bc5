-- ===== src/Memory/Contract.antt =====
-- What each call of the page manager does to the mapped pages, when its contract is kept.
use dumpulator.Prelude.{
  ℕ, zero, suc, ◌+◌, ◌≡◌, refl, true, false, Option, none, some, arith, if◌then◌else◌, is_some,
}
use dumpulator.Prelude.Dict.{put, erase}
use dumpulator.Memory.Protect.{page_size, MemoryProtect}
use dumpulator.Memory.Pager.{Table, map_pages, unmap_pages, protect_pages}
use dumpulator.Memory.Count.{in_range, in_range_bounds}

-- The call was accepted, and `f` says what it left at each page.
abbrev pub Accepts : Option Table → (ℕ → Option MemoryProtect) → Type 0
Accepts o f = (t : Table) × (o ≡ some t) × ((q : ℕ) → t q ≡ f q)

pub map_pages_lem :
    (n addr : ℕ) (prot : MemoryProtect) (t : Table)
    → ((q : ℕ) → in_range q addr n ≡ true → is_some (t q) ≡ false)
    → Accepts (map_pages addr n prot t) (λ q. if in_range q addr n then some prot else t q)
unfolding map_pages in_range
map_pages_lem zero addr prot t h = (t, refl, λ q. refl)
map_pages_lem (suc n) addr prot t h =
    let free : is_some (t addr) ≡ false = h addr (ground arith) in
    let (u, e, f) = map_pages_lem n (addr + page_size) prot (put addr prot t) (λ q k.
      ground (arith, h q (rw k (ground arith)), in_range_bounds q (addr + page_size) n k)) in
    (u, ground arith, λ q. ground (arith, f q))

pub unmap_pages_lem :
    (n addr : ℕ) (t : Table)
    → ((q : ℕ) → in_range q addr n ≡ true → is_some (t q) ≡ true)
    → Accepts (unmap_pages addr n t) (λ q. if in_range q addr n then none else t q)
unfolding unmap_pages in_range
unmap_pages_lem zero addr t h = (t, refl, λ q. refl)
unmap_pages_lem (suc n) addr t h =
    let mapped : is_some (t addr) ≡ true = h addr (ground arith) in
    let (u, e, f) = unmap_pages_lem n (addr + page_size) (erase addr t) (λ q k.
      ground (arith, h q (rw k (ground arith)), in_range_bounds q (addr + page_size) n k)) in
    (u, ground arith, λ q. ground (arith, f q))

pub protect_pages_lem :
    (n addr : ℕ) (prot : MemoryProtect) (t : Table)
    → ((q : ℕ) → in_range q addr n ≡ true → is_some (t q) ≡ true)
    → Accepts (protect_pages addr n prot t) (λ q. if in_range q addr n then some prot else t q)
unfolding protect_pages in_range
protect_pages_lem zero addr prot t h = (t, refl, λ q. refl)
protect_pages_lem (suc n) addr prot t h =
    let mapped : is_some (t addr) ≡ true = h addr (ground arith) in
    let (u, e, f) = protect_pages_lem n (addr + page_size) prot (put addr prot t) (λ q k.
      ground (arith, h q (rw k (ground arith)), in_range_bounds q (addr + page_size) n k)) in
    (u, ground arith, λ q. ground (arith, f q))
