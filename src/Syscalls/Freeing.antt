-- ===== src/Syscalls/Freeing.antt =====
-- `ZwFreeVirtualMemory` of pages inside a region.
use mathlib.Core.Path.{subst}
use dumpulator.Prelude.{
  ℕ, true, false, ◌+◌, ◌≡◌, refl, sym, ◌∙◌, Bool, Bool-cases, inl, inr, ◌&&◌, ◌||◌, ◌≤◌, none, some,
  is_some, leb, ltb, if◌then◌else◌, arith, ◌==◌,
}
use dumpulator.Outcome.{Result, ok, raise, Action, bind_ok, not_implemented, throw}
use dumpulator.Memory.Region.{
  MemoryRegion, post_init, end, page_count, contains, align_allocation, containing_page,
}
use dumpulator.Memory.Count.{in_range}
use dumpulator.Memory.Manager.{MemoryManager, find_region_at}
use dumpulator.Memory.Layout.{lookup_region}
use dumpulator.Memory.Valid.{IsValid, parent-IsFound, lookup_region_same}
use dumpulator.Memory.Range.{find_region-IsValid, is_page_range_lem}
use dumpulator.Memory.Commit.{is_page_range, decommit}
use dumpulator.Memory.Release.{release, release_size}
use dumpulator.Memory.Decommitting.{decommit_inside, decommit-regions}
use dumpulator.Memory.Releasing.{Releases, release_inside}
use dumpulator.Primitives.Architecture.{MemoryAccess}
use dumpulator.Syscalls.Process.{Process, read_ptr, on_manager}
use dumpulator.Syscalls.Virtual.{
  mem_release_flag, mem_decommit_flag, free_range, zw_free_virtual_memory,
}

module _ (guest : MemoryAccess) where
  -- The call returned `STATUS_SUCCESS`, the manager is valid after it and exactly the pages of the range are
  -- not committed any more. The addresses of the range have lost their region if `drops` says so, and no
  -- other address has. The memory is as it was.
  abbrev pub Frees :
      (drops : Bool) (base size : ℕ) (p : Process guest) → Result ℕ × Process guest → Type 0
  Frees drops base size p (result, p') =
      (result ≡ ok 0)
      × (p'.memory ≡ p.memory)
      × IsValid p'.manager
      × ((q : ℕ)
          → p'.manager.committed q
            ≡ (if in_range q base (page_count size) then none else p.manager.committed q))
      × ((q : ℕ)
          → is_some (lookup_region p'.manager.regions q 0) ≡ (
              if drops && (leb base q && ltb q (base + size))
              then false
              else is_some (lookup_region p.manager.regions q 0)))

  module _ (base size : ℕ) (r : MemoryRegion) (p : Process guest) (v : IsValid p.manager)
      (found : lookup_region p.manager.regions base size ≡ some r)
      (whole : is_page_range base size ≡ true) where
    paged : containing_page base ≡ base
    paged = let (_, h, _) = is_page_range_lem base size whole in omega (arith, h)

    found_here : lookup_region p.manager.regions base 0 ≡ some r
    unfolding contains
    found_here =
        lookup_region_same p.manager.granularity p.manager.maximum p.manager.committed
          p.manager.regions p.manager.minimum base size base r v.layout v.counts found
          (ground (
            arith,
            (parent-IsFound p.manager v base size r found).inside,
            is_page_range_lem base size whole,
          ))

    there : find_region_at p.manager.regions base ≡ some r
    there = rw paged (find_region-IsValid p.manager v base 0 ∙ found_here)

    -- A call of the manager that returns is the whole effect.
    free_range-returned :
        (call : Action MemoryManager (Unit {0}))
        → (call p.manager).0 ≡ ok tt
        → free_range guest base call p ≡ (ok 0, record p { manager = (call p.manager).1 })
    unfolding free_range on_manager
    free_range-returned call done = rw (there, done) refl

    decommits : Frees false base size p (free_range guest base (decommit base size) p)
    decommits =
        let (done, valid, pages) = decommit_inside p.manager base size r v found whole in
        rw (free_range-returned (decommit base size) done)
          (refl, refl, valid, pages, decommit-regions p.manager base size r v found whole)

    module _ (start_aligned : align_allocation p.manager.granularity base ≡ base)
        (size_aligned : align_allocation p.manager.granularity size ≡ size) where
      filled : release_size size r ≡ size
      filled = let (h, _, _) = is_page_range_lem base size whole in ground (arith, h)

      fits : base + size ≤ end r
      unfolding contains
      fits = ground (
        arith,
        (parent-IsFound p.manager v base size r found).inside,
        is_page_range_lem base size whole,
      )

      made_of_pages : post_init base size ≡ true
      unfolding is_page_range
      made_of_pages = ground arith

      released : Releases p.manager base size (release base size p.manager)
      released = rw filled at (
          release_inside p.manager base size r v start_aligned size_aligned
            (rw (← paged) at found_here) (omega (arith, filled, fits)) (rw filled made_of_pages))

      releases : Frees true base size p (free_range guest base (release base size) p)
      releases =
          let (done, valid, pages, places) = released in
          rw (free_range-returned (release base size) done) (refl, refl, valid, pages, places)

  -- The reads, and what is chosen by the type.
  dispatched :
      (handle base_address region_size type base size : ℕ) (p p₁ p₂ : Process guest)
      → read_ptr guest base_address p ≡ (ok base, p₁)
      → read_ptr guest region_size p₁ ≡ (ok size, p₂)
      → zw_free_virtual_memory guest handle base_address region_size type p
        ≡ (if type == mem_release_flag
              then free_range guest base (release base size)
              else (if type == mem_decommit_flag
                  then free_range guest base (decommit base size)
                  else throw not_implemented))
            p₂
  unfolding zw_free_virtual_memory
  dispatched handle base_address region_size type base size p p₁ p₂ e₁ e₂ =
      bind_ok (read_ptr guest base_address) _ p p₁ base e₁
      ∙ bind_ok (read_ptr guest region_size) _ p₁ p₂ size e₂

  -- Let the address and the size be read, the range be whole pages in a region of a valid manager and both
  -- be multiples of the allocation granularity. `ZwFreeVirtualMemory` returns `STATUS_SUCCESS` and leaves
  -- a valid manager in which exactly the pages of the range are not committed any more. With
  -- `MEM_RELEASE` exactly the addresses of the range lose their region, with `MEM_DECOMMIT` no address
  -- does. With another type the call raises `NotImplementedError` and frees nothing.
  pub zw_free_virtual_memory-Frees :
      (handle base_address region_size base size other : ℕ) (r : MemoryRegion)
      (p p₁ p₂ : Process guest)
      → read_ptr guest base_address p ≡ (ok base, p₁)
      → read_ptr guest region_size p₁ ≡ (ok size, p₂)
      → IsValid p₂.manager
      → lookup_region p₂.manager.regions base size ≡ some r
      → is_page_range base size ≡ true
      → align_allocation p₂.manager.granularity base ≡ base
      → align_allocation p₂.manager.granularity size ≡ size
      → (other == 0x8000 || other == 0x4000) ≡ false
      → Frees true base size p₂
          (zw_free_virtual_memory guest handle base_address region_size 0x8000 p)
        × Frees false base size p₂
            (zw_free_virtual_memory guest handle base_address region_size 0x4000 p)
        × (zw_free_virtual_memory guest handle base_address region_size other p
            ≡ (raise not_implemented, p₂))
  zw_free_virtual_memory-Frees handle base_address region_size base size other r p p₁ p₂ e₁ e₂ v
        found whole start_aligned size_aligned unknown =
      let call =
        λ (type : ℕ). dispatched handle base_address region_size type base size p p₁ p₂ e₁ e₂ in
      (
        subst (Frees true base size p₂) (sym (call 0x8000))
            (releases base size r p₂ v found whole start_aligned size_aligned),
        subst (Frees false base size p₂) (sym (call 0x4000))
            (decommits base size r p₂ v found whole),
        call other ∙ neither unknown,
      )
    where
      neither :
          (other == mem_release_flag || other == mem_decommit_flag) ≡ false
          → (if other == mem_release_flag
                then free_range guest base (release base size)
                else (if other == mem_decommit_flag
                    then free_range guest base (decommit base size)
                    else throw not_implemented))
              p₂
            ≡ (raise not_implemented, p₂)
      neither h = elim (Bool-cases (other == mem_release_flag)) [
        | inl e ↦ absurd (ground (arith, e, h))
        | inr e ↦ elim (Bool-cases (other == mem_decommit_flag)) [
          | inl e' ↦ absurd (ground (arith, e', h))
          | inr e' ↦ rw (e, e') refl
        ]
      ]
