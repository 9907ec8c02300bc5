-- ===== src/Pages/Lazy.antt =====
-- dumpulator.py: `LazyPage` and `LazyPageManager`. Bytes are numbers.
use dumpulator.Prelude.{
  ℕ, zero, suc, ◌+◌, ◌-◌, ◌*◌, ◌/◌, ◌%◌, Bool, true, false, not, ◌&&◌, Option, none, some, List, [],
  ◌∷◌, ◌++◌, leb, ◌==◌, if◌then◌else◌, is_some, length, take, drop, replicate,
}
use dumpulator.Prelude.Dict.{Dict, put, erase}
use dumpulator.Outcome.{
  assertion_error, index_error, uc_error, Result, ok, raise, Action, pure, gets, reads, modify,
  assert, ◌>>=◌, ◌>>◌,
}
use dumpulator.Memory.Protect.{page_size, MemoryProtect}
use dumpulator.Memory.Region.{page_range, page_count, post_init}
use dumpulator.Pages.Child.{PageManager}

pub record LazyPage : Type 0 where
  pub addr : ℕ
  pub protect : MemoryProtect
  pub committed : Bool
  pub bytes : Option (List ℕ)

-- `page, index, length` as `iter_chunks` yields them
pub record Chunk : Type 0 where
  pub page : ℕ
  pub index : ℕ
  pub size : ℕ

abbrev pub smaller : ℕ → ℕ → ℕ
smaller a b = if leb a b then a else b

-- `iter_pages`
abbrev pub iter_pages : (addr size : ℕ) → List ℕ
iter_pages addr size = page_range addr (page_count size)

unfoldable pub chunks_from : (fuel page index stop : ℕ) → List Chunk
chunks_from zero page index stop = []
chunks_from (suc fuel) page index stop =
    let rest = chunks_from fuel (page + page_size) 0 stop in
    if leb stop page
    then []
    else record { page = page; index = index; size = smaller page_size (stop - (page + index)) }
      ∷ rest

-- Each round but the first goes on by a page, so `size / PAGE_SIZE + 2` rounds are enough.
unfoldable pub iter_chunks : (addr size : ℕ) → List Chunk
unfolding chunks_from
iter_chunks addr size =
    chunks_from (size / page_size + 2) (addr / page_size * page_size) (addr % page_size)
      (addr + size)

-- `xs[from:to]`
abbrev pub slice {ℓ} : {A : Type ℓ} → (from to : ℕ) → List A → List A
slice from to xs = drop from (take to xs)

-- `xs[from:to] = ys`
abbrev pub splice {ℓ} : {A : Type ℓ} → (from to : ℕ) → List A → List A → List A
splice from to ys xs = take from xs ++ (ys ++ drop to xs)

-- `bytearray(page.size)` for a page that has no bytes yet
unfoldable pub page_bytes : LazyPage → List ℕ
page_bytes p = elim p.bytes [ none ↦ replicate page_size 0 | some bytes ↦ bytes ]

module _ (c : PageManager) where
  open c use {State}

  pub record LazyPageManager : Type 0 where
    pub child : State
    pub total_commit : ℕ
    pub pages : Dict LazyPage
    pub lazy : Bool

  -- A call of the child; its exception is passed on.
  unfoldable pub run_child : (State → Option State) → Action LazyPageManager (Unit {0})
  run_child f m = elim (f m.child) [
    | none ↦ (raise uc_error, m)
    | some s ↦ (ok tt, record m { child = s })
  ]

  -- `assert page_addr not in self.pages; self.pages[page_addr] = LazyPage(...)`
  unfoldable pub add_pages : MemoryProtect → List ℕ → Action LazyPageManager (Unit {0})
  add_pages prot [] = pure tt
  add_pages prot (page ∷ ps) = do
    m ← gets (λ m. m)
    assert (not (is_some (m.pages page)))
    modify (λ m. record m {
      pages =
          put page (record { addr = page; protect = prot; committed = not m.lazy; bytes = none })
            m.pages;
    })
    add_pages prot ps

  unfoldable pub commit : (addr size : ℕ) → MemoryProtect → Action LazyPageManager (Unit {0})
  unfolding run_child add_pages
  commit addr size prot = do
    assert (post_init addr size)
    m ← gets (λ m. m)
    if m.lazy then pure tt else run_child (c.commit addr size prot)
    add_pages prot (iter_pages addr size)
    modify (λ m. record m { total_commit = m.total_commit + size })

  -- `assert page_addr in self.pages; pages.append(self.pages[page_addr])`
  unfoldable pub collect : Dict LazyPage → List ℕ → Option (List LazyPage)
  collect d [] = some []
  collect d (page ∷ ps) = elim (d page) [
    | none ↦ none
    | some p ↦ elim (collect d ps) [ none ↦ none | some rest ↦ some (p ∷ rest) ]
  ]

  unfoldable pub all_committed : List LazyPage → Bool
  all_committed [] = true
  all_committed (p ∷ ps) = p.committed && all_committed ps

  -- `for page in pages: if page.committed: self.child.f(page.addr, page.size)`
  each_committed : (ℕ → State → Option State) → List LazyPage → Action LazyPageManager (Unit {0})
  unfolding run_child
  each_committed f [] = pure tt
  each_committed f (p ∷ ps) = do
    if p.committed then run_child (f p.addr) else pure tt
    each_committed f ps

  unfoldable pub collected : Dict LazyPage → List ℕ → Result (List LazyPage)
  unfolding collect
  collected d ps = elim (collect d ps) [ none ↦ raise assertion_error | some pages ↦ ok pages ]

  unfoldable pub delete_pages : List ℕ → Dict LazyPage → Dict LazyPage
  delete_pages [] d = d
  delete_pages (page ∷ ps) d = delete_pages ps (erase page d)

  unfoldable pub decommit : (addr size : ℕ) → Action LazyPageManager (Unit {0})
  unfolding run_child collected all_committed each_committed delete_pages
  decommit addr size = do
    assert (post_init addr size)
    pages ← reads (λ m. collected m.pages (iter_pages addr size))
    if all_committed pages
        then run_child (c.decommit addr size)
        else each_committed (λ a. c.decommit a page_size) pages
    modify (λ m. record m { pages = delete_pages (iter_pages addr size) m.pages })

  unfoldable pub set_protect : MemoryProtect → List ℕ → Dict LazyPage → Dict LazyPage
  set_protect prot [] d = d
  set_protect prot (page ∷ ps) d = set_protect prot ps (λ q.
      if page == q
      then (elim (d q) [ none ↦ none | some p ↦ some (record p { protect = prot }) ])
      else d q)

  unfoldable pub protect : (addr size : ℕ) → MemoryProtect → Action LazyPageManager (Unit {0})
  unfolding run_child collected all_committed each_committed set_protect
  protect addr size prot = do
    assert (post_init addr size)
    pages ← reads (λ m. collected m.pages (iter_pages addr size))
    if all_committed pages
        then run_child (c.protect addr size prot)
        else each_committed (λ a. c.protect a page_size prot) pages
    modify (λ m. record m { pages = set_protect prot (iter_pages addr size) m.pages })

  -- The first loop of `read` and `write`: every page has to be there.
  unfoldable pub chunk_pages : Dict LazyPage → List Chunk → Result (List LazyPage)
  chunk_pages d [] = ok []
  chunk_pages d (k ∷ ks) = elim (d k.page) [
    | none ↦ raise index_error
    | some p ↦ elim (chunk_pages d ks) [ raise e ↦ raise e | ok rest ↦ ok (p ∷ rest) ]
  ]

  abbrev read_child : (addr size : ℕ) → Action LazyPageManager (List ℕ)
  read_child addr size m = elim (c.read addr size m.child) [
    | none ↦ (raise uc_error, m)
    | some bytes ↦ (ok bytes, m)
  ]

  -- `if page.data is None: page.data = bytearray(page.size)`
  abbrev with_bytes : LazyPage → LazyPage
  with_bytes p = record p { bytes = some (page_bytes p) }

  -- The body of the loop of `read`, for the page `p` of the chunk.
  unfoldable pub read_chunk :
      (addr : ℕ) → Chunk → LazyPage → List ℕ → Action LazyPageManager (List ℕ)
  read_chunk addr k p bytes =
      let at = (p.addr + k.index) - addr in
      if p.committed
      then (do
        chunk ← read_child (p.addr + k.index) k.size
        pure (splice at (at + k.size) chunk bytes))
      else (do
        modify (λ m. record m { pages = put k.page (with_bytes p) m.pages })
        pure (splice at (at + k.size) (slice k.index (k.index + k.size) (page_bytes p)) bytes))

  -- The pages are looked up again: a chunk's page is not changed by the chunks before it.
  unfoldable pub page_of : Chunk → Dict LazyPage → Result LazyPage
  page_of k d = elim (d k.page) [ none ↦ raise index_error | some p ↦ ok p ]

  unfoldable pub read_chunks : (addr : ℕ) → List Chunk → List ℕ → Action LazyPageManager (List ℕ)
  read_chunks addr [] bytes = pure bytes
  read_chunks addr (k ∷ ks) bytes = do
    p ← reads (λ m. page_of k m.pages)
    bytes' ← read_chunk addr k p bytes
    read_chunks addr ks bytes'

  unfoldable pub read : (addr size : ℕ) → Action LazyPageManager (List ℕ)
  read addr size = do
    pages ← reads (λ m. chunk_pages m.pages (iter_chunks addr size))
    if all_committed pages then read_child addr size else (do
      bytes ← read_chunks addr (iter_chunks addr size) (replicate size 0)
      assert (length bytes == size)
      pure bytes)

  unfoldable pub write_chunk :
      (addr : ℕ) → List ℕ → Chunk → LazyPage → Action LazyPageManager (Unit {0})
  write_chunk addr bytes k p = do
    let at : ℕ = (p.addr + k.index) - addr
    let chunk : List ℕ = slice at (at + k.size) bytes
    assert (length chunk == k.size)
    let bytes' : List ℕ = splice k.index (k.index + k.size) chunk (page_bytes p)
    if p.committed then run_child (c.write (p.addr + k.index) chunk) else (do
      modify (λ m. record m { pages = put k.page (record p { bytes = some bytes' }) m.pages })
      assert (length bytes' == page_size))

  unfoldable pub write_chunks : (addr : ℕ) → List ℕ → List Chunk → Action LazyPageManager (Unit {0})
  write_chunks addr bytes [] = pure tt
  write_chunks addr bytes (k ∷ ks) = do
    p ← reads (λ m. page_of k m.pages)
    write_chunk addr bytes k p
    write_chunks addr bytes ks

  unfoldable pub write : (addr : ℕ) → List ℕ → Action LazyPageManager (Unit {0})
  write addr bytes = do
    pages ← reads (λ m. chunk_pages m.pages (iter_chunks addr (length bytes)))
    if all_committed pages
        then run_child (c.write addr bytes)
        else write_chunks addr bytes (iter_chunks addr (length bytes))

  -- One page that the engine touched, with its bytes, goes over to the child.
  hand_page : Chunk → LazyPage → Action LazyPageManager (Unit {0})
  unfolding run_child
  hand_page k p = do
    run_child (c.commit p.addr page_size p.protect)
    modify (λ m. record m { pages = put k.page (record p { committed = true }) m.pages })
    elim p.bytes [ none ↦ pure tt | some bytes ↦ run_child (c.write p.addr bytes) ]
    modify
        (λ m. record m { pages = put k.page (record p { committed = true; bytes = none }) m.pages })

  -- The loop of `handle_lazy_page`.
  unfoldable pub hand_over : List Chunk → Bool → Action LazyPageManager Bool
  unfolding hand_page
  hand_over [] result = pure result
  hand_over (k ∷ ks) result = do
    found ← gets (λ m. m.pages k.page)
    elim found [
      | none ↦ hand_over ks result
      | some p ↦ elim p.committed [
        | true ↦ hand_over ks result
        | false ↦ do hand_page k p; hand_over ks true
      ]
    ]

  -- Hands the pages that the engine touched over to the child, and tells whether there was one. An
  -- exception of the engine is caught.
  unfoldable pub handle_lazy_page : (addr size : ℕ) → LazyPageManager → Bool × LazyPageManager
  unfolding hand_over
  handle_lazy_page addr size m =
      let (result, m') = hand_over (iter_chunks addr size) false m in
      elim result [ ok b ↦ (b, m') | raise _ ↦ (false, m') ]
