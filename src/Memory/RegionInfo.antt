-- ===== src/Memory/RegionInfo.antt =====
-- memory.py: `set_region_info`.
use dumpulator.Prelude.{
  ℕ, ◌+◌, ◌≡◌, refl, sym, ◌∙◌, Bool, Bool-cases, true, false, Option, none, some, List, [], ◌∷◌,
  arith, inl, inr, ltb, leb, ◌==◌, if◌then◌else◌, is_some, Option-cases,
}
use dumpulator.Prelude.Dict.{Dict}
use dumpulator.Memory.Protect.{MemoryType}
use dumpulator.Memory.Region.{Info, MemoryRegion, end, pages, contains}
use dumpulator.Memory.Pager.{Call}
use dumpulator.Memory.Manager.{Page, MemoryManager, find_region_at}
use dumpulator.Memory.Layout.{Layout, lookup_region}
use dumpulator.Memory.Ledger.{IsSynced, protection}
use dumpulator.Memory.Valid.{IsValid, Homed, Counts, type_of}
use dumpulator.Memory.Protecting.{Counts-same}

-- `if commit is not None and commit.info is None: commit.info = info`
unfoldable pub info_page : Info → Option Page → Option Page
info_page info none = none
info_page info (some p) = elim p.info [
  | none ↦ some (record p { info = some info })
  | some _ ↦ some p
]

-- The loop over the pages of the region, from `addr` and up to `limit`.
unfoldable pub info_pages : (addr limit : ℕ) → Info → List ℕ → Dict Page → Dict Page
unfolding info_page
info_pages addr limit info [] c = c
info_pages addr limit info (page ∷ ps) c =
    let skip = info_pages addr limit info ps c in
    let next =
      info_pages addr limit info ps (λ q. if page == q then info_page info (c q) else c q) in
    if ltb page addr then skip else if leb limit page then c else next

unfoldable pub set_info : (start : ℕ) → Info → List MemoryRegion → List MemoryRegion
set_info start info [] = []
set_info start info (r ∷ rs) =
    if r.start == start then record r { info = some info } ∷ rs else r ∷ set_info start info rs

info_region : (addr size : ℕ) → Info → Option MemoryRegion → MemoryManager → Bool × MemoryManager
unfolding info_pages set_info
info_region addr size info none m = (false, m)
info_region addr size info (some r) m =
    if ltb 0 size
    then (
      true,
      record m {
        committed = info_pages addr (addr + size) info (pages r.start r.size) m.committed;
      },
    )
    else if is_some r.info
    then (false, m)
    else (true, record m { regions = set_info r.start info m.regions })

unfoldable pub set_region_info : (addr size : ℕ) → Info → MemoryManager → Bool × MemoryManager
unfolding info_region
set_region_info addr size info m = info_region addr size info (find_region_at m.regions addr) m

-- What an info leaves alone.
abbrev Alike : Option Page → Option Page → Type 0
Alike o o' =
    (is_some o ≡ is_some o')
    × (protection o' ≡ protection o)
    × ((q : ℕ) (t : Option MemoryType) → Homed q o t → Homed q o' t)

info_page-Alike : (info : Info) (o : Option Page) → Alike o (info_page info o)
unfolding info_page
info_page-Alike info none = (refl, refl, λ q t h. h)
info_page-Alike info (some p) = elim (Option-cases p.info) [
  | inl e ↦ rw (e, info_page) (refl, refl, keep)
  | inr (i, e) ↦ rw (e, info_page) (refl, refl, λ q t h. h)
]
  where
    keep :
        (q : ℕ) (t : Option MemoryType)
        → Homed q (some p) t
        → Homed q (some (record p { info = some info })) t
    keep q none h = h
    keep q (some t) h = h

Alike-trans : (a b c : Option Page) → Alike a b → Alike b c → Alike a c
Alike-trans a b c h k = (h.0 ∙ k.0, k.1 ∙ h.1, λ q t x. k.2 q t (h.2 q t x))

one_page-Alike :
    (info : Info) (page q : ℕ) (o : Option Page)
    → Alike o (if page == q then info_page info o else o)
one_page-Alike info page q o = elim (Bool-cases (page == q)) [
  | inl here ↦ rw here (info_page-Alike info o)
  | inr other ↦ rw other (refl, refl, λ _ t h. h)
]

info_pages-Alike :
    (addr limit : ℕ) (info : Info) (ps : List ℕ) (c : Dict Page) (q : ℕ)
    → Alike (c q) (info_pages addr limit info ps c q)
unfolding info_pages
info_pages-Alike addr limit info [] c q = (refl, refl, λ _ t h. h)
info_pages-Alike addr limit info (page ∷ ps) c q = elim (Bool-cases (ltb page addr)) [
  | inl before ↦ rw before (info_pages-Alike addr limit info ps c q)
  | inr reached ↦ elim (Bool-cases (leb limit page)) [
    | inl past ↦ rw (reached, past) (refl, refl, λ _ t h. h)
    | inr inside ↦
        let c' : Dict Page = λ q. if page == q then info_page info (c q) else c q in
        rw (reached, inside)
          (Alike-trans (c q) (c' q) (info_pages addr limit info ps c' q)
            (one_page-Alike info page q (c q)) (info_pages-Alike addr limit info ps c' q))
  ]
]

IsSynced-Alike :
    (calls : List Call) (c d : Dict Page)
    → ((q : ℕ) → protection (d q) ≡ protection (c q))
    → IsSynced calls c
    → IsSynced calls d
IsSynced-Alike calls c d h s = record {
  mapped = s.mapped;
  replayed = s.replayed;
  agrees = λ q. s.agrees q ∙ sym (h q);
}

Layout-set_info :
    (g hi start : ℕ) (info : Info) (rs : List MemoryRegion) (lo : ℕ)
    → Layout g lo hi rs
    → Layout g lo hi (set_info start info rs)
unfolding set_info
Layout-set_info g hi start info [] lo l = l
Layout-set_info g hi start info (r ∷ rs) lo l =
    ground (arith, Layout-set_info g hi start info rs (end r) l.5)

Counts-set_info :
    (c : Dict Page) (start : ℕ) (info : Info) (rs : List MemoryRegion)
    → Counts c rs
    → Counts c (set_info start info rs)
unfolding set_info
Counts-set_info c start info [] k = tt
Counts-set_info c start info (r ∷ rs) k = elim (Bool-cases (r.start == start)) [
  | inl here ↦ rw here k
  | inr other ↦ rw other (k.0, Counts-set_info c start info rs k.1)
]

type_of-set_info :
    (start : ℕ) (info : Info) (rs : List MemoryRegion) (q size : ℕ)
    → type_of (lookup_region (set_info start info rs) q size) ≡ type_of (lookup_region rs q size)
unfolding set_info lookup_region contains
type_of-set_info start info [] q size = refl
type_of-set_info start info (r ∷ rs) q size = ground (arith, type_of-set_info start info rs q size)

module _ (m : MemoryManager) (v : IsValid m) (addr size : ℕ) (info : Info) where
  info_region-IsValid : (o : Option MemoryRegion) → IsValid (info_region addr size info o m).1
  unfolding info_region
  info_region-IsValid none = v
  info_region-IsValid (some r) = elim (Bool-cases (ltb 0 size)) [
    | inl sized ↦
        let after = info_pages addr (addr + size) info (pages r.start r.size) m.committed in
        let alike = λ (q : ℕ).
          info_pages-Alike addr (addr + size) info (pages r.start r.size) m.committed q in
        rw sized (record {
          layout = v.layout;
          counts = Counts-same m.committed after m.regions (λ q. (alike q).0) v.counts;
          homed = λ q. (alike q).2 q _ (v.homed q);
          synced = IsSynced-Alike m.calls m.committed after (λ q. (alike q).1) v.synced;
        })
    | inr whole ↦ elim (Bool-cases (is_some r.info)) [
      | inl taken ↦ rw (whole, taken) v
      | inr free ↦
          rw (whole, free)
            (record {
              layout =
                  Layout-set_info m.granularity m.maximum r.start info m.regions m.minimum v.layout;
              counts = Counts-set_info m.committed r.start info m.regions v.counts;
              homed = λ q. rw (type_of-set_info r.start info m.regions q 0) (v.homed q);
              synced = v.synced;
            })
    ]
  ]

  -- `set_region_info` keeps the invariant.
  pub set_region_info-IsValid : IsValid (set_region_info addr size info m).1
  unfolding set_region_info
  set_region_info-IsValid = info_region-IsValid (find_region_at m.regions addr)
