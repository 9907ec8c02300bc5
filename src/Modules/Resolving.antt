-- ===== src/Modules/Resolving.antt =====
-- Modules are found after they were added.
use dumpulator.Prelude.{ℕ, ◌≡◌, refl, inl, inr, arith, true, Bool-cases, ◌==◌, some}
use dumpulator.Prelude.Dict.{put}
use dumpulator.Outcome.{ok}
use dumpulator.Native.Text.{Name, lower, same_name, same_name_refl}
use dumpulator.Memory.Region.{MemoryRegion}
use dumpulator.Memory.Manager.{find_region_at}
use dumpulator.Modules.Export.{Names, put_name, Pe, Module, new_module, number_key, name_key}
use dumpulator.Modules.Manager.{ModuleManager, register_module, add, find_address, find}

put_here : (name : Name) (v : ℕ) (d : Names ℕ) → put_name name v d name ≡ some v
put_here name v d = rw (same_name_refl name) refl

put_over :
    (name other : Name) (v : ℕ) (d : Names ℕ) → d other ≡ some v → put_name name v d other ≡ some v
put_over name other v d h = elim (Bool-cases (same_name name other)) [
  | inl same ↦ rw same refl
  | inr differ ↦ rw differ h
]

-- The manager after an `add` that returns.
abbrev with_module : (start : ℕ) → Module → ModuleManager → ModuleManager
with_module start image m =
    register_module start image (record m { modules = put image.base image m.modules })

find_address-register_module :
    (m : ModuleManager) (image : Module) (region : MemoryRegion)
    → find_region_at m.regions image.base ≡ some region
    → find_address image.base (with_module region.start image m) ≡ some image
unfolding find_address register_module
find_address-register_module m image region found =
    let here : (region.start == region.start) ≡ true = ground arith in
    rw (found, find_address, here) refl

find_name_register :
    (m : ModuleManager) (image : Module) (region : MemoryRegion) (name : Name)
    → find_region_at m.regions image.base ≡ some region
    → (with_module region.start image m).name_lookup name ≡ some image.base
    → find (name_key name) (with_module region.start image m) ≡ some image
unfolding find
find_name_register m image region name found known =
    rw (known, find) (find_address-register_module m image region found)

add_lem :
    (m : ModuleManager) (pe : Pe) (path : Name) (image : Module) (region : MemoryRegion)
    → new_module pe path ≡ ok image
    → find_region_at m.regions image.base ≡ some region
    → region.start ≡ image.base
    → add pe path m ≡ (ok image, with_module region.start image m)
unfolding add
add_lem m pe path image region made found starts =
    let same : (region.start == image.base) ≡ true = ground (arith, starts) in
    rw (made, add, found, same) refl

-- A module whose base is the start of a region is added, and is then found by its base, its path, its name
-- and its name in lower case.
pub add-find :
    (m : ModuleManager) (pe : Pe) (path : Name) (image : Module) (region : MemoryRegion)
    → new_module pe path ≡ ok image
    → find_region_at m.regions image.base ≡ some region
    → region.start ≡ image.base
    → ((add pe path m).0 ≡ ok image)
      × ((find (number_key image.base) (add pe path m).1 ≡ some image)
          × ((find (name_key image.path) (add pe path m).1 ≡ some image)
              × ((find (name_key image.name) (add pe path m).1 ≡ some image)
                  × (find (name_key (lower image.name)) (add pe path m).1 ≡ some image))))
unfolding register_module find
add-find m pe path image region made found starts =
    let names = put_name image.name image.base m.name_lookup in
    let lowered = put_name (lower image.name) image.base names in
    let e : add pe path m ≡ (ok image, with_module region.start image m) =
      add_lem m pe path image region made found starts in
    rw e (
      refl,
      (
        find_address-register_module m image region found,
        (
          find_name_register m image region image.path found
              (put_here image.path image.base lowered),
          (
            find_name_register m image region image.name found (
                put_over image.path image.name image.base lowered (
                  put_over (lower image.name) image.name image.base names
                    (put_here image.name image.base m.name_lookup))),
            find_name_register m image region (lower image.name) found (
                put_over image.path (lower image.name) image.base lowered
                  (put_here (lower image.name) image.base names)),
          ),
        ),
      ),
    )
