-- ===== src/Modules/Examples.antt =====
-- Two modules, one of which forwards a function to the other.
use dumpulator.Prelude.{ℕ, ◌≡◌, refl, [], ◌∷◌, none, some}
use dumpulator.Prelude.Dict.{put, empty}
use dumpulator.Outcome.{ok}
use dumpulator.Native.Text.{Name, codes, lower}
use dumpulator.Memory.Protect.{page_readonly, mem_image}
use dumpulator.Memory.Region.{MemoryRegion, contains}
use dumpulator.Memory.Manager.{find_region}
use dumpulator.Memory.Bisect.{bisect_right}
use dumpulator.Modules.Export.{
  put_name, Pe, Module, ModuleExport, Forward, new_module, number_key, name_key, find_export,
}
use dumpulator.Modules.Manager.{ModuleManager, add, find, resolve_export}
use dumpulator.Modules.Resolving.{add-find}
use dumpulator.Modules.Exported.{exported, find_export-exported}

abbrev image_region : (start : ℕ) → MemoryRegion
image_region start = record {
  start = start;
  size = 0x10000;
  protect = page_readonly;
  type = mem_image;
  info = none;
  commit_count = 0;
}

abbrev first_pe : Pe
first_pe = record {
  image_base = 0x10000;
  size_of_image = 0x10000;
  entry_point = 0x1000;
  exports =
      record {
        name = some (codes "f");
        ordinal = 1;
        address = 0;
        forwarder = some (codes "Second.g");
      }
      ∷ [];
}

abbrev second_pe : Pe
second_pe = record {
  image_base = 0x20000;
  size_of_image = 0x10000;
  entry_point = 0x1000;
  exports =
      record { name = some (codes "g"); ordinal = 7; address = 0x1234; forwarder = none } ∷ [];
}

abbrev no_modules : ModuleManager
no_modules = record {
  main = 0;
  regions = image_region 0x10000 ∷ image_region 0x20000 ∷ [];
  region_info = λ start. none;
  name_lookup = λ name. none;
  modules = λ base. none;
}

abbrev two_modules : ModuleManager
two_modules =
    (add second_pe (codes "C:/Second.dll") (add first_pe (codes "C:\\First.dll") no_modules).1).1

abbrev g_export : ModuleExport
g_export = record { address = 0x21234; ordinal = 7; name = some (codes "g"); forward = none }

abbrev f_forward : Forward
f_forward = record { module_name = codes "second.dll"; function_name = codes "g" }

abbrev f_export : ModuleExport
f_export = record { address = 0; ordinal = 1; name = some (codes "f"); forward = some f_forward }

-- A forward is followed into the other module.
resolved : resolve_export 2 (name_key (codes "FIRST.DLL")) (number_key 1) two_modules ≡ ok g_export
unfolding resolve_export add find_region bisect_right contains
resolved = refl

abbrev first_path : Name
first_path = codes "C:\\First.dll"

abbrev first_module : Module
first_module = record {
  path = first_path;
  name = codes "First.dll";
  exports = f_export ∷ [];
  exports_by_address = put 0 0 empty;
  exports_by_ordinal = put 1 0 empty;
  exports_by_name = put_name (codes "f") 0 (λ name. none);
  base = 0x10000;
  size = 0x10000;
  entry = 0x11000;
}

abbrev first_added : ModuleManager
first_added = (add first_pe first_path no_modules).1

add-find_example :
    ((add first_pe first_path no_modules).0 ≡ ok first_module)
    × ((find (number_key 0x10000) first_added ≡ some first_module)
        × ((find (name_key first_path) first_added ≡ some first_module)
            × ((find (name_key (codes "First.dll")) first_added ≡ some first_module)
                × (find (name_key (lower (codes "First.dll"))) first_added ≡ some first_module))))
unfolding new_module find_region bisect_right contains
add-find_example =
    add-find no_modules first_pe first_path first_module (image_region 0x10000) refl refl refl

find_export-exported_example :
    find_export (number_key 1) first_module ≡ ok (exported (number_key 1) (f_export ∷ []))
unfolding new_module
find_export-exported_example =
    find_export-exported first_pe first_path first_module (number_key 1) refl
