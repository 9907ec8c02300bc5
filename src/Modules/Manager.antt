-- ===== src/Modules/Manager.antt =====
-- modules.py: `ModuleManager`. The `info` of a region that is a module is found by the region's start.
use dumpulator.Prelude.{ℕ, zero, suc, ◌==◌, Bool, List, if◌then◌else◌, Option, none, some, is_some}
use dumpulator.Prelude.Dict.{Dict, put}
use dumpulator.Outcome.{
  assertion_error, attribute_error, key_error, out_of_fuel, Result, ok, raise, Action,
}
use dumpulator.Native.Text.{Name, lower, same_name}
use dumpulator.Memory.Region.{MemoryRegion}
use dumpulator.Memory.Manager.{find_region_at}
use dumpulator.Modules.Export.{
  Pe, Names, put_name, Module, new_module, Key, number_key, name_key, ModuleExport, find_export,
}

pub record ModuleManager : Type 0 where
  pub main : ℕ
  pub regions : List MemoryRegion
  pub region_info : Dict Module
  pub name_lookup : Names ℕ
  pub modules : Dict Module

-- The `info` of the region, and the three names
unfoldable pub register_module : (start : ℕ) → Module → ModuleManager → ModuleManager
unfolding lower same_name
register_module start image m = record m {
  region_info = put start image m.region_info;
  name_lookup =
      put_name image.path image.base
        (put_name (lower image.name) image.base (put_name image.name image.base m.name_lookup));
}

-- An exception leaves the module in `_modules`.
unfoldable pub add : Pe → (path : Name) → Action ModuleManager Module
unfolding new_module register_module
add pe path m = elim (new_module pe path) [
  | raise e ↦ (raise e, m)
  | ok image ↦
      let m' = record m { modules = put image.base image m.modules } in
      elim (find_region_at m.regions image.base) [
        | none ↦ (raise attribute_error, m')
        | some region ↦
            (if region.start == image.base
              then (ok image, register_module region.start image m')
              else (raise assertion_error, m'))
      ]
]

-- `find` of an `int`
unfoldable pub find_address : ℕ → ModuleManager → Option Module
find_address addr m = elim (find_region_at m.regions addr) [
  | none ↦ none
  | some region ↦ m.region_info region.start
]

abbrev base_of : Name → ModuleManager → Option ℕ
base_of name m = elim (m.name_lookup name) [
  | some base ↦ some base
  | none ↦ m.name_lookup (lower name)
]

unfoldable pub find : Key → ModuleManager → Option Module
unfolding find_address lower
find (number_key addr) m = find_address addr m
find (name_key name) m = elim (base_of name m) [ none ↦ none | some base ↦ find_address base m ]

-- One round: the export, or the keys that it is forwarded to.
unfoldable pub find_function : (module_key function_key : Key) → ModuleManager → Result ModuleExport
unfolding find find_export
find_function module_key function_key m = elim (find module_key m) [
  | none ↦ raise assertion_error
  | some image ↦ elim (find_export function_key image) [
    | raise e ↦ raise e
    | ok none ↦ raise assertion_error
    | ok (some export) ↦ ok export
  ]
]

-- `resolve_export`, with the number of calls that the interpreter's stack has room for
unfoldable pub resolve_export :
    (fuel : ℕ) → (module_key function_key : Key) → ModuleManager → Result ModuleExport
unfolding find_function
resolve_export zero module_key function_key m = raise out_of_fuel
resolve_export (suc fuel) module_key function_key m =
    elim (find_function module_key function_key m) [
      | raise e ↦ raise e
      | ok export ↦ elim export.forward [
        | none ↦ ok export
        | some f ↦ resolve_export fuel (name_key f.module_name) (name_key f.function_name) m
      ]
    ]

-- `__getitem__` and `__contains__`
unfoldable pub get_module : Key → ModuleManager → Result Module
unfolding find
get_module key m = elim (find key m) [ none ↦ raise key_error | some image ↦ ok image ]

unfoldable pub has_module : Key → ModuleManager → Bool
unfolding find
has_module key m = is_some (find key m)
