-- ===== src/Modules/Export.antt =====
-- modules.py: `Module` and its exports. What it reads of a `pefile.PE` is a record of numbers and names.
use dumpulator.Prelude.{
  ℕ, ◌+◌, Bool, ◌&&◌, List, [], ◌∷◌, ◌++◌, length, get_elem?, leb, ltb, ◌==◌, if◌then◌else◌, Option,
  none, some,
}
use dumpulator.Prelude.Dict.{Dict, empty, put}
use dumpulator.Outcome.{index_error, Result, ok, raise}
use dumpulator.Native.Text.{Name, codes, same_name, lower}

-- `pe.DIRECTORY_ENTRY_EXPORT.symbols`
pub record PeExport : Type 0 where
  pub name : Option Name
  pub ordinal : ℕ
  pub address : ℕ
  pub forwarder : Option Name

pub record Pe : Type 0 where
  pub image_base : ℕ
  pub size_of_image : ℕ
  pub entry_point : ℕ
  pub exports : List PeExport

-- `name.split(separator)`
unfoldable pub split : (separator : ℕ) → Name → List Name
split separator [] = [] ∷ []
split separator (c ∷ cs) =
    let rest = split separator cs in if c == separator then [] ∷ rest else put_first c rest
  where
    put_first : ℕ → List Name → List Name
    put_first c [] = (c ∷ []) ∷ []
    put_first c (word ∷ words) = (c ∷ word) ∷ words

unfoldable pub last_word : List Name → Name
last_word [] = []
last_word (word ∷ []) = word
last_word (word ∷ (next ∷ words)) = last_word (next ∷ words)

-- `path.replace("/", "\\")`
unfoldable pub backslashes : Name → Name
backslashes [] = []
backslashes (c ∷ cs) = (if c == 47 then 92 else c) ∷ backslashes cs

-- The module and the name of the function that an export is forwarded to.
pub record Forward : Type 0 where
  pub module_name : Name
  pub function_name : Name

pub record ModuleExport : Type 0 where
  pub address : ℕ
  pub ordinal : ℕ
  pub name : Option Name
  pub forward : Option Forward

-- `forwarder.split(".")`, and its first two parts
unfoldable pub parse_forward : Name → Result Forward
unfolding split lower
parse_forward forwarder = elim (split 46 forwarder) [
  | [] ↦ raise index_error
  | image ∷ [] ↦ raise index_error
  | image ∷ (function ∷ parts) ↦
      ok (record { module_name = lower image ++ codes ".dll"; function_name = function })
]

-- `None` for an empty name
abbrev export_name : Option Name → Option Name
export_name none = none
export_name (some []) = none
export_name (some (c ∷ cs)) = some (c ∷ cs)

unfoldable pub parse_export : (base : ℕ) → PeExport → Result ModuleExport
unfolding parse_forward
parse_export base e = elim e.forwarder [
  | none ↦ ok (record {
    address = base + e.address;
    ordinal = e.ordinal;
    name = export_name e.name;
    forward = none;
  })
  | some forwarder ↦ elim (parse_forward forwarder) [
    | raise x ↦ raise x
    | ok f ↦
        ok
          (record { address = 0; ordinal = e.ordinal; name = export_name e.name; forward = some f })
  ]
]

-- A `dict` whose keys are strings.
abbrev pub Names : Type 0 → Type 0
Names V = Name → Option V

abbrev pub put_name : {V : Type 0} → Name → V → Names V → Names V
put_name name v d other = if same_name name other then some v else d other

pub record Module : Type 0 where
  pub path : Name
  pub name : Name
  pub exports : List ModuleExport
  pub exports_by_address : Dict ℕ
  pub exports_by_ordinal : Dict ℕ
  pub exports_by_name : Names ℕ
  pub base : ℕ
  pub size : ℕ
  pub entry : ℕ

-- The body of the loop over the exports
unfoldable pub add_export : ModuleExport → Module → Module
unfolding same_name
add_export e m =
    let index = length m.exports in
    record m {
      exports = m.exports ++ (e ∷ []);
      exports_by_address = put e.address index m.exports_by_address;
      exports_by_ordinal = put e.ordinal index m.exports_by_ordinal;
      exports_by_name = elim e.name [
        | none ↦ m.exports_by_name
        | some name ↦ put_name name index m.exports_by_name
      ];
    }

unfoldable pub parse_exports : List PeExport → Module → Result Module
unfolding parse_export add_export
parse_exports [] m = ok m
parse_exports (e ∷ es) m = elim (parse_export m.base e) [
  | raise x ↦ raise x
  | ok export ↦ parse_exports es (add_export export m)
]

-- `Module(pe, path)`, with `__post_init__` and `_parse_pe`
unfoldable pub new_module : Pe → (path : Name) → Result Module
unfolding backslashes split last_word parse_exports
new_module pe path = parse_exports pe.exports (record {
  path = backslashes path;
  name = last_word (split 92 (backslashes path));
  exports = [];
  exports_by_address = empty;
  exports_by_ordinal = empty;
  exports_by_name = λ name. none;
  base = pe.image_base;
  size = pe.size_of_image;
  entry = pe.image_base + pe.entry_point;
})

-- A key of `find_export` and of `find`: an `int` or a `str`.
pub data Key : Type 0 where
  number_key : ℕ → Key
  name_key : Name → Key

abbrev pub export_index : Key → Module → Option ℕ
export_index (number_key n) m = elim (m.exports_by_ordinal n) [
  | some index ↦ some index
  | none ↦ m.exports_by_address n
]
export_index (name_key name) m = m.exports_by_name name

-- `None` without an index; `self.exports[index]` raises past the end of the list.
unfoldable pub find_export : Key → Module → Result (Option ModuleExport)
find_export key m = elim (export_index key m) [
  | none ↦ ok none
  | some index ↦ elim (get_elem? m.exports index) [
    | none ↦ raise index_error
    | some e ↦ ok (some e)
  ]
]

-- `addr in module`
unfoldable pub has_address : (addr : ℕ) → Module → Bool
has_address addr m = leb m.base addr && ltb addr (m.base + m.size)
