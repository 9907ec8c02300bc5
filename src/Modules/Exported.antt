-- ===== src/Modules/Exported.antt =====
-- The exports of a module: the dictionaries of `Module`, and a search of the list of exports.
use mathlib.Core.Path.{subst}
use dumpulator.Prelude.{
  ℕ, suc, zero, ◌≡◌, refl, inl, inr, Bool, false, Bool-cases, ◌==◌, if◌then◌else◌, List, [], ◌∷◌,
  ◌++◌, length, get_elem?, Option, none, some, arith, Option-cases,
}
use dumpulator.Outcome.{index_error, Result, ok, raise}
use dumpulator.Native.Text.{Name, same_name}
use dumpulator.Modules.Export.{
  Pe, PeExport, Module, ModuleExport, Names, put_name, parse_export, parse_exports, add_export,
  new_module, Key, number_key, name_key, find_export,
}

-- The last export with a property
unfoldable pub last_where : (ModuleExport → Bool) → List ModuleExport → Option ModuleExport
last_where P [] = none
last_where P (e ∷ es) = elim (last_where P es) [
  | some later ↦ some later
  | none ↦ if P e then some e else none
]

abbrev pub named : Name → ModuleExport → Bool
named name e = elim e.name [ none ↦ false | some own ↦ same_name own name ]

-- A number is an ordinal if an export has it, else an address, and a string is a name; of several exports the
-- last counts.
abbrev pub exported : Key → List ModuleExport → Option ModuleExport
exported (number_key n) es = elim (last_where (λ e. e.ordinal == n) es) [
  | some e ↦ some e
  | none ↦ last_where (λ e. e.address == n) es
]
exported (name_key name) es = last_where (named name) es

-- The export at an index, as `find_export` reads it
abbrev at_index : List ModuleExport → Option ℕ → Result (Option ModuleExport)
at_index es none = ok none
at_index es (some i) = elim (get_elem? es i) [ none ↦ raise index_error | some e ↦ ok (some e) ]

get_elem?-here :
    (es : List ModuleExport) (e : ModuleExport) → get_elem? (es ++ (e ∷ [])) (length es) ≡ some e
get_elem?-here [] e = refl
get_elem?-here (x ∷ es) e = get_elem?-here es e

get_elem?-before :
    (es : List ModuleExport) (e : ModuleExport) (i : ℕ) (o : ModuleExport)
    → get_elem? es i ≡ some o
    → get_elem? (es ++ (e ∷ [])) i ≡ some o
get_elem?-before [] e i o h = absurd (ground (arith, h))
get_elem?-before (x ∷ es) e zero o h = h
get_elem?-before (x ∷ es) e (suc i) o h = get_elem?-before es e i o h

at_index-append :
    (es : List ModuleExport) (e : ModuleExport) (i : Option ℕ) (o : Option ModuleExport)
    → at_index es i ≡ ok o
    → at_index (es ++ (e ∷ [])) i ≡ ok o
at_index-append es e none o h = h
at_index-append es e (some i) o h = elim (Option-cases (get_elem? es i)) [
  | inl missing ↦ absurd (ground (arith, rw (missing, at_index) at h))
  | inr (x, found) ↦ rw (get_elem?-before es e i x found, at_index) (rw (found, at_index) at h)
]

last_where-append :
    (P : ModuleExport → Bool) (es : List ModuleExport) (e : ModuleExport)
    → last_where P (es ++ (e ∷ [])) ≡ (if P e then some e else last_where P es)
unfolding last_where
last_where-append P [] e = refl
last_where-append P (x ∷ es) e = elim (Bool-cases (P e)) [
  | inl h ↦ rw (last_where-append P es e, h) refl
  | inr h ↦ rw (last_where-append P es e, h) refl
]

-- One dictionary entry, as an export is added: the new index where the export has the key, else as before.
at_index-added :
    (P : ModuleExport → Bool) (es : List ModuleExport) (e : ModuleExport) (i : Option ℕ)
    → at_index es i ≡ ok (last_where P es)
    → at_index (es ++ (e ∷ [])) (if P e then some (length es) else i)
      ≡ ok (last_where P (es ++ (e ∷ [])))
at_index-added P es e i h = elim (Bool-cases (P e)) [
  | inl has ↦ rw (last_where-append P es e, has, at_index, get_elem?-here es e) refl
  | inr lacks ↦ rw (last_where-append P es e, lacks) (at_index-append es e i (last_where P es) h)
]

-- Each dictionary leads to the last export with its key.
record IsIndexed (m : Module) : Type 0 where
  by_ordinal :
      (n : ℕ)
      → at_index m.exports (m.exports_by_ordinal n)
        ≡ ok (last_where (λ e. e.ordinal == n) m.exports)
  by_address :
      (n : ℕ)
      → at_index m.exports (m.exports_by_address n)
        ≡ ok (last_where (λ e. e.address == n) m.exports)
  by_name :
      (name : Name)
      → at_index m.exports (m.exports_by_name name) ≡ ok (last_where (named name) m.exports)

-- The entry of a name after an export is added
name_entry :
    (own : Option Name) (d : Names ℕ) (i : ℕ) (name : Name)
    → (elim own as (λ x. Names ℕ) [ none ↦ d | some n ↦ put_name n i d ]) name ≡ (
        if (elim own as (λ x. Bool) [ none ↦ false | some n ↦ same_name n name ])
        then some i
        else d name)
name_entry none d i name = refl
name_entry (some n) d i name = refl

add_export-IsIndexed : (e : ModuleExport) (m : Module) → IsIndexed m → IsIndexed (add_export e m)
unfolding add_export
add_export-IsIndexed e m h = record {
  by_ordinal = λ n.
      at_index-added (λ x. x.ordinal == n) m.exports e (m.exports_by_ordinal n) (h.by_ordinal n);
  by_address = λ n.
      at_index-added (λ x. x.address == n) m.exports e (m.exports_by_address n) (h.by_address n);
  by_name = λ name.
      rw (name_entry e.name m.exports_by_name (length m.exports) name)
        (at_index-added (named name) m.exports e (m.exports_by_name name) (h.by_name name));
}

parse_exports-IsIndexed :
    (es : List PeExport) (m image : Module)
    → IsIndexed m
    → parse_exports es m ≡ ok image
    → IsIndexed image
unfolding parse_exports
parse_exports-IsIndexed [] m image h made =
    subst (λ (r : Result Module). elim r [ ok x ↦ IsIndexed x | raise _ ↦ Unit {0} ]) made h
parse_exports-IsIndexed (e ∷ es) m image h made = go (parse_export m.base e) refl λ export.
    parse_exports-IsIndexed es (add_export export m) image (add_export-IsIndexed export m h)
  where
    go :
        (r : Result ModuleExport)
        → parse_export m.base e ≡ r
        → ((export : ModuleExport)
            → parse_exports es (add_export export m) ≡ ok image
            → IsIndexed image)
        → IsIndexed image
    go (ok export) at rest = rest export (rw (at, parse_exports) at made)
    go (raise x) at rest = absurd (ground (arith, rw (at, parse_exports) at made))

-- An index of the first dictionary, or else of the second
at_either :
    (es : List ModuleExport) (i j : Option ℕ) (x y : Option ModuleExport)
    → at_index es i ≡ ok x
    → at_index es j ≡ ok y
    → at_index es (elim i [ some k ↦ some k | none ↦ j ])
      ≡ ok (elim x [ some e ↦ some e | none ↦ y ])
at_either es none j none y h k = k
at_either es none j (some e) y h k = absurd (ground (arith, h))
at_either es (some i) j (some e) y h k = h
at_either es (some i) j none y h k = elim (Option-cases (get_elem? es i)) [
  | inl missing ↦ absurd (ground (arith, rw (missing, at_index) at h))
  | inr (e, found) ↦ absurd (ground (arith, rw (found, at_index) at h))
]

no_exports-IsIndexed :
    (m : Module)
    → m.exports ≡ []
    → ((n : ℕ) → m.exports_by_ordinal n ≡ none)
    → ((n : ℕ) → m.exports_by_address n ≡ none)
    → ((name : Name) → m.exports_by_name name ≡ none)
    → IsIndexed m
unfolding last_where
no_exports-IsIndexed m e o a n = record {
  by_ordinal = λ k. rw (e, o k) refl;
  by_address = λ k. rw (e, a k) refl;
  by_name = λ name. rw (e, n name) refl;
}

-- In a module made of a `pefile.PE`, `find_export` of an integer returns the last export with that ordinal,
-- or else the last one with that address, and of a string the last one with that name, in the order of the
-- exports; it returns `None` if there is none, and never raises.
pub find_export-exported :
    (pe : Pe) (path : Name) (image : Module) (key : Key)
    → new_module pe path ≡ ok image
    → find_export key image ≡ ok (exported key image.exports)
unfolding new_module find_export
find_export-exported pe path image key made = found key (
    parse_exports-IsIndexed pe.exports _ image
      (no_exports-IsIndexed _ refl (λ n. refl) (λ n. refl) (λ name. refl)) made)
  where
    found : (key : Key) → IsIndexed image → find_export key image ≡ ok (exported key image.exports)
    found (name_key name) h = h.by_name name
    found (number_key n) h =
        at_either image.exports (image.exports_by_ordinal n) (image.exports_by_address n) _ _
          (h.by_ordinal n) (h.by_address n)
