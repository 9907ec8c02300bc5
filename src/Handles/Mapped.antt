-- ===== src/Handles/Mapped.antt =====
-- handles.py: the mapped files of `HandleManager`. The file system is a parameter: whether a file exists, and
-- its bytes; so is what a file or a registry key is as an object.
use dumpulator.Prelude.{
  ℕ, ◌<◌, ◌≡◌, Bool, true, false, ◌||◌, List, Option, none, some, is_some, ◌==◌, if◌then◌else◌,
}
use dumpulator.Outcome.{ok, raise, Action}
use dumpulator.Native.Text.{Name, same_name, lower}
use dumpulator.Handles.Manager.{HandleManager, new}

-- The files that programs may open.
pub record FileSystem : Type 0 where
  pub exists : Name → Bool
  pub content : Name → List ℕ

abbrev pub file_supersede : ℕ
file_supersede = 0

abbrev pub file_open : ℕ
file_open = 1

abbrev pub file_create : ℕ
file_create = 2

abbrev pub file_open_if : ℕ
file_open_if = 3

abbrev pub file_overwrite : ℕ
file_overwrite = 4

abbrev pub file_overwrite_if : ℕ
file_overwrite_if = 5

-- The handles, and `_mapped_files`.
pub record Files (Object : Type 0) : Type 0 where
  pub manager : HandleManager Object
  pub mapped : Name → Option Object

module _ {Object : Type 0} where
  unfoldable pub map_file : (filename : Name) → Object → Files Object → Files Object
  unfolding same_name lower
  map_file filename handle_data s = record s {
    mapped = λ other. if same_name (lower filename) other then some handle_data else s.mapped other;
  }

  -- `None` if the file is not mapped
  unfoldable pub open_file : (filename : Name) → Action (Files Object) (Option ℕ)
  unfolding new lower
  open_file filename s = elim (s.mapped (lower filename)) [
    | none ↦ (ok none, s)
    | some handle_data ↦
        let (r, m) = new Object handle_data s.manager in
        (elim r [ raise e ↦ raise e | ok value ↦ ok (some value) ], record s { manager = m })
  ]

-- What a call does: nothing as the file is mapped, nothing as it is refused, mapping the file with the bytes
-- that the system has, or mapping a file without data.
pub data Effect : Type 0 where
  known : Effect
  refused : Effect
  loaded : Effect
  fresh : Effect

-- The dispositions of `ZwCreateFile`, by number: the options, whether the file is mapped, and whether it
-- exists.
pub data Disposes : (options : ℕ) (mapped exists : Bool) → Effect → Type 0 where
  already : (options : ℕ) (exists : Bool) → Disposes options true exists known
  supersede_old : Disposes 0 false true refused
  supersede_new : Disposes 0 false false fresh
  open_old : Disposes 1 false true loaded
  open_new : Disposes 1 false false refused
  create_old : Disposes 2 false true refused
  create_new : Disposes 2 false false fresh
  open_if_old : Disposes 3 false true loaded
  open_if_new : Disposes 3 false false fresh
  overwrite_old : Disposes 4 false true loaded
  overwrite_new : Disposes 4 false false refused
  overwrite_if_old : Disposes 5 false true loaded
  overwrite_if_new : Disposes 5 false false fresh
  unknown : (options : ℕ) (exists : Bool) → 5 < options → Disposes options false exists refused

-- `FileObject(filename, data)`, with `None` for no data
module _ {Object : Type 0} (system : FileSystem)
    (file_object : Name → Option (List ℕ) → Object) where
  abbrev map_content : (filename : Name) → Files Object → Files Object
  map_content filename = map_file filename (file_object filename (some (system.content filename)))

  abbrev map_new : (filename : Name) → Files Object → Files Object
  map_new filename = map_file filename (file_object filename none)

  unfoldable pub create_file : (filename : Name) (options : ℕ) → Files Object → Bool × Files Object
  unfolding map_file lower
  create_file filename options s =
      if is_some (s.mapped (lower filename))
      then (true, s)
      else (if options == file_open || options == file_overwrite
          then (if system.exists filename then (true, map_content filename s) else (false, s))
          else (if options == file_create || options == file_supersede
              then (if system.exists filename then (false, s) else (true, map_new filename s))
              else (if options == file_open_if || options == file_overwrite_if
                  then (if system.exists filename
                      then (true, map_content filename s)
                      else (true, map_new filename s))
                  else (false, s))))

  -- The files with the name mapped to a file with this data, and every other name as it was
  unfoldable pub with_file : Name → Option (List ℕ) → Files Object → Files Object
  with_file filename bytes s = record s {
    mapped = λ other.
        if same_name (lower filename) other
        then some (file_object filename bytes)
        else s.mapped other;
  }

  unfoldable pub perform : Name → Effect → Files Object → Bool × Files Object
  unfolding with_file
  perform filename known s = (true, s)
  perform filename refused s = (false, s)
  perform filename loaded s = (true, with_file filename (some (system.content filename)) s)
  perform filename fresh s = (true, with_file filename none s)

  -- The call does what the table says for these options.
  abbrev pub AsDisposed : (filename : Name) (options : ℕ) → Files Object → Type 0
  AsDisposed filename options s =
      (effect : Effect) × (Disposes options (is_some (s.mapped (lower filename)))
          (system.exists filename) effect
        × (create_file filename options s ≡ perform filename effect s))
