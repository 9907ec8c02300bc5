-- ===== src/Handles/Examples.antt =====
-- The handles on small inputs, and the theorems at inputs that meet their hypotheses.
use dumpulator.Prelude.{ℕ, ◌+◌, ◌≡◌, refl, Option, none, some, List, [], ◌∷◌, take, drop, arith}
use dumpulator.Outcome.{ok}
use dumpulator.Handles.Manager.{
  HandleManager, new_handles, lookup, new, close, duplicate, get, add, next_handle, search,
  find_free_handle, store, object_at, valid, delete,
}
use dumpulator.Handles.Giving.{Gives, new-Gives}
use dumpulator.Handles.Table.{allowed_all, table, perform_all-allowed}
use dumpulator.Handles.History.{
  Request, new_object, add_object, close_handle, duplicate_handle, Ascends, next, perform,
  perform_all, handles_ascend, get-new,
}
use dumpulator.Native.Text.{codes, same_name}
use dumpulator.Handles.Mapped.{FileSystem, Files}
use dumpulator.Handles.File.{FileObject, read, write}
use dumpulator.Handles.Reading.{contents, write-read}

abbrev busy : HandleManager ℕ
busy = record {
  handles = record { value = 0x100; object = 7 } ∷ record { value = 0x108; object = 8 } ∷ [];
  free_handles = 0x108 ∷ 0x200 ∷ [];
  base_handle = 0x100;
  handle_id = 1;
}

abbrev requests : List (Request ℕ)
requests =
    new_object 5
    ∷ add_object 0x104 6
    ∷ close_handle 0x100
    ∷ new_object 7
    ∷ duplicate_handle 0x104
    ∷ []

-- The predefined handle 0x104 is passed over, and 0x100 is not given out again.
handles_given : (perform_all requests (new_handles ℕ)).0 ≡ 0x100 ∷ 0x108 ∷ 0x10c ∷ []
unfolding perform_all perform new add close duplicate find_free_handle search next_handle lookup
    store object_at valid delete
handles_given = refl

new-Gives_example : Gives 9 busy (new ℕ 9 busy)
new-Gives_example = new-Gives 9 busy

handles_ascend_example :
    Ascends 0x100
      (next (perform_all requests (new_handles ℕ)).1)
      (perform_all requests (new_handles ℕ)).0
handles_ascend_example = handles_ascend requests

get-new_example :
    (h : ℕ) × ((m' : HandleManager ℕ) × ((new ℕ 9 (perform_all requests (new_handles ℕ)).1
          ≡ (ok h, m'))
        × (get ℕ (h + 3) none m' ≡ ok (some 9))))
get-new_example = get-new requests 9 3 (omega arith)

abbrev small_file : FileObject
small_file = record { bytes = some (1 ∷ 2 ∷ 3 ∷ 4 ∷ 5 ∷ []); file_offset = 2 }

write-read_example :
    (read (some 2) (record (write (8 ∷ 9 ∷ 10 ∷ []) (some 2) small_file) { file_offset = 2 })
      ≡ (8 ∷ 9 ∷ [], write (8 ∷ 9 ∷ 10 ∷ []) (some 2) small_file))
    × ((take 2 (contents (write (8 ∷ 9 ∷ 10 ∷ []) (some 2) small_file))
          ≡ take 2 (contents small_file))
        × (drop 4 (contents (write (8 ∷ 9 ∷ 10 ∷ []) (some 2) small_file))
            ≡ drop 4 (contents small_file)))
write-read_example = write-read (8 ∷ 9 ∷ 10 ∷ []) (some 2) small_file (omega arith) (omega arith)

abbrev one_file : FileSystem
one_file = record { exists = same_name (codes "a.txt"); content = λ filename. 1 ∷ 2 ∷ [] }

abbrev no_files : Files (Option (List ℕ))
no_files = record { manager = new_handles (Option (List ℕ)); mapped = λ name. none }

perform_all-allowed_example :
    allowed_all requests (perform_all requests busy).0 (table busy)
    ≡ some (table (perform_all requests busy).1, [])
perform_all-allowed_example = perform_all-allowed requests busy
