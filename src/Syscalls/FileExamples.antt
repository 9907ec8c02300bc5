-- ===== src/Syscalls/FileExamples.antt =====
-- A file with two handles.
use dumpulator.Prelude.{ℕ, ◌≡◌, refl, arith, true, some, List, [], ◌∷◌}
use dumpulator.Outcome.{ok, pure, ◌>>◌}
use dumpulator.Primitives.Fields.{pack}
use dumpulator.Primitives.Architecture
use dumpulator.Handles.Manager.{lookup}
use dumpulator.Handles.File.{FileObject}
use dumpulator.Handles.File
use dumpulator.Registers.Samples.{byte_map, put_bytes}
use dumpulator.Syscalls.Process.{status_success}
use dumpulator.Syscalls.Kernel.{file_object, Kernel, on_memory, set_object, write_ptr}
use dumpulator.Syscalls.Files.{
  Transfer, report_transfer, zw_read_file, zw_write_file, file_position_information,
  zw_set_information_file,
}
use dumpulator.Syscalls.Transfers.{wrote, zw_read_file-zw_write_file}

abbrev small_file : FileObject
small_file = record { bytes = some (1 ∷ 2 ∷ 3 ∷ 4 ∷ []); file_offset = 1 }

abbrev some_bytes : List ℕ
some_bytes = 7 ∷ 8 ∷ []

abbrev start_memory : ℕ → ℕ
start_memory = put_bytes 0x1000 some_bytes (put_bytes 0x2000 (pack 8 1) (λ address. 0))

abbrev kernel : Kernel byte_map
kernel = record {
  handles = record {
    handles = record { value = 0x100; object = 0 } ∷ record { value = 0x104; object = 0 } ∷ [];
    free_handles = [];
    base_handle = 0x100;
    handle_id = 2;
  };
  objects = λ reference. file_object small_file;
  next_reference = 1;
  memory = start_memory;
  x64 = true;
}

abbrev transfer : (handle buffer : ℕ) → Transfer
transfer handle buffer = record {
  file_handle = handle;
  event = 0;
  apc_routine = 0;
  apc_context = 0;
  io_status_block = 0x3000;
  buffer = buffer;
  size = 2;
  byte_offset = 0;
  key = 0;
}

abbrev first : Transfer
first = transfer 0x100 0x1000

abbrev second : Transfer
second = transfer 0x104 0x4000

abbrev written : Kernel byte_map
written = (report_transfer first 2 (wrote first 0 small_file some_bytes start_memory kernel)).1

zw_read_file-zw_write_file_example :
    (zw_write_file first kernel ≡ (ok status_success, written))
    × ((k₂ : Kernel byte_map) × ((zw_set_information_file 0x104 0x3000 0x2000 8
              file_position_information written
            ≡ (ok status_success, k₂))
          × (zw_read_file [] second k₂
              ≡ (on_memory (byte_map.write 0x4000 some_bytes)
                    >> (report_transfer second 2 >> pure status_success))
                  (set_object 0 (file_object (File.write some_bytes (some 2) small_file)) k₂))))
unfolding report_transfer write_ptr lookup Architecture.write_ptr pack
zw_read_file-zw_write_file_example =
    zw_read_file-zw_write_file [] first second 0x3000 0x2000 0 small_file some_bytes kernel written
      start_memory written.memory
      (record {
        writer = record { aligned = refl; there = refl; content = refl };
        reader = record { aligned = refl; there = refl; content = refl };
        writes = record {
          event = refl;
          apc_routine = refl;
          apc_context = refl;
          byte_offset = refl;
          key = refl;
          buffer = refl;
        };
        reads = record {
          event = refl;
          apc_routine = refl;
          apc_context = refl;
          byte_offset = refl;
          key = refl;
          buffer = refl;
        };
        inside = omega arith;
        small = omega arith;
        writes_all = refl;
        reads_all = refl;
      })
      refl refl refl refl refl
