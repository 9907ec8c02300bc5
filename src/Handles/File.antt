-- ===== src/Handles/File.antt =====
-- handles.py: `FileObject`. Bytes are numbers; the path, which `read` and `write` do not use, is left out.
use dumpulator.Prelude.{ℕ, ◌+◌, Option, none, some, List, [], ◌++◌, length, take, drop}

pub record FileObject : Type 0 where
  pub bytes : Option (List ℕ)
  pub file_offset : ℕ

-- `read(size)`, where `size` may be `None`
unfoldable pub read : Option ℕ → FileObject → List ℕ × FileObject
read size f = elim f.bytes [
  | none ↦ ([], f)
  | some bytes ↦
      let chunk : List ℕ = elim size [
        | none ↦ drop f.file_offset bytes
        | some n ↦ drop f.file_offset (take (f.file_offset + n) bytes)
      ] in
      (chunk, record f { file_offset = f.file_offset + length chunk })
]

-- `buffer[:size]`, or the whole buffer for `None`
abbrev pub buffer_part : List ℕ → Option ℕ → List ℕ
buffer_part buffer none = buffer
buffer_part buffer (some n) = take n buffer

-- What the file's offset and the bytes that are replaced go by.
abbrev pub write_size : List ℕ → Option ℕ → ℕ
write_size buffer none = length buffer
write_size buffer (some n) = n

unfoldable pub write : List ℕ → Option ℕ → FileObject → FileObject
write buffer size f = elim f.bytes [
  | none ↦ record {
    bytes = some (buffer_part buffer size);
    file_offset = f.file_offset + write_size buffer size;
  }
  | some bytes ↦ record {
    bytes = some (
        take f.file_offset bytes
        ++ (buffer_part buffer size ++ drop (f.file_offset + write_size buffer size) bytes));
    file_offset = f.file_offset + write_size buffer size;
  }
]
