-- ===== src/Syscalls/Transfers.antt =====
-- ntsyscalls.py: files are shared by reference, so what is written through one handle is read through another.
use dumpulator.Prelude.{
  ℕ, ◌+◌, ◌*◌, ◌/◌, ◌^◌, ◌≤◌, ◌<◌, ◌≡◌, refl, sym, ◌∙◌, ap, arith, true, false, some, List, [], ◌∷◌,
  length, take, leb, ◌==◌,
}
use dumpulator.Outcome.{ok, pure, bind_ok, bind_returned, ◌>>◌}
use dumpulator.Primitives.Control.{ptr_size}
use dumpulator.Primitives.Fields.{pack, unpack-pack}
use dumpulator.Primitives.Architecture.{MemoryAccess}
use dumpulator.Handles.Manager.{lookup, valid, get}
use dumpulator.Handles.File.{FileObject}
use dumpulator.Handles.File
use dumpulator.Handles.Reading.{contents, write-read}
use dumpulator.Syscalls.Process.{status_success}
use dumpulator.Syscalls.Kernel.{
  KernelObject, file_object, Kernel, on_memory, set_object, get_file, attribute_of, write_ptr,
  read_object, write_object, set_offset,
}
use dumpulator.Syscalls.Files.{
  Transfer, is_valid, check_transfer, report_transfer, zw_read_file, zw_write_file,
  file_position_information, zw_set_information_file,
}

-- The arguments that the system calls assert
pub record IsPlain (t : Transfer) : Type 0 where
  pub event : (t.event == 0) ≡ true
  pub apc_routine : (t.apc_routine == 0) ≡ true
  pub apc_context : (t.apc_context == 0) ≡ true
  pub byte_offset : (t.byte_offset == 0) ≡ true
  pub key : (t.key == 0) ≡ true
  pub buffer : (t.buffer == 0) ≡ false

take_all : (bytes : List ℕ) → take (length bytes) bytes ≡ bytes
take_all [] = refl
take_all (b ∷ bytes) = ap (λ (l : List ℕ). b ∷ l) (take_all bytes)

-- A file whose offset is set to where a write began gives what was written.
written_back :
    (f : FileObject) (bytes : List ℕ) (w t : ℕ)
    → f.file_offset ≤ length (contents f)
    → length bytes ≡ w
    → length bytes ≡ t
    → File.read (some t) (record (File.write bytes (some w) f) { file_offset = f.file_offset })
      ≡ (bytes, File.write bytes (some w) f)
written_back f bytes w t inside writes_all reads_all =
    rw (sym writes_all, sym reads_all)
      ((write-read bytes (some (length bytes)) f inside (omega arith)).0
        ∙ ap (λ (l : List ℕ). (l, File.write bytes (some (length bytes)) f)) (take_all bytes))

module _ {guest : MemoryAccess} where
  -- The handle, without tag bits, stands for the object of the reference, which is the file `f`.
  pub record IsFile (handle reference : ℕ) (f : FileObject) (k : Kernel guest) : Type 0 where
    pub aligned : handle / 4 * 4 ≡ handle
    pub there : lookup handle k.handles.handles ≡ some reference
    pub content : k.objects reference ≡ file_object f

  checked : (t : Transfer) (k : Kernel guest) → IsPlain t → check_transfer t k ≡ (ok tt, k)
  unfolding check_transfer
  checked t k plain =
      rw (plain.event, plain.apc_routine, plain.apc_context, plain.byte_offset, plain.key) refl

  file_found :
      (handle reference : ℕ) (f : FileObject) (k : Kernel guest)
      → IsFile handle reference f k
      → get_file handle k ≡ (ok (some reference), k)
  unfolding get_file get
  file_found handle reference f k file = rw (file.aligned, file.there, get, file.content) refl

  handle_valid :
      (handle reference : ℕ) (f : FileObject) (k : Kernel guest)
      → IsFile handle reference f k
      → is_valid handle k ≡ true
  unfolding valid
  handle_valid handle reference f k file = rw file.there refl

  write_exact :
      (t : Transfer) (reference : ℕ) (f : FileObject) (k : Kernel guest) (bytes : List ℕ)
      (memory : guest.State)
      → IsFile t.file_handle reference f k
      → IsPlain t
      → guest.read t.buffer t.size k.memory ≡ (ok bytes, memory)
      → zw_write_file t k
        ≡ (report_transfer t (length bytes) >> pure status_success) (
            set_object reference
              (file_object (File.write bytes (some t.size) f))
              (record k { memory = memory }))
  unfolding zw_write_file attribute_of on_memory write_object
  write_exact t reference f k bytes memory file plain read =
      rw (checked t k plain, handle_valid t.file_handle reference f k file, plain.buffer)
        (bind_ok (get_file t.file_handle) _ k k (some reference)
            (file_found t.file_handle reference f k file)
          ∙ rw (read, file.content) refl)

  module _ (input : List ℕ) where
    -- `ZwReadFile` on a file: it writes what the file gives, and the count.
    read_exact :
        (t : Transfer) (reference : ℕ) (f f' : FileObject) (k : Kernel guest) (bytes : List ℕ)
        → IsFile t.file_handle reference f k
        → IsPlain t
        → File.read (some t.size) f ≡ (bytes, f')
        → length bytes ≤ t.size
        → zw_read_file input t k
          ≡ (on_memory (guest.write t.buffer bytes)
                >> (report_transfer t (length bytes) >> pure status_success))
              (set_object reference (file_object f') k)
    unfolding zw_read_file attribute_of read_object
    read_exact t reference f f' k bytes file plain given fits =
        let within : leb (length bytes) t.size ≡ true = ground (arith, fits) in
        rw (checked t k plain, handle_valid t.file_handle reference f k file, plain.buffer)
          (bind_ok (get_file t.file_handle) _ k k (some reference)
              (file_found t.file_handle reference f k file)
            ∙ rw (file.content, given, within) refl)

  set_exact :
      (handle io_status_block file_information reference offset : ℕ) (f : FileObject)
      (k : Kernel guest) (memory : guest.State)
      → IsFile handle reference f k
      → (io_status_block == 0) ≡ false
      → (file_information == 0) ≡ false
      → offset < 2 ^ 64
      → guest.read file_information 8 k.memory ≡ (ok (pack 8 offset), memory)
      → zw_set_information_file handle io_status_block file_information 8 file_position_information
          k
        ≡ (
          ok status_success,
          set_object reference
              (file_object (record f { file_offset = offset }))
              (record k { memory = memory }),
        )
  unfolding zw_set_information_file attribute_of on_memory set_offset
  set_exact handle io_status_block file_information reference offset f k memory file io_there
        info_there small read =
      rw (handle_valid handle reference f k file, io_there, info_there)
        (bind_ok (get_file handle) _ k k (some reference) (file_found handle reference f k file)
          ∙ rw (read, file.content, unpack-pack 8 offset small) refl)

  write_ptr_memory :
      (addr value : ℕ) (k k' : Kernel guest)
      → write_ptr addr value k ≡ (ok tt, k')
      → k' ≡ record k { memory = k'.memory }
  unfolding write_ptr on_memory
  write_ptr_memory addr value k k' h =
      let e : k' ≡ (write_ptr addr value k).1 = sym (ap (λ r. r.1) h) in
      e ∙ ap (λ (n : Kernel guest). record k { memory = n.memory }) (sym e)

  -- To report a transfer changes memory only.
  reported_memory :
      (t : Transfer) (count : ℕ) (k k' : Kernel guest)
      → report_transfer t count k ≡ (ok tt, k')
      → k' ≡ record k { memory = k'.memory }
  unfolding report_transfer
  reported_memory t count k k' h =
      let (u, (k₁, (e₁, h₁))) =
        bind_returned (write_ptr t.io_status_block status_success) _ k k' tt h in
      write_ptr_memory (t.io_status_block + ptr_size k₁.x64) count k₁ k' h₁
      ∙ ap (λ (n : Kernel guest). record n { memory = k'.memory })
          (write_ptr_memory t.io_status_block status_success k k₁ e₁)

  same_reference :
      (reference : ℕ) (object : KernelObject) (k : Kernel guest)
      → (set_object reference object k).objects reference ≡ object
  same_reference reference object k =
      let same : (reference == reference) ≡ true = ground arith in rw same refl

  -- The object of a reference is replaced by another file, and memory changes.
  replaced-IsFile :
      (handle reference : ℕ) (f f' : FileObject) (k k' : Kernel guest)
      → IsFile handle reference f k
      → k' ≡ record (set_object reference (file_object f') k) { memory = k'.memory }
      → IsFile handle reference f' k'
  replaced-IsFile handle reference f f' k k' file same = record {
    aligned = file.aligned;
    there = ap (λ (n : Kernel guest). lookup handle n.handles.handles) same ∙ file.there;
    content =
        ap (λ (n : Kernel guest). n.objects reference) same
        ∙ same_reference reference (file_object f') k;
  }

  -- A file of which two handles have the reference, the bytes `bytes` that are written through the one, and the
  -- offset before, which is set through the other again; both transfers have the size of the bytes.
  pub record Shares (w t : Transfer) (reference : ℕ) (f : FileObject) (bytes : List ℕ)
      (k : Kernel guest) : Type 0 where
    pub writer : IsFile w.file_handle reference f k
    pub reader : IsFile t.file_handle reference f k
    pub writes : IsPlain w
    pub reads : IsPlain t
    pub inside : f.file_offset ≤ length (contents f)
    pub small : f.file_offset < 2 ^ 64
    pub writes_all : length bytes ≡ w.size
    pub reads_all : length bytes ≡ t.size

  abbrev pub wrote :
      (w : Transfer) (reference : ℕ) (f : FileObject) (bytes : List ℕ) (memory : guest.State)
      → Kernel guest
      → Kernel guest
  wrote w reference f bytes memory k =
      set_object reference (file_object (File.write bytes (some w.size) f))
        (record k { memory = memory })

  module _ (input : List ℕ) where
    -- What was written through one handle of a file is read through another handle of it, once the offset of that
    -- handle is set to where the write began: if the status of the write can be reported, `ZwWriteFile` and
    -- `ZwSetInformationFile` succeed, and `ZwReadFile` does no more than to put the bytes into its buffer, report their
    -- number, succeed, and leave the file with the offset behind them.
    pub zw_read_file-zw_write_file :
        (w t : Transfer) (io_status_block file_information reference : ℕ) (f : FileObject)
        (bytes : List ℕ) (k k₁ : Kernel guest) (memory memory₂ : guest.State)
        → Shares w t reference f bytes k
        → (io_status_block == 0) ≡ false
        → (file_information == 0) ≡ false
        → guest.read w.buffer w.size k.memory ≡ (ok bytes, memory)
        → report_transfer w (length bytes) (wrote w reference f bytes memory k) ≡ (ok tt, k₁)
        → guest.read file_information 8 k₁.memory ≡ (ok (pack 8 f.file_offset), memory₂)
        → (zw_write_file w k ≡ (ok status_success, k₁))
          × ((k₂ : Kernel guest) × ((zw_set_information_file t.file_handle io_status_block
                    file_information 8 file_position_information k₁
                  ≡ (ok status_success, k₂))
                × (zw_read_file input t k₂
                    ≡ (on_memory (guest.write t.buffer bytes)
                          >> (report_transfer t (length bytes) >> pure status_success))
                        (set_object reference
                          (file_object (File.write bytes (some w.size) f))
                          k₂))))
    zw_read_file-zw_write_file w t io_status_block file_information reference f bytes k k₁ memory
          memory₂ shares io_there info_there read reported read_offset =
        let after : FileObject = File.write bytes (some w.size) f in
        let back : FileObject = record after { file_offset = f.file_offset } in
        let same : k₁ ≡ record (set_object reference (file_object after) k) { memory = k₁.memory } =
          reported_memory w (length bytes) (wrote w reference f bytes memory k) k₁ reported in
        let file₁ : IsFile t.file_handle reference after k₁ =
          replaced-IsFile t.file_handle reference f after k k₁ shares.reader same in
        let k₂ : Kernel guest =
          set_object reference (file_object back) (record k₁ { memory = memory₂ }) in
        let file₂ : IsFile t.file_handle reference back k₂ =
          replaced-IsFile t.file_handle reference after back k₁ k₂ file₁ refl in
        (
          write_exact w reference f k bytes memory shares.writer shares.writes read
              ∙ bind_ok (report_transfer w (length bytes)) _ (wrote w reference f bytes memory k) k₁
                  tt reported,
          (
            k₂,
            (
              set_exact t.file_handle io_status_block file_information reference f.file_offset after
                  k₁ memory₂ file₁ io_there info_there shares.small read_offset,
              read_exact input t reference back after k₂ bytes file₂ shares.reads
                  (written_back f bytes w.size t.size shares.inside shares.writes_all
                    shares.reads_all)
                  (omega (arith, shares.reads_all)),
            ),
          ),
        )
