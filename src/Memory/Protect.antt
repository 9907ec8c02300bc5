-- ===== src/Memory/Protect.antt =====
-- memory.py: `PAGE_SIZE` and the enumerations. A `MemoryProtect` is a `Flag`, so a value is its bits.
use dumpulator.Prelude.{ℕ}

abbrev pub page_size : ℕ
page_size = 0x1000

abbrev pub MemoryProtect : Type 0
MemoryProtect = ℕ

abbrev pub undefined : MemoryProtect
undefined = 0x0

abbrev pub page_execute : MemoryProtect
page_execute = 0x10

abbrev pub page_execute_read : MemoryProtect
page_execute_read = 0x20

abbrev pub page_execute_readwrite : MemoryProtect
page_execute_readwrite = 0x40

abbrev pub page_execute_writecopy : MemoryProtect
page_execute_writecopy = 0x80

abbrev pub page_noaccess : MemoryProtect
page_noaccess = 0x1

abbrev pub page_readonly : MemoryProtect
page_readonly = 0x2

abbrev pub page_readwrite : MemoryProtect
page_readwrite = 0x4

abbrev pub page_writecopy : MemoryProtect
page_writecopy = 0x8

abbrev pub page_guard : MemoryProtect
page_guard = 0x100

abbrev pub page_nocache : MemoryProtect
page_nocache = 0x200

abbrev pub page_writecombine : MemoryProtect
page_writecombine = 0x400

pub data MemoryType : Type 0 where
  no_type mem_image mem_mapped mem_private : MemoryType

pub data MemoryState : Type 0 where
  mem_commit mem_reserve mem_free : MemoryState
