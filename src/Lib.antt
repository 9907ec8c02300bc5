-- ===== src/Lib.antt =====
-- The memory model, handles, registers and modules of dumpulator, an emulator for code in minidumps of
-- Windows processes.
--
-- The program. `src/dumpulator/memory.py` keeps the regions of the address space and their committed
-- pages (`MemoryManager`), with the rules of VirtualAlloc and its kin. It tells a page manager which
-- pages to map, unmap and protect: `LazyPageManager` of `src/dumpulator/dumpulator.py`, which keeps the
-- bytes of a page until the engine touches it, and passes the rest on to the unicorn engine. The system
-- calls in `src/dumpulator/ntsyscalls.py` call the memory manager, and reach files, events and devices
-- by the handles that `src/dumpulator/handles.py` gives out. `src/dumpulator/details.py` names the engine's
-- registers, and finds the arguments of a call in them and on the stack, where `src/dumpulator/dumpulator.py`
-- puts them. `src/dumpulator/modules.py` keeps the loaded modules in the regions of the memory manager, and
-- `src/dumpulator/native.py` has the structures of Windows.
--
-- The files.
--   Prelude        names of the library, tests on numbers, lists over native numbers, dictionaries
--   Outcome        Python's exceptions as a result beside the state; the do notation for methods
--   Memory         `src/dumpulator/memory.py`. The code is in Protect (`MemoryProtect`, `MemoryType`), Region
--     (`MemoryRegion`, the alignments), Bisect (`bisect.bisect_right` on the regions), Pager (the calls
--     of the page manager, and the mock of `tests/memory_test.py` that maps them), Manager
--     (`MemoryManager`, `find_region`, `find_commit`, `reserve`), Commit (`commit`, `decommit`, `protect`), Release
--     (`release`), RegionInfo (`set_region_info`) and Query (`query`, `map`, `find_free`); the other children are about that code: Valid has
--     the well-formed states, Layout and Insert the order of the regions, Count the counts of pages,
--     Contract the page manager's calls, Ledger, Decommit, Torn, Remove and Splitting the loops and the
--     halves of the methods, History the sequences of calls, Spans, Gaps, Querying, Steps, Finding, Describing,
--     Tiles and Mapping the queries. Examples and QueryExamples have the tests.
--   Pages          `src/dumpulator/dumpulator.py`: Child (`PageManager`, a parameter), Lazy
--     (`LazyPageManager`), Access (its `read` and `write`), Examples (tests).
--   Handles        `src/dumpulator/handles.py`: Manager (`HandleManager`), Fresh (its search for a free
--     handle), Giving (its methods), History (sequences of calls), Table (its specification), Mapped (its mapped files), File
--     (`FileObject`), Reading (its `read` and `write`), Examples (tests).
--   Primitives     Integers (`CHAR`, `ULONG` and their kin of `src/dumpulator/ntprimitives.py`), Wrapping
--     (two's complement), Control (`DeviceControlData` of `src/dumpulator/handles.py`), Fields (messages
--     of numbers), Architecture (`Architecture` of `src/dumpulator/ntprimitives.py`, its memory being a
--     parameter), Examples (tests).
--   Native         `src/dumpulator/native.py`: Text (names of registers), Context (`CONTEXT`), Wow64
--     (`WOW64_CONTEXT`), Rounding (`round_to_pages`), Structs (the structures that
--     `ZwQueryVirtualMemory` writes), Restoring and Wow64Restoring (what is saved and restored), Examples
--     (tests).
--   Syscalls       `src/dumpulator/ntsyscalls.py`: Process (the parts of `Dumpulator` that they use), Virtual
--     (`ZwAllocateVirtualMemory`, `ZwFreeVirtualMemory`, `ZwProtectVirtualMemory`,
--     `ZwQueryVirtualMemory`), Keeping (what each step keeps), Valid (what each call keeps), Freeing
--     (what `ZwFreeVirtualMemory` does), Kernel (the objects behind handles, `ConsoleFileObject` of `src/dumpulator/handles.py`),
--     Files (`ZwClose`, `ZwDuplicateObject`, `ZwOpenProcessToken`, `ZwReadFile`, `ZwWriteFile`,
--     `ZwQueryInformationFile`, `ZwSetInformationFile`), Transfers (files with several handles), Examples
--     and FileExamples (tests).
--   Registers      `src/dumpulator/details.py`: Names (the dictionaries of `Registers`), Access (`Registers`),
--     Flags, Saving (`save` and `load`); Stack (`Arguments`, and `push`, `pop`, `ret` and `call` of
--     `src/dumpulator/dumpulator.py`), Calling (the stack), Passing (the arguments), Samples (a processor and a memory for
--     tests), Examples (tests).
--   Emulator       `src/dumpulator/dumpulator.py`: Allocate (`allocate`), Allocated (the blocks that it hands out), Exceptions (`UnicornExceptionInfo`, the
--     state that the hooks act on), Hooks (`stop`, `raise_kill`, `_hook_mem`, `_hook_code_exception`,
--     `_hook_interrupt`, `_hook_invalid`), Syscall (`_hook_syscall`), Frame and Dispatch
--     (`handle_exception`), Run (`start`); Ready, Reporting, Looping, Delivering and Restart (a reported
--     exception has what its second chance needs), Chances (the two chances of a fault), Inside (where the frame is written), Terminate (`ZwTerminateProcess` of
--     `src/dumpulator/ntsyscalls.py`), Examples and RunExamples (tests).
--   Modules        `src/dumpulator/modules.py`: Export (`Module`), Manager (`ModuleManager`), Resolving
--     (finding what was added), Exported (what `find_export` finds), Examples (tests).
--
-- States and operations. A class is a record with its fields; a method is a function from its arguments
-- to an `Action`, which takes the object and gives the result or the exception with the object after it.
-- An exception keeps what was changed before it. Objects that are shared are found again by their key: a
-- region by its start, a page by its address, which no two have. A `dict` that is only read by key is
-- the function `get`. A page manager's calls are recorded, the newest first, and replayed on a table of
-- mapped pages, so that their contract and their result are statements about the record.
--
-- Numbers. Python's integers have no bound, so addresses, sizes and handles are natural numbers, and the
-- values of `CHAR` and its kin integers. A subtraction
-- stands only where the code's own tests rule out a negative result. The masks `& ~0xFFF` and `& 0xFFF`
-- are written by division and remainder. The flags of `MemoryProtect` are the numbers they stand for.
--
-- Loops. A loop over pages or regions is recursion on the list; the binary search halves an interval,
-- with its length as fuel; `iter_chunks` goes on by a page each round, so a round for each page of the
-- size and two more are enough; `map` and `find_free` go on by a byte at least, so a round for each byte
-- of the address space is enough; the search for a free handle skips at most the taken ones.
-- `resolve_export` has the number of calls for which the interpreter has room as fuel, since forwards may
-- run in a circle.
--
-- Emulation. What the engine does in one call of `emu_start` is data: the instructions it executes and the
-- hooks that it calls, in any order, and how it ends. `start` is a function of the rounds of the engine, so
-- its loop ends with them, and says if it would go on. A hook that raises ends its round.
--
-- Not modelled: the unicorn engine and the minidump and PE parsers, which are other projects (registers,
-- memory and what is read of a PE file are parameters); how a minidump is loaded;
-- devices, registry keys, sections, the system calls but those named, most of which only raise
-- `NotImplementedError`, and the structures of Windows but those named. `print` and messages of exceptions
-- are left out.
pub mod Prelude
pub mod Outcome
pub mod Memory
pub mod Pages
pub mod Handles
pub mod Primitives
pub mod Native
pub mod Syscalls
pub mod Registers
pub mod Modules
pub mod Emulator
