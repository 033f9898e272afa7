-- ===== src/Lib.antt =====
-- Models and theorems of noopsys, a MIPS/Linux emulator in JavaScript that runs a guest's processes
-- in a browser page.
--
-- The program's parts. `src/process.js` holds the physical pages and their allocator, a page table
-- and a cache of translations for each process, and the interpreter of MIPS instructions.
-- `src/syscalls.js` adds the system calls, which work on files and pipes (`src/noopfs.js`), a
-- terminal (`src/tty.js`) and a compressed root file system (`src/squashfs.js`). `src/elf.js` reads
-- executables, and `src/startup.js` gives each process its turns. Every load, store and copy of a
-- process or of the kernel on its behalf goes through `translate`; that calls the allocator when a
-- page is shared after a fork or was never written to.
--
-- Which file models what.
-- - Base: numbers, words, lists, bit operations, and code that throws. `Result` is a value or a
--   `throw` of the program, none of which is caught; `Seal` has the same actions with rules for
--   what they keep.
-- - Constants: `src/constants.js`, in lower case.
-- - Physical: `allocatePage`, `freePage`, `cowDupPage`, `duplicatePage`, `doZeroPage`, `zeroPage` and
--   the state entries. `Physical/Words` has `memory` as bytes with its view `mem32`, and the loops
--   over the words of a page.
-- - Space: the page table, `invalidateHacks`, and in `Space/Translate` `translate` and
--   `translateMiss`; `Space/Accessors` has `read8` to `write32`, `copyToUser` and `stringFromUser`. `Space/Safe` is the
--   invariant of the pages and all page tables, and `Space/Fork` has `initMemory` and the page
--   tables in `cloneFrom`, `Space/Exit` the loop of `freeResources`.
-- - Cpu: the registers and the variables of `runInstLoop`. `Cpu/Decode` takes an instruction word
--   apart; `Cpu/Alu`, `Cpu/Special`, `Cpu/Branch`, `Cpu/Immediate` and `Cpu/Transfer` are its cases,
--   and `Cpu/Loop` the loop. `Cpu/Guest` and its children follow an invariant through them.
-- - Pipe: the two ends of a pipe in `src/noopfs.js`, and the part of `sys_read` that takes its data.
-- - Squash: the readers of `src/squashfs.js`, with a cursor in a buffer as their state:
--   `Squash/Superblock`, `Squash/Table`, `Squash/Block` (the data of a file), `Squash/Inode`,
--   `Squash/Directory`, `Squash/Ids`, and `Squash/Mount`, which calls them all. `Squash/Parse` has
--   rules for readers on bytes that were laid out for them; the layouts are in the modules `Layout`
--   and `Stored`.
-- - Tty: `src/tty.js`. `Tty/Cursor` has the screen that its column is compared with.
-- - MemFile: `memFSBackedFile` of `src/noopfs.js`, and `do_lseek` of `src/syscalls.js`.
-- - Lookup: `getNodeForAbsPath` and `getNodeForPath` of `src/noopfs.js`, on nodes with numbers, and in
--   `Lookup/Open` the `sys_open` of `src/syscalls.js`, which adds nodes.
-- - Signals: `sendSignal`, `handleSignal` and the frames of signals in `src/process.js`, and
--   `sys_rt_sigaction` of `src/syscalls.js`. `Signals/Trampoline` has the page that handlers return
--   to, and `Signals/Returns` runs it.
-- - Processes: `sys_waitpid` and `sys_exit` of `src/syscalls.js`, `exit_notify`, and the scheduler's
--   `myLoop` of `src/startup.js`, with a process's slice, and `freeResources` followed by `closeFds`,
--   as its parameters. `Processes/Clone` has
--   `sys_clone` with `cloneFrom`, on the page tables, descriptors and numbers of the other files.
-- - Mmap: where `sys_mmap_core` of `src/syscalls.js` puts a mapping, and the pages that it reserves.
-- - Descriptors: the table `fds` in `sys_dup`, `sys_dup2`, `sys_pipe`, `sys_close` and `sys_fcntl64` of
--   `src/syscalls.js`, and in `cloneFrom` and `closeFds`.
-- - Elf: `src/elf.js`, and in `Elf/Load` the function `loadElf` of `src/process.js`, on the pages of
--   Space.
-- - Dirents: `sys_getdents_core` of `src/syscalls.js`.
-- - Stat: `sys_fstat` and `sys_fstat64` of `src/syscalls.js`. `Space/Fields` has the structures that
--   calls fill, as words at offsets.
-- - Session: the calls of `src/syscalls.js` about processes, sessions, users and the break, and the
--   registers in which `syscall` of `src/process.js` leaves a call's value.
--
-- Bounds. Searches of the allocators take as many rounds as the tables have entries, and the loops
-- over a page 16384, the words of a page. `run_inst_loop` takes the number of instructions that the
-- scheduler gives. The readers of `src/squashfs.js` take as many rounds as a table has blocks, or
-- as a directory has bytes, a lookup the components of its path and those of eleven links, and the
-- search for a region 32769, and `stringFromUser` one more than there are addresses below 2^31.
-- Numbers are natural numbers, and each place where the program wraps them around to a width says
-- so; an address may be negative, as `lb` and a few others do not wrap it.
--
-- What is not modelled. The system calls and `runFpuInst` are parameters of the interpreter. The
-- message of an error is reduced to a name. `sys_execve`, `sys_poll`, and the calls that stat or
-- change a file by its name are not there, nor most requests of `sys_ioctl`, the trees of
-- `memFSNode` and those of procFS; neither are logging and the front end. What the terminal's
-- streams read is a parameter of `Tty`, and the file of a program's interpreter one of `Elf/Load`.
-- A guest's pages never include the pages that hold page tables and registers, so these are fields
-- of the models and not bytes of `memory`.
pub mod Base
pub mod Constants
pub mod Physical
pub mod Space
pub mod Cpu
pub mod Pipe
pub mod Squash
pub mod Tty
pub mod MemFile
pub mod Lookup
pub mod Signals
pub mod Processes
pub mod Mmap
pub mod Descriptors
pub mod Elf
pub mod Dirents
pub mod Stat
pub mod Session
