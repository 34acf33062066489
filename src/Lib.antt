-- ===== src/Lib.antt =====
-- The kernel's tables and buffers, modelled as pure functions on explicit state.
--
-- The kernel runs on one CPU. A process enters it by a system call or a trap; it works on tables of
-- fixed size (pages, processes, open files), on pipes and on a file system, and gives the CPU up in
-- `sleep`, `yield` and `exit`. Pages of kalloc.c become kernel stacks and pipes; descriptors point at
-- files, which point at pipes and inodes; processes sleep on addresses of these objects.
--
-- Files, and what each models:
--   Common       helpers: arrays as lists (Lists), linear scans (Scan), copies of bytes (Bytes), machine
--                words (Words, inc/mmu.h and inc/memlayout.h), comparisons and results of code that may
--                panic (Compare)
--   Kalloc       kernel/kalloc.c: `Kmem` holds its globals, one function per function of the file
--                Kalloc/Invariant, Kalloc/Alloc (kalloc), Kalloc/Free (kfree, kincref)
--   Pipe         kernel/pipe.c: `Pipe` is struct pipe
--                Pipe/Ring (the bytes held), Pipe/Transfer (one call), Pipe/Stream (many calls)
--   File         kernel/file.c and the descriptors of kernel/sysfile.c: `Files` is ftable and every ofile
--                File/Refs, File/Descriptors, File/Fork, File/Calls (dup, close, open, exit)
--   Proc         kernel/proc.c: `Ptable` is ptable, nextpid and initproc; slots stand for pointers
--                Proc/Invariant, Proc/Change, Proc/Steps, Proc/Family (fork), Proc/Embryo (the steps of
--                fork), Proc/Wait, Proc/Rounds and Proc/Exit, Proc/Slots, Proc/Cpu (who runs),
--                Proc/System (all operations in any order)
--   Spinlock     kernel/spinlock.c: `Machine` is the interrupt flag, a CPU's fields and the locks
--                Spinlock/Nesting
--   CString      kernel/string.c on a memory of bytes
--                CString/Move (memmove), CString/Order (memcmp, strncmp), CString/Copy (safestrcpy)
--   Bio          kernel/bio.c over kernel/memide.c: `Cache` is the list of buffers, the disk and the
--                globals of the crash test
--                Bio/Lookup (bget), Bio/Coherence, Bio/Calls (bread, bwrite), Bio/Release (brelse)
--   Vspace       kernel/vspace.c: `Region` is struct vregion with its list of pages of entries
--                Vspace/Lookup (va2vpage_info), Vspace/Mapping (vregionaddmap), Vspace/Copy (vspacecopy;
--                Copy/Owners, Copy/Pages, Copy/Spaces, Copy/Failure), Vspace/Write (the code that fills
--                pages), Vspace/Store (vspacewritetova), Vspace/Heap (sys_sbrk of kernel/sysproc.c)
--   Syscall      kernel/syscall.c: the arguments of system calls and the dispatch
--                Syscall/Pointers (argptr), Syscall/Strings (argstr, fetchstr)
--   Fs           kernel/fs.c: readi, writei and the inode file (Fs), the cache of inodes (Fs/Inodes),
--                directories and paths (Fs/Names)
--                Fs/Reads, Fs/Writes, Fs/Updates (writei), Fs/Cached (iget, irelease), Fs/Paths (skipelem), Fs/Walks (namex)
--   Guest        kernel/guest.c: `System` is a guest's map of pages, its applications and the page tables
--                Guest/Maps (sys_gaddmap), Guest/Unmaps (sys_gremovemap, sys_gupdate_flags), Guest/Queue
--   PageTable    kernel/x86_64vm.c: `Tables` is the entries of each page that holds a table
--                PageTable/Frames (the map that they stand for), PageTable/Writes, PageTable/Walks
--                (walkpml4), PageTable/Maps (mappages), PageTable/Lookups (uva2ka)
--   Console      kernel/console.c: `Input` is the line buffer; the numbers that are printed
--                Console/Slices, Console/Views, Console/Lines (consoleintr), Console/Reads (consoleread),
--                Console/Numbers (printint), Console/Format (cprintf)
--   Shell        user/sh.c: the tokens of a line (Shell), the parser (Shell/Parse), the loop of main with
--                sys_app_syscall of kernel/guest.c and guest_init_app of user/guest_os.c (Shell/Message)
--                Shell/Tokens, Shell/Bounds and Shell/Answers (the parser ends), Shell/Spelling (the
--                grammar), Shell/Words, Shell/Loops and Shell/RoundTrip
--   Grep         user/grep.c: the matcher; Grep/Meaning says what a pattern means
-- A Tests module holds the witnesses of the module beside it.
--
-- Steps. A function that takes its spinlock at the start and releases it at the end is one step: with
-- one CPU and interrupts off nothing runs between. A function that sleeps is one step up to the
-- sleep, and says in its result how it stopped. fork, which holds ptable.lock only at its ends, is a chain
-- of steps in Proc/System. A panic is the result `panic`.
--
-- Numbers are natural; words wrap by `% 2 ^ 32` and `% 2 ^ 64`, and signed tests read the bit pattern.
--
-- Loops are by recursion on the list or on the number of rounds. `freerange` has fuel: one round for
-- each page between its two addresses, and one that stops; so have the loops of the address spaces.
-- `vspacewritetova` has any number of rounds, and says when it has not ended by then.
--
-- The parser of the shell has four calls of a parsing function for each character, and five more, which
-- its theorem shows to be enough. The console's buffer of digits is the fuel of the loop that fills it.
--
-- Files are read and written on a disk of blocks, which stands for what bread answers. The loops of fs.c
-- have one round for each byte, directory entry or character of the path.
--
-- The tables of x86_64vm.c take their pages from a list of what kalloc will give.
--
-- Parameters stand for other code: the functions of devices are the argument `devsw`; whether
-- kalloc gave a stack and whether vspacecopy succeeded are arguments of `fork`; `killed` is an
-- argument where a function reads it from the caller's slot; `rebuilt` says whether vspaceinvalidate returns
-- in sys_sbrk, `tables` whether there is memory for page tables in sys_gaddmap, and `npages` is the variable
-- of kalloc.c. vspacecopy is modelled up to its call of vspaceinvalidate.
--
-- Not modelled: boot and assembly, device registers, firmware tables, the loading of page tables and the IDE
-- disk, which are input and output; program loading, the rest of the guest calls, and the other user
-- programs. runcmd of the shell, which main does not call, and nulterminate, which makes the texts between
-- two pointers strings, are left out too.
-- pipealloc, fork_guest, memset, strlen, vspaceloadcode, cow_vspacecopy, findBlocks, createInode and the
-- copies of user disks are left out of the parts above.
pub mod Bio
pub mod CString
pub mod Common
pub mod Console
pub mod File
pub mod Fs
pub mod Grep
pub mod Guest
pub mod Kalloc
pub mod PageTable
pub mod Pipe
pub mod Proc
pub mod Shell
pub mod Spinlock
pub mod Syscall
pub mod Vspace
