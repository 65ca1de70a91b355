-- ===== src/Lib.antt =====
-- A teaching operating system for MIPS with a shell: the kernel (kern/), a library that the kernel
-- and the programs share (lib/), a file server (fs/), and user programs with their library (user/).
--
-- The parts modelled here, with the files of this library:
--   Base: tests on numbers, lists, texts. Memory: a memory of bytes, strings in it.
--   Strings: lib/string.c. Each function is named as there. Strings/Copy, Strings/Words and
--   Strings/Scan hold what the copying, the word-wise and the reading functions do.
--   Path: resolve_path of user/lib/path.c, and sh_resolve_path for the copy in user/sh.c. Path/Split
--   cuts a path into components, Path/Up and Path/Walk relate the loop to a walk over components,
--   Path/Resolve states it of the functions.
--   Shell: user/sh.c. Shell/Chars: the character classes, peek_first_word and my_strstr. Shell/Line:
--   getline, and what main does to a line first. Shell/Chain: its loop over the commands of the
--   line, with a meaning of such lines. Shell/Backticks: handle_backticks. Shell/Token: _gettoken and
--   gettoken.
--   Shell/History and Shell/Editor: the history ring and readline_advanced of user/lib/shellio.c, with
--   the editor's line as a zipper.
--   Pipe: user/lib/pipe.c. Pipe/Fifo is the view as a queue, Pipe/Transfer states what calls do.
--   Kernel/User: is_illegal_va and is_illegal_va_range of kern/syscall_all.c, and the loop with which
--   the calls copy a string from user memory.
--   Kernel/Vars: the calls on shell variables of kern/syscall_all.c, with find_var, and the loop of
--   env_alloc (kern/env.c) that hands exported variables to a child. Kernel/Vars/Lookup is the view
--   of the table as a map.
--   Kernel/Cwd: sys_chdir and sys_getcwd. Kernel/Ids: asid_alloc, asid_free and mkenvid of kern/env.c.
--   Kernel/Pages: kern/pmap.c: page_init, page_alloc, page_free, page_decref, pgdir_walk, page_lookup,
--   page_insert and page_remove on page tables in physical memory. Kernel/Pages/Space is the view of an
--   address space with the invariant of the counts, Walk, Place, Insert, Remove and Alloc hold what
--   the operations do to it, Digits the bits of an entry, Count counting; Kernel/Pages/Calls models
--   sys_mem_alloc, sys_mem_map and sys_mem_unmap. Kernel/Fallible: results of operations on a state.
--   Fs: fs/fs.c. Fs/Disk: the bitmap and the cache of blocks (Bits, Cache and Sync hold what the
--   operations do). Fs/Blocks: the block map of a file; Map is the view as a function, Fill, Clear,
--   Truncate, Total and Outcome state what finding, filling and clearing a slot and cutting a file do.
--   Fs/Dirs: directories, paths and file_open, file_create, file_remove and file_close. Fs/Dirs/Walk
--   relates walk_path to a walk over names, Fs/Dirs/Reached says where one arrives, Fs/Dirs/Names
--   what is found and made, Packed that a name is read back from the words of its entry.
--   Wait: user/lib/wait.c. Print: print_char and print_str of lib/print.c. Print/Num: print_num, with
--   its padding and reversal in Print/Num/Turn and the value of the digits in Print/Num/Value.
--   Fds: user/lib/fd.c, descriptors over devices as an interface; Fds/Stream says what readn reads
--   from a device that holds bytes, Fds/File that a file is one (file_read of user/lib/file.c).
--   Kernel/Queue: the tail queue macros of include/queue.h as operations on a list.
--   Kernel/Env: envid2env, env_run, env_free and env_destroy of kern/env.c, schedule of kern/sched.c,
--   and the calls of kern/syscall_all.c that change what runs. Its children hold the invariant of the
--   run queue (Invariant, Calls, Message) and round robin (Schedule).
--
-- How they interact: the calls of the kernel run for curenv; those that block or exit end in
-- schedule. The shell resolves paths against the directory that the kernel keeps, and names its
-- variables through the calls of Kernel/Vars. Texts in Path stand for strings that lib/string.c
-- reads and writes, as the theorems of Strings describe. The calls of Kernel/Pages take the process
-- from envid2env of Kernel/Env.
--
-- Integers: addresses are numbers that do not wrap at the end of the address space, except where the
-- source tests for that (is_illegal_va_range, modulo 2 ^ 32); counters are kept modulo 2 ^ 32.
--
-- Fuel: loops that run to a zero byte, over the components of a path, the commands or tokens of a
-- line, or the keys of the editor take fuel. A fuel larger than the length of the text is enough, and
-- the theorems say so; out_of_fuel or none is the answer otherwise. The loops of a pipe take fuel for
-- each byte and each wait: they can wait for ever. Fuel larger than a number prints it, and
-- readn takes fuel for each byte. All other loops are structural.
--
-- Parameters: sharing a page (page_lookup and page_insert, which Kernel/Pages models on a state of its
-- own) is the argument share of sys_ipc_try_send. In Fs, mem_alloc is the answer of the kernel to the
-- server's request for a page, and the directory of each process is the function env_pgdir.
-- What a command does (handle_backticks, runcmd, fork, wait, history) is the record Commands that
-- the shell's loop takes; run_and_capture_output is an argument of handle_backticks. What other
-- processes do to a pipe while one waits, and the answers of _pipe_is_closed, are functions of the
-- number of yields; a call is taken not to be interrupted between them, though the timer may do so.
--
-- Not modelled: saved registers, the release of an address space in env_free, other processes that a
-- timer interrupt lets run within a call of the library, the TLB, allocation of processes, the start
-- and the requests of the file server, redirection and the built-in commands of the shell, its screen
-- and history file, the format strings of lib/print.c (vprintfmt), dup, fstat and stat of
-- user/lib/fd.c, the loader, devices and start-up code. The fixed buffers of the shell are texts of any
-- length, except where the code tests for room.
pub mod Base
pub mod Memory
pub mod Strings
pub mod Path
pub mod Kernel
pub mod Shell
pub mod Pipe
pub mod Print
pub mod Wait
pub mod Fs
pub mod Fds
