-- ===== src/Kernel.antt =====
-- The kernel: system calls on the state of the processes.
pub mod Result
pub mod Fallible
pub mod Pages
pub mod User
pub mod Vars
pub mod Queue
pub mod Env
pub mod Cwd
pub mod Ids
