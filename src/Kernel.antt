-- ===== src/Kernel.antt =====
-- The system calls that this kernel adds to xv6.
pub mod Names
pub mod Kalloc
pub mod Bio
pub mod Pipe
pub mod Strings
pub mod Log
pub mod Mutex
pub mod Msg
pub mod Shm
pub mod Proc
