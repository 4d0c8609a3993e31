-- ===== src/FileServer.antt =====
-- The file server of G16_Project_3.
pub mod Rle
pub mod Path
pub mod LogTail
pub mod Resp
pub mod Locks
pub mod Reply
pub mod Disk
pub mod Logger
pub mod Locked
pub mod Ops
pub mod Transfers
pub mod Reports
pub mod Dispatch
