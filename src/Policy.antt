-- ===== src/Policy.antt =====
-- policy/: the pure decisions of the reducer on recovery, backups and the disk.
pub mod Disk
pub mod Backup
pub mod Recovery
