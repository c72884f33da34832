-- ===== src/Extract.antt =====
-- Archives that are unpacked (vcsutils/utils.go), and the paths of their entries.
pub mod Path
pub mod Io
pub mod Copy
pub mod Tar
pub mod Zip
