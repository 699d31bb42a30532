-- ===== src/File.antt =====
-- The readers of files, framework/core/src/file.
pub mod Ini
