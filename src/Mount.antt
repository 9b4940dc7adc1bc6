-- ===== src/Mount.antt =====
-- src/mount: mount options.
pub mod Options
