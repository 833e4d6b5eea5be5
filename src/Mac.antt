-- ===== src/Mac.antt =====
-- MAC/: the second driver, for a table of MAC addresses.
pub mod Table
pub mod Fops
mod Tests
