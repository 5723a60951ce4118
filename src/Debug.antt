-- ===== src/Debug.antt =====
-- debug/debug.go: the filter of goroutine dumps (Filter), and the print of sizes (Sizes).
pub mod Filter
pub mod Sizes
mod Tests
