-- ===== src/Libc.antt =====
-- What the programs use of the C library: numbers to text and back (printf's %d, strtol), strings.
-- A C string is the list of its bytes without the NUL.
pub mod Decimal
pub mod Strtol
pub mod Str
pub mod Shown
