-- ===== src/Sockbuf/Input.antt =====
-- The input side of `sockbuf`: what a program will read is what stands unread in the get area,
-- followed by what the system still delivers.
pub mod Area
pub mod Wait
pub mod Underflow
pub mod Get
