-- ===== src/Sockbuf/Output.antt =====
-- The output side of `sockbuf`: what a program has written is what the system has accepted, followed
-- by what still stands in the put area.
pub mod Transfer
pub mod Area
pub mod Wait
pub mod Flush
pub mod Put
pub mod Char
pub mod Append
pub mod Ending
