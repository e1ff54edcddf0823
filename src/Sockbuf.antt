-- ===== src/Sockbuf.antt =====
-- The class `sockbuf` (socket++/sockstream.h, socket++/sockstream.cpp).
pub mod State
pub mod Io
pub mod Buffer
pub mod Lifecycle
pub mod Options
pub mod Unmoved
pub mod Session
pub mod Manipulators
pub mod Output
pub mod Input
