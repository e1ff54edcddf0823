-- ===== src/Filelike.antt =====
-- `filelikebuf` (socket++/filelikebuf.h, filelikebuf.cpp): the stream buffer over a file or a pipe.
pub mod State
pub mod Io
pub mod Buffer
pub mod Lifecycle
pub mod Alike
pub mod Fresh
pub mod First
