-- ===== src/Paging.antt =====
-- sys/paging.c and include/paging.h.
pub mod Frames
pub mod Page
pub mod Directory
pub mod Clone
