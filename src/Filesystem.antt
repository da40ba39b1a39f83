-- ===== src/Filesystem.antt =====
-- kernel/filesystem: pipes, file descriptors, and the permissions of inodes.
pub mod Pipe
pub mod Metadata
pub mod Descriptor
