-- ===== src/Filesystem/Descriptor/Examples.antt =====
-- File descriptors (kernel/filesystem/FileDescriptor.cpp) on concrete files.
use native.Mathlib.Omega.{arith}
use nusa_os.Common.{◌≡◌, refl, true, ok}
use nusa_os.Filesystem.Metadata.{Metadata, exists}
use nusa_os.Filesystem.Descriptor.{Descriptor, write}
use nusa_os.Filesystem.Descriptor.Position.{write-appends_at_end}

-- Opened to read and append, at position 5.
abbrev descriptor : Descriptor
descriptor = record {
  readable = true;
  writable = true;
  can_seek = true;
  append = true;
  options = 10;
  seek = 5;
}

-- A file of 100 bytes.
abbrev metadata : Metadata
metadata = record { uid = 0; gid = 0; mode = 33188; size = 100; inode_id = 12 }

write-appends_at_end_example :
    (fd' : Descriptor) × (write descriptor metadata (λ _. 20) ≡ ok (20, fd')) × (fd'.seek ≡ 120)
unfolding exists
write-appends_at_end_example =
    write-appends_at_end descriptor metadata (λ _. 20) refl refl refl refl (omega arith)
      (omega arith) (omega arith)
