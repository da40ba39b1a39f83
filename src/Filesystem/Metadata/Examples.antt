-- ===== src/Filesystem/Metadata/Examples.antt =====
-- Permissions (kernel/filesystem/InodeMetadata.cpp) of a concrete inode and user.
use mathlib.Core.Logic.{◌↔◌}
use nusa_os.Common.{◌≡◌, true, [], ◌∷◌}
use nusa_os.Filesystem.Metadata.{Metadata, User, can_read, can_write, can_execute}
use nusa_os.Filesystem.Metadata.Access.{Granted, permissions-Granted}

-- rw-r----- of user 7 and group 3
abbrev inode : Metadata
inode = record { uid = 7; gid = 3; mode = 33184; size = 10; inode_id = 12 }

abbrev user : User
user = record { egid = 1; euid = 9; groups = 2 ∷ 3 ∷ [] }

permissions-Granted_example :
    ((can_read inode user ≡ true) ↔ Granted 4 inode user)
    × ((can_write inode user ≡ true) ↔ Granted 2 inode user)
    × ((can_execute inode user ≡ true) ↔ Granted 1 inode user)
permissions-Granted_example = permissions-Granted inode user
