-- ===== src/Filesystem/Metadata.antt =====
-- kernel/filesystem/InodeMetadata.cpp, and the parts of kernel/User.cpp that it asks: what an inode
-- is, and who may do what with it.
pub mod Access
mod Examples
use nusa_os.Common.{
  ℕ, ◌%◌, ◌/◌, Bool, true, false, not, ◌&&◌, ◌||◌, List, [], ◌∷◌, ◌==◌, if◌then◌else◌, has,
}

pub record Metadata : Type 0 where
  pub uid : ℕ
  pub gid : ℕ
  pub mode : ℕ
  pub size : ℕ
  pub inode_id : ℕ

-- `{}`
abbrev pub no_metadata : Metadata
no_metadata = record { uid = 0; gid = 0; mode = 0; size = 0; inode_id = 0 }

pub record User : Type 0 where
  pub egid : ℕ
  pub euid : ℕ
  pub groups : List ℕ

-- `mode & 0xF000u`
unfoldable pub kind : Metadata → ℕ
kind m = m.mode / 4096 % 16

unfoldable pub is_directory : Metadata → Bool
unfolding kind
is_directory m = kind m == 4

unfoldable pub is_simple_file : Metadata → Bool
unfolding kind
is_simple_file m = kind m == 8

unfoldable pub is_symlink : Metadata → Bool
unfolding kind
is_symlink m = kind m == 10

unfoldable pub is_device : Metadata → Bool
unfolding kind
is_device m = (kind m == 2) || (kind m == 6)

unfoldable pub exists : Metadata → Bool
exists m = not (m.inode_id == 0)

abbrev pub is_among : ℕ → List ℕ → Bool
is_among grp [] = false
is_among grp (g ∷ groups) = if g == grp then true else is_among grp groups

unfoldable pub in_group : User → ℕ → Bool
in_group user grp = if grp == user.egid then true else is_among grp user.groups

unfoldable pub can_override_permissions : User → Bool
can_override_permissions user = user.euid == 0

unfoldable pub can_write : Metadata → User → Bool
unfolding can_override_permissions has in_group
can_write m user =
    can_override_permissions user
    || has m.mode 2
    || (has m.mode 128 && (user.euid == m.uid))
    || (has m.mode 16 && in_group user m.gid)

unfoldable pub can_execute : Metadata → User → Bool
unfolding can_override_permissions has in_group
can_execute m user =
    can_override_permissions user
    || has m.mode 1
    || (has m.mode 64 && (user.euid == m.uid))
    || (has m.mode 8 && in_group user m.gid)

unfoldable pub can_read : Metadata → User → Bool
unfolding can_override_permissions has in_group
can_read m user =
    can_override_permissions user
    || has m.mode 4
    || (has m.mode 256 && (user.euid == m.uid))
    || (has m.mode 32 && in_group user m.gid)
