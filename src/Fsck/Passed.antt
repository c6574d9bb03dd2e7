-- ===== src/Fsck/Passed.antt =====
-- cmd/bcpfs-perms/fsck/fsck.go: what holds of the filesystem if CheckPermissions() has no complaint.
use bcpfs.Prelude.{ℕ, if◌then◌else◌, ◌≡◌, List, [], ◌∷◌, ◌++◌, true, any, All, some, ◌⊎◌, ok}
use bcpfs.Prelude.Bytes.{Bytes, codes, beq, split, join}
use bcpfs.Prelude.Dict
use bcpfs.Prelude.Dict.{Dict}
use bcpfs.Fsck.{Acl, named_gids, Entry, dir, link, entry_path}
use bcpfs.Fsck.Text.{newline, acl_entries, acl_header, is_other_named_group_entry, check_acl}
use bcpfs.Fsck.Expected.{Error, symlink, View}

-- A symlink that has the target.
abbrev pub LinkStands : View → Bytes × Bytes → Type 0
LinkStands view (path, target) = view.lstat path ≡ symlink target

abbrev LinkEntry : View → Entry → Type 0
LinkEntry view (dir path acl) = Unit
LinkEntry view (link path target) = view.lstat path ≡ symlink target

abbrev AclEntry : View → Entry → Type 0
AclEntry view (dir path acl) = check_acl {E = Error} view.getfacl path acl ≡ ok true
AclEntry view (link path target) = Unit

-- The lines of an ACL, less the entries of groups other than those of the gids.
abbrev pub own_lines : List ℕ → List Bytes → List Bytes
own_lines gids [] = []
own_lines gids (l ∷ lines) =
    if is_other_named_group_entry l gids then own_lines gids lines else l ∷ own_lines gids lines

-- `getfacl` can read the directory, and what it prints, less the entries of other groups, is the path,
-- the header and the entries of the ACL.
abbrev pub HasAcl : View → Bytes → Acl → Type 0
HasAcl view path acl =
    (facl : Bytes) × (view.getfacl path ≡ some facl)
    × ((entries : List Bytes) × (acl_entries {E = Error} acl ≡ ok entries)
        × (join (own_lines (named_gids acl) (split facl newline)) newline
            ≡ codes "# file: " ++ (path ++ (newline ∷ join (acl_header acl ++ entries) newline))))

-- The entry is there: a directory with the ACL, or a symlink with the target.
abbrev pub Stands : View → Entry → Type 0
Stands view (dir path acl) = HasAcl view path acl
Stands view (link path target) = view.lstat path ≡ symlink target

module _ (view : View) where
  -- The path is that of an entry or of an explicit symlink.
  abbrev pub IsKnown : List Entry → Dict Bytes → Bytes → Type 0
  IsKnown entries links p =
      (any (λ e. beq (entry_path e) p) entries ≡ true)
      ⊎ ((target : Bytes) × (Dict.get links p ≡ some target))

  -- `find` lists known paths only.
  abbrev pub OnlyKnown : List Entry → Dict Bytes → Bytes → Type 0
  OnlyKnown entries links subroot =
      (paths : List Bytes) × (view.find_paths subroot ≡ some paths)
      × All (IsKnown entries links) paths
