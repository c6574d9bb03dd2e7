-- ===== src/Fsck/Expected.antt =====
-- cmd/bcpfs-perms/fsck/fsck.go: `CheckPermissions()`, over what it reads from the filesystem.
use bcpfs.Fsck.Text.{check_acls}
use bcpfs.Prelude.{
  ok, err, Outcome, Option, ◌>>=◌, List, [], ◌∷◌, ◌++◌, Bool, true, false, any, ◌&&◌, none, some,
  if◌then◌else◌,
}
use bcpfs.Prelude.Bytes.{Bytes, codes, beq}
use bcpfs.Prelude.Dict
use bcpfs.Prelude.Dict.{Dict}
use bcpfs.SlashPath.{path_join}
use bcpfs.Config.{Root, Symlink}
use bcpfs.Org.{Service, OrgUnit, Organization}
use bcpfs.Fsck.{
  simple, Entry, dir, link, entry_path, Tree, service_dirs_list, service_org_unit_dirs_list,
  org_unit_dirs_list, org_unit_service_links_list, org_unit_subdirs_list,
}

-- The toplevel directories, which belong to root.
unfoldable pub toplevel : Bytes → Entry
toplevel path = dir path (simple (codes "rwx") (codes "r-x") (codes "r-x"))

-- `entries` of CheckPermissions(); `root` is the absolute root dir.
unfoldable pub expected_entries :
    Bytes → Root → Organization → (Service → OrgUnit → Bool) → List Entry
unfolding toplevel
expected_entries root cfg org accept =
    let service_root = path_join (root ∷ cfg.service_dir ∷ []) in
    let org_unit_root = path_join (root ∷ cfg.org_unit_dir ∷ []) in
    let s_tree : Tree = record {
      root = service_root;
      service_dir = cfg.service_dir;
      services = org.services;
      org_units = org.org_units;
      accept = accept;
    } in
    let ou_tree = record s_tree { root = org_unit_root } in
    (toplevel root ∷ toplevel service_root ∷ toplevel org_unit_root ∷ [])
    ++ service_dirs_list service_root org.services
    ++ service_org_unit_dirs_list s_tree org.services
    ++ org_unit_dirs_list org_unit_root org.org_units
    ++ org_unit_service_links_list ou_tree org.org_units
    ++ org_unit_subdirs_list org_unit_root org.org_units

-- `explicitSymlinks`
unfoldable pub explicit_symlinks : Bytes → List Symlink → Dict Bytes → Dict Bytes
explicit_symlinks root [] m = m
explicit_symlinks root (l ∷ ls) m =
    explicit_symlinks root ls (Dict.put m (path_join (root ∷ l.path ∷ [])) l.target)

-- The answers that stop the checks: `find` fails, or `os.Readlink()` fails on a symlink.
pub data Error : Type 0 where
  find_failed readlink_failed : Bytes → Error

-- The loop of CheckNoUnexpected() over the paths that `find` lists.
unfoldable pub only_expected : List Bytes → List Entry → Dict Bytes → Bool
only_expected [] entries symlinks = true
only_expected (p ∷ paths) entries symlinks =
    let rest = only_expected paths entries symlinks in
    if any (λ e. beq (entry_path e) p) entries
    then rest
    else elim (Dict.get symlinks p) [ some _ ↦ rest | none ↦ false ]

-- What `os.Lstat()` and `os.Readlink()` say of a path.
pub data Found : Type 0 where
  missing : Found
  other : Found
  symlink : Bytes → Found
  unreadable : Found

-- checkSymlink(dest, path): whether there is no reason to complain.
unfoldable pub check_symlink : Bytes → Bytes → Found → Outcome Error Bool
check_symlink dest path missing = ok false
check_symlink dest path other = ok false
check_symlink dest path (symlink actual) = ok (beq actual dest)
check_symlink dest path unreadable = err (readlink_failed path)

-- CheckSymlinks(entries)
unfoldable pub check_symlinks : (Bytes → Found) → List Entry → Outcome Error Bool
unfolding check_symlink
check_symlinks lstat [] = ok true
check_symlinks lstat (dir path acl ∷ entries) = check_symlinks lstat entries
check_symlinks lstat (link path target ∷ entries) = do
  good ← check_symlink target path (lstat path)
  rest ← check_symlinks lstat entries
  ok (good && rest)

-- CheckExplicitSymlinks(symlinks)
unfoldable pub check_explicit_symlinks : (Bytes → Found) → Dict Bytes → Outcome Error Bool
unfolding check_symlink
check_explicit_symlinks lstat [] = ok true
check_explicit_symlinks lstat ((path, target) ∷ symlinks) = do
  good ← check_symlink target path (lstat path)
  rest ← check_explicit_symlinks lstat symlinks
  ok (good && rest)

-- What the checks see of the filesystem; `none` is an error.
pub record View : Type 0 where
  pub find_paths : Bytes → Option (List Bytes)
  pub lstat : Bytes → Found
  pub getfacl : Bytes → Option Bytes

-- CheckNoUnexpected(subroot, entries, symlinks)
unfoldable pub check_no_unexpected : View → Bytes → List Entry → Dict Bytes → Outcome Error Bool
unfolding only_expected
check_no_unexpected view subroot entries symlinks = elim (view.find_paths subroot) [
  | none ↦ err (find_failed subroot)
  | some paths ↦ ok (only_expected paths entries symlinks)
]

-- `failures = append(failures, name)`
abbrev pub failure : Bool → Bytes → List Bytes
failure good name = if good then [] else name ∷ []

-- CheckPermissions(cfg, org, filter): the names of the checks that fail.
unfoldable pub check_permissions :
    View → Bytes → Root → Organization → (Service → OrgUnit → Bool) → Outcome Error (List Bytes)
unfolding check_no_unexpected check_symlinks check_explicit_symlinks
check_permissions view root cfg org accept = do
  let entries = expected_entries root cfg org accept
  let symlinks = explicit_symlinks root cfg.symlinks []
  srv ← check_no_unexpected view (path_join (root ∷ cfg.service_dir ∷ [])) entries symlinks
  ou ← check_no_unexpected view (path_join (root ∷ cfg.org_unit_dir ∷ [])) entries symlinks
  links ← check_symlinks view.lstat entries
  explicit ← check_explicit_symlinks view.lstat symlinks
  acls ← check_acls view.getfacl entries
  ok (
      failure srv (codes "no-unexpected-srv")
      ++ (failure ou (codes "no-unexpected-ou")
          ++ (failure links (codes "symlinks")
              ++ (failure explicit (codes "explicit-symlinks") ++ failure acls (codes "acls")))))
