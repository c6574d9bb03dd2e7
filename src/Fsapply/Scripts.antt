-- ===== src/Fsapply/Scripts.antt =====
-- cmd/bcpfs-perms/fsapply/apply-sh.go: the scripts.
use bcpfs.Prelude.{ℕ, List, [], ◌∷◌, ◌++◌, Option, none, some, if◌then◌else◌}
use bcpfs.Prelude.Bytes.{Bytes, codes}
use bcpfs.Prelude.Decimal.{decimal}
use bcpfs.Org.{
  AccessPolicy, is_per_service, is_all_org_units, DirPolicy, group_policy, owner_policy,
  manager_policy,
}
use bcpfs.Fsapply.{
  Run, going, ◌>>=◌, Command, Script, System, mkdir_missing, chown, chmod_sgid, setfacl_modify,
  setfacl_remove, chgrp_below, chmod_sgid_below, setfacl_dirs_below, setfacl_files_below,
}

-- `group:{{ .Gid }}:r-x` and its like.
unfoldable pub entry : Bytes → ℕ → Bytes → Bytes
entry tag gid perms = tag ++ (decimal gid ++ perms)

abbrev pub group : Bytes
group = codes "group:"

abbrev pub default_group : Bytes
default_group = codes "default:group:"

-- `chown root:{{ .Gid }}`
unfoldable pub chown_root : ℕ → Bytes → Command
chown_root gid path = chown (codes "root:" ++ decimal gid) path

-- The start of a script: without and with the SGID bit.
abbrev pub prepare : Bytes → ℕ → Script
prepare path gid = mkdir_missing path ∷ chown_root gid path ∷ []

abbrev pub prepare_sgid : Bytes → ℕ → Script
prepare_sgid path gid = mkdir_missing path ∷ chown_root gid path ∷ chmod_sgid path ∷ []

unfoldable pub ensure_toplevel_sh : Bytes → Script
ensure_toplevel_sh path =
    mkdir_missing path
    ∷ chown (codes "root:root") path
    ∷ setfacl_modify path (codes "user::rwx" ∷ codes "group::r-x" ∷ codes "other::r-x" ∷ [])
    ∷ []

unfoldable pub ensure_service_sh : Bytes → ℕ → ℕ → ℕ → Script
unfolding entry chown_root
ensure_service_sh path gid ops_gid super_gid =
    prepare path gid
    ++ setfacl_modify path (
        codes "user::rwx"
        ∷ codes "group::---"
        ∷ entry group gid (codes ":r-x")
        ∷ entry group ops_gid (codes ":r-x")
        ∷ codes "mask::r-x"
        ∷ codes "other::---"
        ∷ codes "default:user::rwx"
        ∷ codes "default:group::---"
        ∷ entry default_group gid (codes ":r-x")
        ∷ entry default_group ops_gid (codes ":r-x")
        ∷ codes "default:mask::r-x"
        ∷ codes "default:other::---"
        ∷ [])
      ∷ setfacl_remove path (entry group super_gid [] ∷ entry default_group super_gid [] ∷ [])
      ∷ []

unfoldable pub ensure_service_all_org_units_sh : Bytes → ℕ → ℕ → ℕ → Script
unfolding entry chown_root
ensure_service_all_org_units_sh path gid ops_gid super_gid =
    prepare path gid
    ++ setfacl_modify path (
        codes "user::rwx"
        ∷ codes "group::---"
        ∷ entry group super_gid (codes ":r-x")
        ∷ codes "mask::r-x"
        ∷ codes "other::---"
        ∷ codes "default:user::rwx"
        ∷ codes "default:group::---"
        ∷ entry default_group super_gid (codes ":r-x")
        ∷ codes "default:mask::r-x"
        ∷ codes "default:other::---"
        ∷ [])
      ∷ setfacl_remove path (
          entry group gid []
          ∷ entry group ops_gid []
          ∷ entry default_group gid []
          ∷ entry default_group ops_gid []
          ∷ [])
      ∷ []

-- The entries of ensureSOUSh, and of `dirAcl` of ensureSOURecursiveSh.
unfoldable pub sou_entries : ℕ → ℕ → List Bytes
unfolding entry
sou_entries gid ops_gid =
    codes "user::rwx"
    ∷ codes "group::---"
    ∷ entry group gid (codes ":rwx")
    ∷ entry group ops_gid (codes ":rwx")
    ∷ codes "mask::rwx"
    ∷ codes "other::---"
    ∷ codes "default:user::rwx"
    ∷ codes "default:group::---"
    ∷ entry default_group gid (codes ":rwx")
    ∷ entry default_group ops_gid (codes ":rwx")
    ∷ codes "default:mask::rwx"
    ∷ codes "default:other::---"
    ∷ []

unfoldable pub ensure_sou_sh : Bytes → ℕ → ℕ → ℕ → ℕ → Script
unfolding sou_entries entry chown_root
ensure_sou_sh path gid srv_gid ops_gid super_gid =
    prepare_sgid path gid
    ++ setfacl_modify path (sou_entries gid ops_gid)
      ∷ setfacl_remove path (
          entry group srv_gid (codes ":")
          ∷ entry group super_gid (codes ":")
          ∷ entry default_group srv_gid (codes ":")
          ∷ entry default_group super_gid (codes ":")
          ∷ [])
      ∷ []

-- `findXargsIncSh`
unfoldable pub find_xargs_inc_sh : Bytes → ℕ → List Bytes → List Bytes → Script
find_xargs_inc_sh path gid dir_acl file_acl =
    chgrp_below path gid
    ∷ chmod_sgid_below path
    ∷ setfacl_dirs_below path dir_acl
    ∷ setfacl_files_below path file_acl
    ∷ []

unfoldable pub ensure_sou_recursive_sh : Bytes → ℕ → ℕ → Script
unfolding sou_entries entry find_xargs_inc_sh
ensure_sou_recursive_sh path gid ops_gid = find_xargs_inc_sh path gid (sou_entries gid ops_gid) (
    codes "user::rw-"
    ∷ codes "group::---"
    ∷ entry group gid (codes ":rwx")
    ∷ entry group ops_gid (codes ":rwx")
    ∷ codes "mask::rw-"
    ∷ codes "other::---"
    ∷ [])

-- The entries of the directories of an org unit: the permissions of the group and of the mask, and
-- those of the default entries.
unfoldable pub org_unit_entries : ℕ → Bytes → Bytes → List Bytes
unfolding entry
org_unit_entries gid perms dflt =
    codes "user::rwx"
    ∷ codes "group::---"
    ∷ entry group gid (codes ":" ++ perms)
    ∷ (codes "mask::" ++ perms)
    ∷ codes "other::---"
    ∷ codes "default:user::rwx"
    ∷ codes "default:group::---"
    ∷ entry default_group gid (codes ":" ++ dflt)
    ∷ (codes "default:mask::" ++ dflt)
    ∷ codes "default:other::---"
    ∷ []

-- ensureOrgUnitSh, and the scripts for the subdirs, which differ in the permissions.
unfoldable pub org_unit_script : Bytes → ℕ → Bytes → Bytes → Script
unfolding org_unit_entries chown_root
org_unit_script path gid perms dflt =
    prepare_sgid path gid ++ setfacl_modify path (org_unit_entries gid perms dflt) ∷ []

unfoldable pub ensure_org_unit_sh : Bytes → ℕ → Script
unfolding org_unit_script
ensure_org_unit_sh path gid = org_unit_script path gid (codes "r-x") (codes "r-x")

abbrev ensure_org_unit_group_subdir_sh : Bytes → ℕ → Script
ensure_org_unit_group_subdir_sh path gid = org_unit_script path gid (codes "rwx") (codes "rwx")

abbrev ensure_org_unit_owner_subdir_sh : Bytes → ℕ → Script
ensure_org_unit_owner_subdir_sh path gid = org_unit_script path gid (codes "rwx") (codes "r-x")

abbrev ensure_org_unit_manager_subdir_sh : Bytes → ℕ → Script
ensure_org_unit_manager_subdir_sh path gid = org_unit_script path gid (codes "r-x") (codes "r-x")

-- The script that ensureOrgUnitSubdir() chooses.
unfoldable pub ensure_org_unit_subdir_sh : Bytes → ℕ → DirPolicy → Script
unfolding org_unit_script
ensure_org_unit_subdir_sh path gid group_policy = ensure_org_unit_group_subdir_sh path gid
ensure_org_unit_subdir_sh path gid owner_policy = ensure_org_unit_owner_subdir_sh path gid
ensure_org_unit_subdir_sh path gid manager_policy = ensure_org_unit_manager_subdir_sh path gid

-- The recursive scripts: permissions for directories, and the masks of files.
unfoldable pub org_unit_recursive_script : Bytes → ℕ → Bytes → Bytes → Script
unfolding org_unit_entries entry find_xargs_inc_sh
org_unit_recursive_script path gid perms file_mask =
    find_xargs_inc_sh path gid (org_unit_entries gid perms perms) (
      codes "user::rw-"
      ∷ codes "group::---"
      ∷ entry group gid (codes ":" ++ perms)
      ∷ (codes "mask::" ++ file_mask)
      ∷ codes "other::---"
      ∷ [])

abbrev ensure_org_unit_group_subdir_recursive_sh : Bytes → ℕ → Script
ensure_org_unit_group_subdir_recursive_sh path gid =
    org_unit_recursive_script path gid (codes "rwx") (codes "rw-")

abbrev ensure_org_unit_owner_subdir_recursive_sh : Bytes → ℕ → Script
ensure_org_unit_owner_subdir_recursive_sh path gid =
    org_unit_recursive_script path gid (codes "r-x") (codes "r--")

abbrev ensure_org_unit_manager_subdir_recursive_sh : Bytes → ℕ → Script
ensure_org_unit_manager_subdir_recursive_sh path gid =
    org_unit_recursive_script path gid (codes "r-x") (codes "r--")

-- The script that ensureOrgUnitSubdirRecursive() chooses.
unfoldable pub ensure_org_unit_subdir_recursive_sh : Bytes → ℕ → DirPolicy → Script
unfolding org_unit_recursive_script
ensure_org_unit_subdir_recursive_sh path gid group_policy =
    ensure_org_unit_group_subdir_recursive_sh path gid
ensure_org_unit_subdir_recursive_sh path gid owner_policy =
    ensure_org_unit_owner_subdir_recursive_sh path gid
ensure_org_unit_subdir_recursive_sh path gid manager_policy =
    ensure_org_unit_manager_subdir_recursive_sh path gid

-- The script that ensureServiceDir() chooses; `none` is a panic, for another access policy.
unfoldable pub ensure_service_dir_sh : Bytes → ℕ → ℕ → ℕ → AccessPolicy → Option Script
unfolding is_all_org_units is_per_service
ensure_service_dir_sh path gid ops_gid super_gid access =
    if is_all_org_units access
    then some (ensure_service_all_org_units_sh path gid ops_gid super_gid)
    else if is_per_service access
    then some (ensure_service_sh path gid ops_gid super_gid)
    else none

-- runBash(sh, data)
unfoldable pub run_bash : {E S : Type 0} → System E S → Script → S → Run E S
run_bash sys [] s = going s
run_bash sys (c ∷ script) s = do s' ← sys.exec c s; run_bash sys script s'
