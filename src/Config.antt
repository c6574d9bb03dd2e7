-- ===== src/Config.antt =====
-- cmd/bcpfs-perms/bcpcfg/bcpcfg.go: the filesystem config, as `Parse()` returns it.
pub mod Validate
use bcpfs.Prelude.{List, Option}
use bcpfs.Prelude.Bytes.{Bytes}

pub record Facility : Type 0 where
  pub name : Bytes
  pub services : List Bytes
  pub access : Bytes

pub record DirWithPolicy : Type 0 where
  pub name : Bytes
  pub policy : Bytes

pub record OrgUnit : Type 0 where
  pub name : Bytes
  pub subdirs : List DirWithPolicy
  pub extra_dirs : List Bytes

pub record SharingNamingPolicy : Type 0 where
  pub action : Bytes
  pub pattern_text : Bytes

pub record SharingExport : Type 0 where
  pub path : Bytes
  pub acl : List Bytes

pub record SharingImport : Type 0 where
  pub action : Bytes
  pub group : Bytes
  pub pattern_text : Bytes

pub record Sharing : Type 0 where
  pub naming_policies : List SharingNamingPolicy
  pub exports : List SharingExport
  pub imports : List SharingImport

pub record FilterRuleCfg : Type 0 where
  pub service : Bytes
  pub services : List Bytes
  pub org_unit : Bytes
  pub org_units : List Bytes
  pub action : Bytes

pub record FilterRule : Type 0 where
  pub services : List Bytes
  pub org_units : List Bytes
  pub action : Bytes

pub record Symlink : Type 0 where
  pub path : Bytes
  pub target : Bytes

-- `sharing` is nil if the config has no `sharing` block.
pub record Root : Type 0 where
  pub rootdir : Bytes
  pub service_dir : Bytes
  pub org_unit_dir : Bytes
  pub super_group : Bytes
  pub org_unit_prefix : Bytes
  pub service_prefix : Bytes
  pub ops_suffix : Bytes
  pub facility_suffix : Bytes
  pub facilities : List Facility
  pub org_units : List OrgUnit
  pub filter : List FilterRule
  pub symlinks : List Symlink
  pub sharing : Option Sharing
