-- ===== src/Org.antt =====
-- cmd/bcpfs-perms/bcp/bcp.go and groups.go: the organization, from the Unix groups and the config.
pub mod Parse
use bcpfs.Prelude.{ℕ, List, [], ◌∷◌, ◌++◌, Bool, true, false, Option, none, some, if◌then◌else◌}
use bcpfs.Prelude.Bytes.{Bytes, codes, beq}
use bcpfs.Prelude.Dict
use bcpfs.Prelude.Dict.{Dict}
use bcpfs.Config.{Root}
use bcpfs.Grp.{Group}

pub data AccessPolicy : Type 0 where
  access_unspecified access_per_service access_all_org_units : AccessPolicy

pub data DirPolicy : Type 0 where
  group_policy owner_policy manager_policy : DirPolicy

pub record DirWithPolicy : Type 0 where
  pub name : Bytes
  pub policy : DirPolicy

pub record Service : Type 0 where
  pub name : Bytes
  pub facility : Bytes
  pub access : AccessPolicy
  pub super_group : Group
  pub service_group : Group
  pub service_ops_group : Group

pub record OrgUnit : Type 0 where
  pub name : Bytes
  pub subdirs : List DirWithPolicy
  pub extra_dirs : List Bytes
  pub is_facility : Bool
  pub facility : Bytes
  pub org_unit_group : Group

pub record Facility : Type 0 where
  pub name : Bytes

pub record Organization : Type 0 where
  pub org_units : List OrgUnit
  pub facilities : List Facility
  pub services : List Service

pub record Names : Type 0 where
  pub org_units : List Bytes
  pub services : List Bytes
  pub facilities : List Bytes

-- (a AccessPolicy) IsPerService(), IsAllOrgUnits()
unfoldable pub is_per_service : AccessPolicy → Bool
is_per_service access_per_service = true
is_per_service access_unspecified = false
is_per_service access_all_org_units = false

unfoldable pub is_all_org_units : AccessPolicy → Bool
is_all_org_units access_all_org_units = true
is_all_org_units access_unspecified = false
is_all_org_units access_per_service = false

-- A Go struct that nobody has filled.
abbrev pub no_group : Group
no_group = record { name = []; gid = 0 }

pub record GroupMap : Type 0 where
  pub by_name : Dict Group
  pub service_prefix : Bytes
  pub org_unit_prefix : Bytes
  pub ops_suffix : Bytes

-- `for _, g := range groups { byName[g.Name] = g }`
unfoldable pub add_groups : List Group → Dict Group → Dict Group
add_groups [] by_name = by_name
add_groups (g ∷ gs) by_name = add_groups gs (Dict.put by_name g.name g)

-- NewGroupMap(groups, cfg)
unfoldable pub new_group_map : List Group → Root → GroupMap
unfolding add_groups
new_group_map groups cfg = record {
  by_name = add_groups groups [];
  service_prefix = cfg.service_prefix;
  org_unit_prefix = cfg.org_unit_prefix;
  ops_suffix = cfg.ops_suffix;
}

unfoldable pub get_by_name : GroupMap → Bytes → Option Group
get_by_name gm name = Dict.get gm.by_name name

unfoldable pub find_org_unit_group : GroupMap → OrgUnit → Option Group
unfolding get_by_name
find_org_unit_group gm ou = get_by_name gm (gm.org_unit_prefix ++ codes "_" ++ ou.name)

unfoldable pub find_service_group : GroupMap → Service → Option Group
unfolding get_by_name
find_service_group gm s = get_by_name gm (gm.service_prefix ++ codes "_" ++ s.name)

unfoldable pub find_service_ops_group : GroupMap → Service → Option Group
unfolding get_by_name
find_service_ops_group gm s =
    get_by_name gm (gm.service_prefix ++ codes "_" ++ s.facility ++ codes "-" ++ gm.ops_suffix)
