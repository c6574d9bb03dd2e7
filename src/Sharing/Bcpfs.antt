-- ===== src/Sharing/Bcpfs.antt =====
-- cmd/bcpfs-perms/bcpsharing/bcpsharing.go: `Bcpfs`, which maps logical paths and group names to
-- realpaths and filesystem groups.
pub mod Realpaths
use bcpfs.Prelude.{
  ℕ, List, [], ◌∷◌, ◌++◌, Bool, true, false, not, ltb, Option, none, some, if◌then◌else◌, length,
  get_or, drop, Outcome, ok, err, panic, ◌>>=◌,
}
use bcpfs.Prelude.Bytes.{Bytes, codes, beq, split}
use bcpfs.Prelude.Dict
use bcpfs.Prelude.Dict.{Dict}
use bcpfs.SlashPath.{slash, path_join}
use bcpfs.Config
use bcpfs.Config.{Root}
use bcpfs.Sharing.{Group, Groups, GroupType, unspecified, ou, ops}

pub record Bcpfs : Type 0 where
  pub rootdir : Bytes
  pub service_dir : Bytes
  pub org_unit_dir : Bytes
  pub service_group_prefix : Bytes
  pub org_unit_group_prefix : Bytes
  pub facility_by_service : Dict Bytes
  pub facility_dirs : Dict (Unit {0})

pub data PathError : Type 0 where
  not_service_path service_path_too_short : PathError

-- `for _, srv := range fac.Services`
unfoldable pub add_services : Bytes → List Bytes → Dict Bytes → Dict Bytes
add_services fac [] by_service = by_service
add_services fac (srv ∷ srvs) by_service = add_services fac srvs (Dict.put by_service srv fac)

-- `for _, fac := range cfg.Facilities`
unfoldable pub add_facilities : List Config.Facility → Bcpfs → Bcpfs
unfolding add_services
add_facilities [] fs = fs
add_facilities (fac ∷ facs) fs = add_facilities facs (record fs {
  facility_by_service = add_services fac.name fac.services fs.facility_by_service;
  facility_dirs = Dict.put fs.facility_dirs (fac.name ++ codes "-facility") tt;
})

-- NewBcpfs(cfg)
unfoldable pub new_bcpfs : Root → Bcpfs
unfolding add_facilities
new_bcpfs cfg = add_facilities cfg.facilities (record {
  rootdir = cfg.rootdir;
  service_dir = cfg.service_dir;
  org_unit_dir = cfg.org_unit_dir;
  service_group_prefix = cfg.service_prefix;
  org_unit_group_prefix = cfg.org_unit_prefix;
  facility_by_service = [];
  facility_dirs = [];
})

-- FsGroupOrgUnit(ou)
unfoldable pub fs_group_org_unit : Bcpfs → Bytes → Bytes
fs_group_org_unit fs name = fs.org_unit_group_prefix ++ codes "_" ++ name

-- One round of the loop of `FsGroups()`.
unfoldable pub fs_group : {E : Type 0} → Bcpfs → GroupType → Bytes → Outcome E Bytes
fs_group fs ou name = ok (fs.org_unit_group_prefix ++ codes "_" ++ name)
fs_group fs ops name = ok (fs.service_group_prefix ++ codes "_" ++ name ++ codes "-ops")
fs_group fs unspecified name = panic

-- FsGroups(groups)
unfoldable pub fs_groups : {E : Type 0} → Bcpfs → Groups → Outcome E (List Bytes)
unfolding fs_group
fs_groups fs [] = ok []
fs_groups fs (g ∷ gs) = do
  fg ← fs_group fs g.group_type g.name
  fgs ← fs_groups fs gs
  ok (fg ∷ fgs)

-- `parts[i]`, where the code has tested the length.
abbrev pub part : List Bytes → ℕ → Bytes
part parts i = get_or parts i []

-- facilityOfServicePath(p); the only error is `ErrNotServicePath`.
unfoldable pub facility_of_service_path : Bcpfs → Bytes → Outcome PathError Bytes
facility_of_service_path fs p =
    let parts = split p slash in
    if ltb (length parts) 2
    then err not_service_path
    else elim (Dict.get fs.facility_by_service (part parts 1)) [
      | none ↦ err not_service_path
      | some fac ↦ ok fac
    ]

-- IsServicePath(p)
unfoldable pub is_service_path : Bcpfs → Bytes → Bool
unfolding facility_of_service_path
is_service_path fs p = elim (facility_of_service_path fs p) [ ok fac ↦ true | _ ↦ false ]

-- FacilityGroupOfServicePath(p)
unfoldable pub facility_group_of_service_path : Bcpfs → Bytes → Outcome PathError Bytes
unfolding facility_of_service_path
facility_group_of_service_path fs p = do
  fac ← facility_of_service_path fs p
  ok (fac ++ codes "-facility")

-- IsServiceRealpath(p)
unfoldable pub is_service_realpath : Bcpfs → Bytes → Bool
is_service_realpath fs p = beq (part (split p slash) 0) fs.service_dir

-- IsFacilityPath(p); `len(parts) < 1` never holds after `Split()`.
unfoldable pub is_facility_path : Bcpfs → Bytes → Bool
is_facility_path fs p =
    let parts = split p slash in
    if ltb (length parts) 1
    then false
    else elim (Dict.get fs.facility_dirs (part parts 0)) [ none ↦ false | some _ ↦ true ]

-- The two groups that manage a service path.
unfoldable pub service_groups : Bcpfs → Bytes → Bytes → Groups
service_groups fs name srv =
    record { group_type = ou; name = name }
    ∷ record {
      group_type = ops;
      name = elim (Dict.get fs.facility_by_service srv) [ none ↦ [] | some fac ↦ fac ];
    }
    ∷ []

-- ManagingGroupsOfPath(p)
unfoldable pub managing_groups_of_path : Bcpfs → Bytes → Outcome PathError Groups
unfolding is_service_path is_facility_path service_groups
managing_groups_of_path fs p =
    let parts = split p slash in
    if not (is_service_path fs p)
    then ok (record { group_type = ou; name = part parts 0 } ∷ [])
    else if is_facility_path fs p
    then (if ltb (length parts) 3
        then err service_path_too_short
        else ok (service_groups fs (part parts 2) (part parts 1)))
    else if ltb (length parts) 2
    then err service_path_too_short
    else ok (service_groups fs (part parts 0) (part parts 1))

-- Realpath(p), relative to the root dir.
unfoldable pub realpath : Bcpfs → Bytes → Bytes
unfolding is_service_path is_facility_path
realpath fs p =
    let parts = split p slash in
    if not (is_service_path fs p)
    then path_join (fs.org_unit_dir ∷ p ∷ [])
    else if ltb (length parts) 2
    then []
    else if is_facility_path fs p
    then path_join (fs.service_dir ∷ drop 1 parts)
    else path_join (fs.service_dir ∷ part parts 1 ∷ part parts 0 ∷ drop 2 parts)
