-- ===== src/Org/Parse.antt =====
-- cmd/bcpfs-perms/bcp/bcp.go: `New()` and the parsers of group names, org units and services. The
-- messages that are only logged are not modelled.
pub mod GroupNames
pub mod Services
pub mod Policies
use bcpfs.Prelude.{
  ℕ, ◌-◌, List, [], ◌∷◌, ◌++◌, map, Bool, true, false, not, any, ◌&&◌, ◌||◌, length, take, drop,
  Option, none, some, if◌then◌else◌, Outcome, ok, err, panic, ◌>>=◌, ◌>>◌, All,
}
use bcpfs.Prelude.Bytes.{Bytes, codes, beq, has_prefix, has_suffix}
use bcpfs.Prelude.Dict
use bcpfs.Prelude.Dict.{Dict}
use bcpfs.Config
use bcpfs.Config.{Root}
use bcpfs.Grp.{Group}
use bcpfs.Org.{
  AccessPolicy, access_unspecified, access_per_service, access_all_org_units, DirPolicy,
  group_policy, owner_policy, manager_policy, DirWithPolicy, Service, OrgUnit, Facility,
  Organization, Names, GroupMap, no_group, is_all_org_units, new_group_map, get_by_name,
  find_org_unit_group, find_service_group, find_service_ops_group,
}

pub data Error : Type 0 where
  missing_facility_group : Bytes → Error
  invalid_access : Bytes → Bytes → Error
  all_org_units_without_super_group : Bytes → Error
  missing_service_group missing_super_group missing_ops_group missing_org_unit_group : Bytes → Error
  duplicate_dir : Bytes → Bytes → Error

-- AccessPolicyFromString(name)
unfoldable pub access_policy_from_string : Bytes → Option AccessPolicy
access_policy_from_string name =
    if beq name (codes "perService")
    then some access_per_service
    else if beq name (codes "allOrgUnits")
    then some access_all_org_units
    else if beq name []
    then some access_per_service
    else none

-- MustDirPolicy(s)
unfoldable pub must_dir_policy : Bytes → Outcome Error DirPolicy
must_dir_policy s =
    if beq s (codes "owner")
    then ok owner_policy
    else if beq s (codes "group")
    then ok group_policy
    else if beq s (codes "manager")
    then ok manager_policy
    else panic

-- parseOrgUnitNames(gs, cfg): `org_<x>` -> `<x>`.
unfoldable pub parse_org_unit_names : List Group → Root → List Bytes
parse_org_unit_names [] cfg = []
parse_org_unit_names (g ∷ gs) cfg =
    let pfx = cfg.org_unit_prefix ++ codes "_" in
    let rest = parse_org_unit_names gs cfg in
    if has_prefix g.name pfx then drop (length pfx) g.name ∷ rest else rest

-- parseServiceNames(gs, cfg): `srv_<x>` -> `<x>` unless `-ops` suffix.
unfoldable pub parse_service_names : List Group → Root → List Bytes
parse_service_names [] cfg = []
parse_service_names (g ∷ gs) cfg =
    let pfx = cfg.service_prefix ++ codes "_" in
    let suf = codes "-" ++ cfg.ops_suffix in
    let rest = parse_service_names gs cfg in
    if not (has_prefix g.name pfx)
    then rest
    else if has_suffix g.name suf
    then rest
    else drop (length pfx) g.name ∷ rest

-- parseFacilityNames(gs, cfg): `org_<x>-facility` -> `<x>`.
unfoldable pub parse_facility_names : List Group → Root → List Bytes
parse_facility_names [] cfg = []
parse_facility_names (g ∷ gs) cfg =
    let pfx = cfg.org_unit_prefix ++ codes "_" in
    let suf = codes "-" ++ cfg.facility_suffix in
    let rest = parse_facility_names gs cfg in
    let n = drop (length pfx) g.name in
    if not (has_prefix g.name pfx)
    then rest
    else if not (has_suffix n suf)
    then rest
    else take (length n - length suf) n ∷ rest

unfoldable pub parse_group_names : List Group → Root → Names
unfolding parse_org_unit_names parse_service_names parse_facility_names
parse_group_names gs cfg = record {
  org_units = parse_org_unit_names gs cfg;
  services = parse_service_names gs cfg;
  facilities = parse_facility_names gs cfg;
}

-- The directories of one org unit so far: `sds`, `xds`, `used` and `checkErr`.
pub record OuDirs : Type 0 where
  pub sds : List DirWithPolicy
  pub xds : List Bytes
  pub used : List Bytes
  pub check_err : Option Error

-- `checkName(name)`: the first duplicate is kept as the error.
unfoldable pub check_name : Bytes → Bytes → OuDirs → OuDirs
check_name ou name s = elim s.check_err [
  | some e ↦ s
  | none ↦
      if any (λ u. beq u name) s.used
      then record s { check_err = some (duplicate_dir ou name); used = name ∷ s.used }
      else record s { used = name ∷ s.used }
]

-- `for _, d := range cou.Subdirs`
unfoldable pub add_subdirs : Bytes → List Config.DirWithPolicy → OuDirs → Outcome Error OuDirs
unfolding check_name must_dir_policy
add_subdirs ou [] s = ok s
add_subdirs ou (d ∷ ds) s = do
  policy ← must_dir_policy d.policy
  let s' = check_name ou d.name s
  add_subdirs ou ds (record s' {
    sds = s'.sds ++ record { name = d.name; policy = policy } ∷ [];
    xds = s'.xds ++ d.name ∷ [];
  })

-- `for _, xd := range cou.ExtraDirs`
unfoldable pub add_extra_dirs : Bytes → List Bytes → OuDirs → OuDirs
unfolding check_name
add_extra_dirs ou [] s = s
add_extra_dirs ou (xd ∷ xs) s =
    let s' = check_name ou xd s in
    add_extra_dirs ou xs (record s' {
      sds = s'.sds ++ record { name = xd; policy = group_policy } ∷ [];
      xds = s'.xds ++ xd ∷ [];
    })

abbrev pub no_dirs : OuDirs
no_dirs = record { sds = []; xds = []; used = []; check_err = none }

-- The body of the loop over `cfg.OrgUnits`.
unfoldable pub ou_dirs : Config.OrgUnit → Outcome Error OuDirs
unfolding add_subdirs add_extra_dirs
ou_dirs cou = do
  s ← add_subdirs cou.name cou.subdirs no_dirs
  let s' = add_extra_dirs cou.name cou.extra_dirs s
  elim s'.check_err [ some e ↦ err e | none ↦ ok s' ]

-- `subdirsByOu` and `extraDirsByOu`, which have the same keys.
unfoldable pub dirs_by_ou : List Config.OrgUnit → Dict OuDirs → Outcome Error (Dict OuDirs)
unfolding ou_dirs
dirs_by_ou [] m = ok m
dirs_by_ou (cou ∷ cous) m = do s ← ou_dirs cou; dirs_by_ou cous (Dict.put m cou.name s)

-- `subdirsByOu[o]` and `extraDirsByOu[o]`, which are empty for an org unit that is not configured.
unfoldable pub dirs_of : Dict OuDirs → Bytes → OuDirs
dirs_of m o = elim (Dict.get m o) [ none ↦ no_dirs | some s ↦ s ]

-- The org unit of one name, without its group.
unfoldable pub new_org_unit : Root → Dict OuDirs → Bytes → OrgUnit
new_org_unit cfg m o =
    let fsuf = codes "-" ++ cfg.facility_suffix in
    let is_fac = has_suffix o fsuf in
    let dirs = dirs_of m o in
    record {
      name = o;
      subdirs = dirs.sds;
      extra_dirs = dirs.xds;
      is_facility = is_fac;
      facility = if is_fac then take (length o - length fsuf) o else [];
      org_unit_group = no_group;
    }

-- `for _, o := range names.OrgUnits`
unfoldable pub org_units_of :
    Root → GroupMap → Dict OuDirs → List Bytes → Outcome Error (List OrgUnit)
unfolding new_org_unit dirs_of
org_units_of cfg gm m [] = ok []
org_units_of cfg gm m (o ∷ os) =
    let ou = new_org_unit cfg m o in
    elim (find_org_unit_group gm ou) [
      | none ↦ err (missing_org_unit_group o)
      | some g ↦ do rest ← org_units_of cfg gm m os; ok (record ou { org_unit_group = g } ∷ rest)
    ]

-- parseOrgUnits(names, cfg, gm)
unfoldable pub parse_org_units : Names → Root → GroupMap → Outcome Error (List OrgUnit)
unfolding dirs_by_ou org_units_of
parse_org_units names cfg gm = do
  m ← dirs_by_ou cfg.org_units []
  org_units_of cfg gm m names.org_units
