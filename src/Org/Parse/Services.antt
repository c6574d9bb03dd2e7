-- ===== src/Org/Parse/Services.antt =====
-- cmd/bcpfs-perms/bcp/bcp.go: the services, and `New()`.
use bcpfs.Prelude.{
  List, [], ◌∷◌, map, not, any, ◌&&◌, Option, none, some, if◌then◌else◌, Outcome, ok, err, ◌>>=◌,
  ◌>>◌,
}
use bcpfs.Prelude.Bytes.{Bytes, beq}
use bcpfs.Prelude.Dict
use bcpfs.Prelude.Dict.{Dict}
use bcpfs.Config
use bcpfs.Config.{Root}
use bcpfs.Grp.{Group}
use bcpfs.Org.{
  Service, Facility, Organization, Names, GroupMap, no_group, is_all_org_units, new_group_map,
  get_by_name, find_service_group, find_service_ops_group,
}
use bcpfs.Org.Parse.{
  Error, missing_facility_group, invalid_access, all_org_units_without_super_group,
  missing_service_group, missing_super_group, missing_ops_group, access_policy_from_string,
  parse_group_names, parse_org_units,
}

pub record FacilityAccess : Type 0 where
  pub name : Bytes
  pub access : Bytes

-- `haveF` has every facility of the config.
unfoldable pub check_facility_groups : List Bytes → List Config.Facility → Outcome Error (Unit {0})
check_facility_groups have [] = ok tt
check_facility_groups have (f ∷ facs) =
    if not (any (λ n. beq n f.name) have)
    then err (missing_facility_group f.name)
    else check_facility_groups have facs

-- `for _, s := range f.Services`
unfoldable pub add_facility_services :
    FacilityAccess → List Bytes → Dict FacilityAccess → Dict FacilityAccess
add_facility_services fa [] m = m
add_facility_services fa (s ∷ ss) m = add_facility_services fa ss (Dict.put m s fa)

-- `facilityBySrv`
unfoldable pub facility_by_srv : List Config.Facility → Dict FacilityAccess → Dict FacilityAccess
unfolding add_facility_services
facility_by_srv [] m = m
facility_by_srv (f ∷ facs) m =
    facility_by_srv facs
      (add_facility_services (record { name = f.name; access = f.access }) f.services m)

-- `g, ok := …; !ok → missing`
abbrev pub or_missing {ℓ} : {A : Type ℓ} → Error → Option A → Outcome Error A
or_missing e none = err e
or_missing e (some a) = ok a

-- The super group, if the config names one; else the zero value, which has gid 0.
unfoldable pub find_super_group : Root → GroupMap → Outcome Error Group
unfolding get_by_name
find_super_group cfg gm =
    if beq cfg.super_group []
    then ok no_group
    else or_missing (missing_super_group cfg.super_group) (get_by_name gm cfg.super_group)

-- The body of the loop over the names of services, for one with a facility.
unfoldable pub new_service : Root → GroupMap → Bytes → FacilityAccess → Outcome Error Service
unfolding find_super_group
new_service cfg gm s f = do
  access ← or_missing (invalid_access f.access s) (access_policy_from_string f.access)
  let bare : Service = record {
    name = s;
    facility = f.name;
    access = access;
    super_group = no_group;
    service_group = no_group;
    service_ops_group = no_group;
  }
  if is_all_org_units access && beq cfg.super_group []
      then err (all_org_units_without_super_group s)
      else (do
        g ← or_missing (missing_service_group s) (find_service_group gm bare)
        super ← find_super_group cfg gm
        ops ← or_missing (missing_ops_group s) (find_service_ops_group gm bare)
        ok (record bare { service_group = g; super_group = super; service_ops_group = ops }))

-- `for _, s := range names.Services`: the services, and the names that have no facility.
unfoldable pub services_of :
    Root → GroupMap → Dict FacilityAccess → List Bytes → Outcome Error (List Service × List Bytes)
unfolding new_service
services_of cfg gm m [] = ok ([], [])
services_of cfg gm m (s ∷ ss) =
    let rest = services_of cfg gm m ss in
    elim (Dict.get m s) [
      | none ↦ do r ← rest; ok (r.0, s ∷ r.1)
      | some f ↦ do srv ← new_service cfg gm s f; r ← rest; ok (srv ∷ r.0, r.1)
    ]

-- parseServices(names, cfg, gm)
unfoldable pub parse_services : Names → Root → GroupMap → Outcome Error (List Service × List Bytes)
unfolding check_facility_groups facility_by_srv services_of
parse_services names cfg gm = do
  check_facility_groups names.facilities cfg.facilities
  services_of cfg gm (facility_by_srv cfg.facilities []) names.services

-- parseFacilities(names, cfg)
unfoldable pub parse_facilities : Names → List Facility
parse_facilities names = map (λ f. record { name = f }) names.facilities

-- New(groups, cfg): the organization, and the services without a facility.
unfoldable pub new_organization : List Group → Root → Outcome Error (Organization × List Bytes)
unfolding parse_services parse_facilities
new_organization groups cfg = do
  let names = parse_group_names groups cfg
  let gm = new_group_map groups cfg
  ous ← parse_org_units names cfg gm
  srvs ← parse_services names cfg gm
  ok (record { org_units = ous; facilities = parse_facilities names; services = srvs.0 }, srvs.1)
