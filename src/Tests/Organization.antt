-- ===== src/Tests/Organization.antt =====
-- The theorem on the organization at a concrete input.
use bcpfs.Prelude.{◌≡◌, refl, List, [], ◌∷◌, true, ok, All}
use bcpfs.Prelude.Bytes.{codes, beq, has_prefix, has_suffix}
use bcpfs.Prelude.Dict
use bcpfs.Prelude.Dict.{Dict}
use bcpfs.Grp.{Group}
use bcpfs.Org.{
  Organization, Service, access_per_service, no_group, new_group_map, get_by_name,
  find_service_group, find_org_unit_group, find_service_ops_group, is_all_org_units, add_groups,
}
use bcpfs.Org.Parse.{access_policy_from_string, parse_org_units, parse_group_names}
use bcpfs.Org.Parse.Services.{new_organization, new_service, find_super_group}
use bcpfs.Org.Parse.Policies.{HasPolicy, new_organization-HasPolicy}
use bcpfs.Apply.ShareTrees.{}
use bcpfs.Tests.Samples.{root_config}

abbrev unix_groups : List Group
unix_groups =
    record { name = codes "org_em-facility"; gid = 1 }
    ∷ record { name = codes "srv_tem"; gid = 2 }
    ∷ record { name = codes "srv_em-ops"; gid = 3 }
    ∷ []

abbrev em_service : Service
em_service = record {
  name = codes "tem";
  facility = codes "em";
  access = access_per_service;
  super_group = no_group;
  service_group = record { name = codes "srv_tem"; gid = 2 };
  service_ops_group = record { name = codes "srv_em-ops"; gid = 3 };
}

abbrev em_organization : Organization
em_organization = record {
  org_units =
      record {
        name = codes "em-facility";
        subdirs = [];
        extra_dirs = [];
        is_facility = true;
        facility = codes "em";
        org_unit_group = record { name = codes "org_em-facility"; gid = 1 };
      }
      ∷ [];
  facilities = record { name = codes "em" } ∷ [];
  services = em_service ∷ [];
}

em_organization_run : new_organization unix_groups root_config ≡ ok (em_organization, [])
unfolding new_organization new_service new_group_map find_super_group beq find_service_group
    find_service_ops_group access_policy_from_string is_all_org_units Dict.get Dict.put get_by_name
    add_groups parse_org_units parse_group_names has_prefix find_org_unit_group has_suffix
em_organization_run = refl

new_organization-HasPolicy_example : All HasPolicy em_organization.services
new_organization-HasPolicy_example =
    new_organization-HasPolicy unix_groups root_config em_organization [] em_organization_run
