-- ===== src/Tests/Trees.antt =====
-- The theorems on setting up the trees of directories at concrete inputs.
use bcpfs.Prelude.{List, ℕ, ◌+◌, [], ◌∷◌, true, false, ok}
use bcpfs.Prelude.Bytes.{Bytes, codes}
use bcpfs.Grp.{Group}
use bcpfs.Org.{
  Service, OrgUnit, Organization, access_per_service, access_all_org_units, manager_policy,
}
use bcpfs.Fsapply.{System, going, removed}
use bcpfs.Fsapply.Trees.{ensure_permissions}
use bcpfs.Fsapply.Plan.{plan, Runs}
use bcpfs.Fsapply.Plan.Refines.{ensure_permissions_lem}
use bcpfs.Tests.Samples.{root_config}

abbrev group_of : Bytes → ℕ → Group
group_of name gid = record { name = name; gid = gid }

abbrev tem : Service
tem = record {
  name = codes "tem";
  facility = codes "em";
  access = access_per_service;
  super_group = group_of (codes "org_all") 10;
  service_group = group_of (codes "srv_tem") 11;
  service_ops_group = group_of (codes "srv_em-ops") 12;
}

abbrev rem : Service
rem = record tem { name = codes "rem"; access = access_all_org_units }

abbrev bob : OrgUnit
bob = record {
  name = codes "ag-bob";
  subdirs = record { name = codes "people"; policy = manager_policy } ∷ [];
  extra_dirs = [];
  is_facility = false;
  facility = [];
  org_unit_group = group_of (codes "org_ag-bob") 20;
}

abbrev organization : Organization
organization = record {
  org_units = bob ∷ [];
  facilities = record { name = codes "em" } ∷ [];
  services = tem ∷ rem ∷ [];
}

-- A filesystem that counts the changes.
abbrev counting : System (Unit {0}) ℕ
counting = record {
  exec = λ c n. going (n + 1);
  is_dest_symlink = λ dest path n. false;
  symlink = λ dest path n. going (n + 1);
  read_dir = λ path n. ok [];
  remove = λ path n. removed (n + 1);
}

ensure_permissions_lem_example :
    Runs counting
      (plan (codes "/orgfs") root_config organization (λ x o. true) true)
      0
      (ensure_permissions counting (codes "/orgfs") root_config organization (λ x o. true) true 0)
ensure_permissions_lem_example =
    ensure_permissions_lem counting (codes "/orgfs") root_config organization (λ x o. true) true 0
