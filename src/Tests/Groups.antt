-- ===== src/Tests/Groups.antt =====
-- The theorems on groups, the filter and the organization at concrete inputs.
use bcpfs.Prelude.{◌≡◌, ◌↔◌, refl, List, [], ◌∷◌, ◌++◌, true, false, not, ◌&&◌, ◌⊎◌, ok, err}
use bcpfs.Prelude.Bytes.{codes, beq, has_suffix}
use bcpfs.Prelude.Dict
use bcpfs.Grp.{Group, gid_get, Error, dedup_groups}
use bcpfs.Grp.Dedup.{consistent, firsts, dedup_groups_exact}
use bcpfs.Config.{FilterRule}
use bcpfs.Org.{Service, OrgUnit, no_group, access_per_service}
use bcpfs.Org.Parse.{parse_group_names}
use bcpfs.Org.Parse.GroupNames.{has_name, group_exists, parse_group_names_exact}
use bcpfs.Filter.{
  Decider, accepts, compile_filter, strings_to_pattern, same_facility, regexp, accept,
}
use bcpfs.Filter.Decisions.{AcceptsFirst, accepts_iff, verdict, accepts-compile_filter}
use bcpfs.Tests.Samples.{literal, root_config}

abbrev bob : Group
bob = record { name = codes "org_ag-bob"; gid = 1001 }

abbrev em : Group
em = record { name = codes "org_em-facility"; gid = 1002 }

abbrev tem : Group
tem = record { name = codes "srv_tem"; gid = 1003 }

abbrev tem_ops : Group
tem_ops = record { name = codes "srv_tem-ops"; gid = 1004 }

abbrev unix_groups : List Group
unix_groups = bob ∷ em ∷ tem ∷ bob ∷ tem_ops ∷ []

dedup_test : dedup_groups unix_groups ≡ ok (bob ∷ em ∷ tem ∷ tem_ops ∷ [])
unfolding dedup_groups beq Dict.get Dict.put gid_get
dedup_test = refl

dedup_groups_exact_example :
    ((consistent unix_groups ≡ true) × (dedup_groups unix_groups ≡ ok (firsts [] unix_groups)))
    ⊎ ((consistent unix_groups ≡ false) × ((e : Error) × (dedup_groups unix_groups ≡ err e)))
dedup_groups_exact_example = dedup_groups_exact unix_groups

abbrev microscopy : Service
microscopy = record {
  name = codes "tem";
  facility = codes "em";
  access = access_per_service;
  super_group = no_group;
  service_group = tem;
  service_ops_group = tem_ops;
}

abbrev ag_bob : OrgUnit
ag_bob = record {
  name = codes "ag-bob";
  subdirs = [];
  extra_dirs = [];
  is_facility = false;
  facility = [];
  org_unit_group = bob;
}

abbrev filter_rules : List FilterRule
filter_rules =
    record { services = codes "tem" ∷ []; org_units = codes "ag-bob" ∷ []; action = codes "Accept" }
    ∷ []

abbrev deciders : List Decider
deciders =
    regexp accept (λ t. beq (codes "^" ++ t ++ codes "$") (codes "^tem$"))
      (λ t. beq (codes "^" ++ t ++ codes "$") (codes "^ag-bob$"))
    ∷ same_facility
    ∷ []

accepts_iff_example :
    (accepts deciders microscopy ag_bob ≡ true) ↔ AcceptsFirst microscopy ag_bob deciders
accepts_iff_example = accepts_iff deciders microscopy ag_bob

compiled_deciders : compile_filter literal filter_rules ≡ ok deciders
unfolding compile_filter beq strings_to_pattern
compiled_deciders = refl

accepts-compile_filter_example :
    accepts deciders microscopy ag_bob ≡ verdict literal filter_rules microscopy ag_bob
accepts-compile_filter_example =
    accepts-compile_filter literal filter_rules deciders microscopy ag_bob compiled_deciders

parse_group_names_exact_example :
    (has_name (parse_group_names unix_groups root_config).org_units (codes "em")
      ≡ group_exists unix_groups (codes "org_em"))
    × (has_name (parse_group_names unix_groups root_config).services (codes "em") ≡ (
        group_exists unix_groups (codes "srv_em")
        && not (has_suffix (codes "srv_em") (codes "-ops"))))
    × (has_name (parse_group_names unix_groups root_config).facilities (codes "em")
        ≡ group_exists unix_groups (codes "org_em-facility"))
parse_group_names_exact_example = parse_group_names_exact unix_groups root_config (codes "em")
