-- ===== src/Org/Parse/Policies.antt =====
-- cmd/bcpfs-perms/bcp/bcp.go: the access policies of the services that New() makes.
use bcpfs.Prelude.{
  arith, ◌≡◌, ◌≢◌, ap, subst, List, [], ◌∷◌, ◌&&◌, Option, none, some, Option-cases, inl, inr,
  Bool-cases, ok, >>=-eq-ok, ok-injective, All,
}
use bcpfs.Prelude.Bytes.{Bytes, beq}
use bcpfs.Prelude.Dict
use bcpfs.Prelude.Dict.{Dict}
use bcpfs.Config.{Root}
use bcpfs.Grp.{Group}
use bcpfs.Org.{
  AccessPolicy, access_unspecified, Service, Organization, GroupMap, is_all_org_units,
  find_service_group, find_service_ops_group, new_group_map, no_group,
}
use bcpfs.Org.Parse.{
  Error, access_policy_from_string, missing_ops_group, missing_service_group, invalid_access,
  parse_group_names, parse_org_units,
}
use bcpfs.Org.Parse.Services.{
  FacilityAccess, or_missing, find_super_group, new_service, services_of, check_facility_groups,
  facility_by_srv, parse_services, new_organization,
}

-- The service has an access policy.
abbrev pub HasPolicy : Service → Type 0
HasPolicy x = x.access ≢ access_unspecified

access_policy_from_string_lem :
    (s : Bytes) (a : AccessPolicy) → access_policy_from_string s ≡ some a → a ≢ access_unspecified
unfolding access_policy_from_string
access_policy_from_string_lem s a e u = ground arith

or_missing_lem :
    {A : Type 0} (e : Error) (o : Option A) (a : A) → or_missing e o ≡ ok a → o ≡ some a
or_missing_lem e none a h = absurd (cc h)
or_missing_lem e (some b) a h = ap some (ok-injective h)

abbrev bare : Bytes → FacilityAccess → AccessPolicy → Service
bare s f access = record {
  name = s;
  facility = f.name;
  access = access;
  super_group = no_group;
  service_group = no_group;
  service_ops_group = no_group;
}

new_service-HasPolicy :
    (cfg : Root) (gm : GroupMap) (s : Bytes) (f : FacilityAccess) (x : Service)
    → new_service cfg gm s f ≡ ok x
    → HasPolicy x
unfolding new_service
new_service-HasPolicy cfg gm s f x e =
    let (a, pa, e1) =
      >>=-eq-ok (or_missing (invalid_access f.access s) (access_policy_from_string f.access)) _ e in
    let policy =
      access_policy_from_string_lem f.access a
        (or_missing_lem (invalid_access f.access s) (access_policy_from_string f.access) a pa) in
    elim (Bool-cases (is_all_org_units a && beq cfg.super_group [])) [
      | inl off ↦ absurd (cc (rw off at e1))
      | inr on ↦
          let (g, pg, e2) =
            >>=-eq-ok (or_missing (missing_service_group s) (find_service_group gm (bare s f a))) _
              (rw on at e1) in
          let (super, ps, e3) = >>=-eq-ok (find_super_group cfg gm) _ e2 in
          let (ops, po, e4) =
            >>=-eq-ok (or_missing (missing_ops_group s) (find_service_ops_group gm (bare s f a))) _
              e3 in
          subst HasPolicy (ok-injective e4) policy
    ]

services_of-HasPolicy :
    (cfg : Root) (gm : GroupMap) (m : Dict FacilityAccess) (ss : List Bytes)
    (r : List Service × List Bytes)
    → services_of cfg gm m ss ≡ ok r
    → All HasPolicy r.0
unfolding services_of
services_of-HasPolicy cfg gm m [] r e =
    subst (λ (k : List Service × List Bytes). All HasPolicy k.0) (ok-injective e) tt
services_of-HasPolicy cfg gm m (s ∷ ss) r e = elim (Option-cases (Dict.get m s)) [
  | inl off ↦
      let (rest, p, e1) = >>=-eq-ok (services_of cfg gm m ss) _ (rw (off, services_of) at e) in
      subst (λ (k : List Service × List Bytes). All HasPolicy k.0) (ok-injective e1)
        (services_of-HasPolicy cfg gm m ss rest p)
  | inr (f, at) ↦
      let (x, px, e1) = >>=-eq-ok (new_service cfg gm s f) _ (rw (at, services_of) at e) in
      let (rest, p, e2) = >>=-eq-ok (services_of cfg gm m ss) _ e1 in
      subst (λ (k : List Service × List Bytes). All HasPolicy k.0) (ok-injective e2)
        (new_service-HasPolicy cfg gm s f x px, services_of-HasPolicy cfg gm m ss rest p)
]

-- Each service of an organization that New() returns has an access policy.
pub new_organization-HasPolicy :
    (groups : List Group) (cfg : Root) (org : Organization) (left_out : List Bytes)
    → new_organization groups cfg ≡ ok (org, left_out)
    → All HasPolicy org.services
unfolding new_organization parse_services
new_organization-HasPolicy groups cfg org left_out e =
    let names = parse_group_names groups cfg in
    let gm = new_group_map groups cfg in
    let (ous, p1, e1) = >>=-eq-ok (parse_org_units names cfg gm) _ e in
    let (srvs, p2, e2) = >>=-eq-ok (parse_services names cfg gm) _ e1 in
    let (u, p3, e3) = >>=-eq-ok (check_facility_groups names.facilities cfg.facilities) _ p2 in
    let r =
      services_of-HasPolicy cfg gm (facility_by_srv cfg.facilities []) names.services srvs e3 in
    subst (λ (k : Organization × List Bytes). All HasPolicy k.0.services) (ok-injective e2) r
