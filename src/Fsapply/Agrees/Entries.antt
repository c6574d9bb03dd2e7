-- ===== src/Fsapply/Agrees/Entries.antt =====
-- cmd/bcpfs-perms/fsapply/apply-sh.go: each script and the ACL that it is for.
use mathlib.Core.List.{Perm}
use mathlib.Core.List.Perm
use bcpfs.Prelude.{
  ℕ, ◌≡◌, refl, sym, List, [], ◌∷◌, ◌++◌, true, false, inl, inr, leb, ok, Bool-cases, arith,
}
use bcpfs.Prelude.Bytes.{Bytes, codes, beq_refl}
use bcpfs.Prelude.Decimal.{decimal}
use bcpfs.Org.{
  access_per_service, access_all_org_units, is_per_service, is_all_org_units, DirPolicy,
  group_policy, owner_policy, manager_policy,
}
use bcpfs.Fsck.{
  Acl, simple, service, service_org_unit, org_unit, subdir_group, subdir_owner, subdir_manager,
  subdir_acl,
}
use bcpfs.Fsck.Text.{
  acl_header, acl_entries, sgid_header, gid_line, first_gid, second_gid, one_group, two_groups, rwx,
  rx, default_tag,
}
use bcpfs.Fsapply.Scripts.{
  entry, group, ensure_toplevel_sh, ensure_service_sh, ensure_service_all_org_units_sh,
  ensure_sou_sh, sou_entries, org_unit_entries, org_unit_script, ensure_org_unit_sh,
  ensure_org_unit_subdir_sh,
}
use bcpfs.Fsapply.Agrees.{granted, not_granted, SetsUp}

-- The order of the two groups does not matter.
two_groups-swap : (a b : ℕ) (perms : Bytes) → Perm (two_groups a b perms) (two_groups b a perms)
two_groups-swap a b perms =
    let rest : List Bytes = (codes "default:mask::" ++ perms) ∷ codes "default:other::---" ∷ [] in
    let l = gid_line default_tag a perms in
    let l' = gid_line default_tag b perms in
    Perm.cons _ (
      Perm.cons _ (
        Perm.trans (Perm.swap _ _ _) (
          Perm.cons _ (
            Perm.cons _
              (Perm.cons _ (Perm.cons _ (Perm.cons _ (Perm.cons _ (Perm.swap l' l rest)))))))))

two_groups-sorted :
    (a b : ℕ) (perms : Bytes)
    → Perm (two_groups a b perms) (two_groups (first_gid a b) (second_gid a b) perms)
unfolding first_gid second_gid
two_groups-sorted a b perms = elim (Bool-cases (leb a b)) [
  | inl e ↦ rw e (Perm.refl _)
  | inr e ↦ rw e (two_groups-swap a b perms)
]

pub toplevel-SetsUp :
    (path : Bytes) → SetsUp path (simple (codes "rwx") rx rx) (ensure_toplevel_sh path)
unfolding ensure_toplevel_sh acl_header acl_entries
toplevel-SetsUp path = record {
  sgid = false;
  gid = 0;
  owner = codes "root:root";
  entries = codes "user::rwx" ∷ codes "group::r-x" ∷ codes "other::r-x" ∷ [];
  removed = [];
  stop = [];
  expected = codes "user::rwx" ∷ codes "group::r-x" ∷ codes "other::r-x" ∷ [];
  shape = refl;
  owns = inr (refl, refl);
  has_header = refl;
  has_entries = refl;
  same_entries = Perm.refl _;
  grants = tt;
  grants_no_other = refl;
}

pub service-SetsUp :
    (path : Bytes) (gid ops_gid super_gid : ℕ)
    → SetsUp path
        (service gid ops_gid super_gid access_per_service)
        (ensure_service_sh path gid ops_gid super_gid)
unfolding ensure_service_sh acl_header acl_entries gid_line is_per_service
service-SetsUp path gid ops_gid super_gid = record {
  sgid = false;
  gid = gid;
  owner = codes "root:" ++ decimal gid;
  entries = two_groups gid ops_gid rx;
  removed = super_gid ∷ [];
  stop = [];
  expected = two_groups (first_gid gid ops_gid) (second_gid gid ops_gid) rx;
  shape = refl;
  owns = inl refl;
  has_header = refl;
  has_entries = refl;
  same_entries = two_groups-sorted gid ops_gid rx;
  grants = (
    (codes ":r-x", ground (arith, beq_refl (entry group gid (codes ":r-x")))),
    ((codes ":r-x", ground (arith, beq_refl (entry group ops_gid (codes ":r-x")))), tt),
  );
  grants_no_other = refl;
}

pub service_all-SetsUp :
    (path : Bytes) (gid ops_gid super_gid : ℕ)
    → SetsUp path
        (service gid ops_gid super_gid access_all_org_units)
        (ensure_service_all_org_units_sh path gid ops_gid super_gid)
unfolding ensure_service_all_org_units_sh acl_header acl_entries gid_line is_per_service
    is_all_org_units
service_all-SetsUp path gid ops_gid super_gid = record {
  sgid = false;
  gid = gid;
  owner = codes "root:" ++ decimal gid;
  entries = one_group super_gid rx rx;
  removed = gid ∷ ops_gid ∷ [];
  stop = [];
  expected = one_group super_gid rx rx;
  shape = refl;
  owns = inl refl;
  has_header = refl;
  has_entries = refl;
  same_entries = Perm.refl _;
  grants = ((codes ":r-x", ground (arith, beq_refl (entry group super_gid (codes ":r-x")))), tt);
  grants_no_other = refl;
}

pub service_org_unit-SetsUp :
    (path : Bytes) (gid srv_gid ops_gid super_gid : ℕ)
    → SetsUp path
        (service_org_unit gid ops_gid srv_gid super_gid)
        (ensure_sou_sh path gid srv_gid ops_gid super_gid)
unfolding ensure_sou_sh acl_header acl_entries gid_line
service_org_unit-SetsUp path gid srv_gid ops_gid super_gid = record {
  sgid = true;
  gid = gid;
  owner = codes "root:" ++ decimal gid;
  entries = sou_entries gid ops_gid;
  removed = srv_gid ∷ super_gid ∷ [];
  stop = codes ":";
  expected = two_groups (first_gid gid ops_gid) (second_gid gid ops_gid) rwx;
  shape = refl;
  owns = inl refl;
  has_header = refl;
  has_entries = refl;
  same_entries = two_groups-sorted gid ops_gid rwx;
  grants = (
    (codes ":rwx", ground (arith, beq_refl (entry group gid (codes ":rwx")))),
    ((codes ":rwx", ground (arith, beq_refl (entry group ops_gid (codes ":rwx")))), tt),
  );
  grants_no_other = refl;
}

-- A directory of an org unit, with the permissions of the group and those of the default entry.
org_unit_script-SetsUp :
    (path : Bytes) (gid : ℕ) (acl : Acl) (perms dflt : Bytes)
    → acl_header acl ≡ sgid_header gid
    → acl_entries {E = Unit} acl ≡ ok (one_group gid perms dflt)
    → granted acl ≡ gid ∷ []
    → not_granted acl ≡ []
    → SetsUp path acl (org_unit_script path gid perms dflt)
unfolding org_unit_script gid_line
org_unit_script-SetsUp path gid acl perms dflt eh ee eg en = record {
  sgid = true;
  gid = gid;
  owner = codes "root:" ++ decimal gid;
  entries = org_unit_entries gid perms dflt;
  removed = [];
  stop = [];
  expected = one_group gid perms dflt;
  shape = refl;
  owns = inl refl;
  has_header = eh;
  has_entries = ee;
  same_entries = Perm.refl _;
  grants =
      rw eg
        ((codes ":" ++ perms, ground (arith, beq_refl (entry group gid (codes ":" ++ perms)))), tt);
  grants_no_other = sym en;
}

pub subdir-SetsUp :
    (path : Bytes) (gid : ℕ) (policy : DirPolicy)
    → SetsUp path (subdir_acl policy gid) (ensure_org_unit_subdir_sh path gid policy)
unfolding ensure_org_unit_subdir_sh acl_header acl_entries gid_line subdir_acl
subdir-SetsUp path gid group_policy =
    org_unit_script-SetsUp path gid (subdir_group gid) rwx rwx refl refl refl refl
subdir-SetsUp path gid owner_policy =
    org_unit_script-SetsUp path gid (subdir_owner gid) rwx rx refl refl refl refl
subdir-SetsUp path gid manager_policy =
    org_unit_script-SetsUp path gid (subdir_manager gid) rx rx refl refl refl refl

pub org_unit-SetsUp :
    (path : Bytes) (gid : ℕ) → SetsUp path (org_unit gid) (ensure_org_unit_sh path gid)
unfolding ensure_org_unit_sh acl_header acl_entries gid_line
org_unit-SetsUp path gid = org_unit_script-SetsUp path gid (org_unit gid) rx rx refl refl refl refl
