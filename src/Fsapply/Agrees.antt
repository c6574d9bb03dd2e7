-- ===== src/Fsapply/Agrees.antt =====
-- cmd/bcpfs-perms/fsapply/apply-sh.go and cmd/bcpfs-perms/fsck/acl.go: a script sets what the check
-- expects.
pub mod Entries
pub mod Steps
pub mod Expected
pub mod Setups
pub mod Kept
use mathlib.Core.List.{Perm}
use bcpfs.Prelude.{
  ℕ, map, false, ◌==◌, ◌≡◌, List, [], ◌∷◌, ◌++◌, Bool, true, false, ◌⊎◌, any, All, Outcome, ok,
}
use bcpfs.Prelude.Bytes.{Bytes, codes, beq}
use bcpfs.Prelude.Decimal.{decimal}
use bcpfs.Org.{access_unspecified, access_per_service, access_all_org_units}
use bcpfs.Fsck.{
  Acl, simple, service, service_org_unit, org_unit, subdir_group, subdir_owner, subdir_manager,
}
use bcpfs.Fsck.Text.{acl_header, acl_entries, header, sgid_header}
use bcpfs.Fsapply.{
  Command, Script, mkdir_missing, chown, chmod_sgid, setfacl_modify, setfacl_remove,
}
use bcpfs.Fsapply.Scripts.{entry, group}

abbrev pub sgid_command : Bool → Bytes → Script
sgid_command true path = chmod_sgid path ∷ []
sgid_command false path = []

abbrev pub removal : List Bytes → Bytes → Script
removal [] path = []
removal (l ∷ lines) path = setfacl_remove path (l ∷ lines) ∷ []

-- The header that `getfacl` prints for a directory of root and the group.
abbrev pub expected_header : Bool → ℕ → List Bytes
expected_header true gid = sgid_header gid
expected_header false gid = header gid

-- The owner for `chown`: the group by its gid, or the group `root`.
abbrev pub Owns : Bytes → ℕ → Type 0
Owns owner gid = (owner ≡ codes "root:" ++ decimal gid) ⊎ ((owner ≡ codes "root:root") × (gid ≡ 0))

-- The groups to which the ACL of a service, or of a directory in it, gives an entry; and those that the
-- check looks at and that are to have none.
abbrev pub granted : Acl → List ℕ
granted (simple user group_perms other) = []
granted (service gid ops_gid super_gid access_unspecified) = []
granted (service gid ops_gid super_gid access_per_service) = gid ∷ ops_gid ∷ []
granted (service gid ops_gid super_gid access_all_org_units) = super_gid ∷ []
granted (service_org_unit ou_gid ops_gid srv_gid super_gid) = ou_gid ∷ ops_gid ∷ []
granted (org_unit gid) = gid ∷ []
granted (subdir_group gid) = gid ∷ []
granted (subdir_owner gid) = gid ∷ []
granted (subdir_manager gid) = gid ∷ []

abbrev pub not_granted : Acl → List ℕ
not_granted (simple user group_perms other) = []
not_granted (service gid ops_gid super_gid access_unspecified) = []
not_granted (service gid ops_gid super_gid access_per_service) = super_gid ∷ []
not_granted (service gid ops_gid super_gid access_all_org_units) = gid ∷ ops_gid ∷ []
not_granted (service_org_unit ou_gid ops_gid srv_gid super_gid) = srv_gid ∷ super_gid ∷ []
not_granted (org_unit gid) = []
not_granted (subdir_group gid) = []
not_granted (subdir_owner gid) = []
not_granted (subdir_manager gid) = []

-- The lines for `setfacl -X-`, with `stop` after each gid: the normal and the default entries.
abbrev pub removal_lines : Bytes → List ℕ → List Bytes
removal_lines stop gids =
    map (λ g. entry group g stop) gids ++ map (λ g. entry (codes "default:group:") g stop) gids

-- The script creates the directory, gives it the owner, the SGID bit and exactly the entries that
-- the check of the ACL expects, in any order, and then removes exactly the normal and the default
-- entries of the groups that are to have none.
pub record SetsUp (path : Bytes) (acl : Acl) (script : Script) : Type 0 where
  pub sgid : Bool
  pub gid : ℕ
  pub owner : Bytes
  pub entries : List Bytes
  pub removed : List ℕ
  pub stop : Bytes
  pub expected : List Bytes
  pub shape :
      script
      ≡ mkdir_missing path
        ∷ chown owner path
        ∷ (sgid_command sgid path
            ++ setfacl_modify path entries ∷ removal (removal_lines stop removed) path)
  pub owns : Owns owner gid
  pub has_header : acl_header acl ≡ expected_header sgid gid
  pub has_entries : acl_entries {E = Unit} acl ≡ ok expected
  pub same_entries : Perm entries expected
  pub grants :
      All (λ g. (perms : Bytes) × (any (beq (entry group g perms)) entries ≡ true)) (granted acl)
  pub grants_no_other : removed ≡ not_granted acl

-- The setup keeps the entries of the groups to which the ACL gives one: their gids are not removed.
abbrev pub Keeps : Bytes → Acl → Script → Type 0
Keeps path acl script =
    (setup : SetsUp path acl script) × All (λ g. any (λ r. r == g) setup.removed ≡ false)
      (granted acl)
