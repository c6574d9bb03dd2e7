-- ===== src/Config/Validate.antt =====
-- cmd/bcpfs-perms/bcpcfg/bcpcfg.go: the checks that `Parse()` makes on what the HCL decoder returns.
use bcpfs.Prelude.{
  ℕ, ◌+◌, List, [], ◌∷◌, Bool, false, not, ◌||◌, ◌&&◌, ◌==◌, leb, ltb, length, Option, none, some,
  if◌then◌else◌, Outcome, ok, err, ◌>>=◌, ◌>>◌, wrap_err,
}
use bcpfs.Prelude.Bytes.{Bytes, codes, beq}
use bcpfs.Config.{
  Facility, OrgUnit, DirWithPolicy, SharingNamingPolicy, SharingExport, SharingImport,
  FilterRuleCfg, FilterRule, Symlink,
}

pub data Error : Type 0 where
  invalid_access : Bytes → Bytes → Error
  invalid_dirs : ℕ → Error → Error
  invalid_policy : ℕ → Error
  filter_item : ℕ → Error → Error
  invalid_action two_services no_service two_org_units no_org_unit : Error
  empty_path : ℕ → Error
  empty_target : ℕ → Error
  invalid_naming_action : ℕ → Bytes → Error
  malformed_acl : ℕ → ℕ → Error
  invalid_import_action : ℕ → Bytes → Error

-- The characters of `[a-z0-9-]`.
unfoldable pub is_group_char : ℕ → Bool
is_group_char c = (leb b'a' c && leb c b'z') || (leb b'0' c && leb c b'9') || c == b'-'

-- `:[r-][w-][x-]$`
unfoldable pub matches_mode : Bytes → Bool
matches_mode (s ∷ r ∷ w ∷ x ∷ []) =
    s == b':' && (r == b'r' || r == b'-') && (w == b'w' || w == b'-') && (x == b'x' || x == b'-')
matches_mode _ = false

-- `[a-z0-9-]*:[r-][w-][x-]$`; the colon is no group character, so there is one way to match.
unfoldable pub matches_group_mode : Bytes → Bool
unfolding is_group_char matches_mode
matches_group_mode [] = false
matches_group_mode (c ∷ s) =
    let rest = matches_group_mode s in if is_group_char c then rest else matches_mode (c ∷ s)

unfoldable pub matches_groups_mode : Bytes → Bool
unfolding matches_group_mode
matches_groups_mode [] = false
matches_groups_mode (c ∷ s) = is_group_char c && matches_group_mode s

unfoldable pub strip_prefix : Bytes → Bytes → Option Bytes
strip_prefix s [] = some s
strip_prefix [] (b ∷ p) = none
strip_prefix (a ∷ s) (b ∷ p) = if a == b then strip_prefix s p else none

-- `^group:[a-z0-9-]+:[r-][w-][x-]$`
unfoldable pub matches_ace : Bytes → Bool
unfolding matches_groups_mode strip_prefix
matches_ace s = elim (strip_prefix s (codes "group:")) [
  | none ↦ false
  | some rest ↦ matches_groups_mode rest
]

unfoldable pub is_valid_dir_policy : Bytes → Bool
is_valid_dir_policy p = beq p (codes "owner") || beq p (codes "group") || beq p (codes "manager")

unfoldable pub validate_subdirs : ℕ → List DirWithPolicy → Outcome Error (Unit {0})
unfolding is_valid_dir_policy
validate_subdirs i [] = ok tt
validate_subdirs i (d ∷ ds) =
    if not (is_valid_dir_policy d.policy)
    then err (invalid_policy i)
    else validate_subdirs (i + 1) ds

-- The check of one `facility` block.
unfoldable pub check_facility : Facility → Outcome Error (Unit {0})
check_facility f =
    if not (beq f.access (codes "perService"))
      && not (beq f.access (codes "allOrgUnits"))
      && not (beq f.access [])
    then err (invalid_access f.access f.name)
    else ok tt

unfoldable pub parse_facility_configs : List Facility → Outcome Error (List Facility)
unfolding check_facility
parse_facility_configs [] = ok []
parse_facility_configs (f ∷ fs) = do
  check_facility f
  rest ← parse_facility_configs fs
  ok (f ∷ rest)

unfoldable pub parse_org_unit_configs : ℕ → List OrgUnit → Outcome Error (List OrgUnit)
unfolding validate_subdirs
parse_org_unit_configs i [] = ok []
parse_org_unit_configs i (o ∷ os) = do
  wrap_err (invalid_dirs i) (validate_subdirs 0 o.subdirs)
  rest ← parse_org_unit_configs (i + 1) os
  ok (o ∷ rest)

-- `service` or `services`, and `orgUnit` or `orgUnits`: one name, or a list.
unfoldable pub one_or_many : Error → Error → Bytes → List Bytes → Outcome Error (List Bytes)
one_or_many both neither one many =
    if not (beq one []) && ltb 0 (length many)
    then err both
    else if beq one []
    then (if length many == 0 then err neither else ok many)
    else ok (one ∷ [])

unfoldable pub validate_filter_rule : FilterRuleCfg → Outcome Error FilterRule
unfolding one_or_many
validate_filter_rule r =
    if not (beq r.action (codes "accept")) && not (beq r.action (codes "reject"))
    then err invalid_action
    else do
      services ← one_or_many two_services no_service r.service r.services
      org_units ← one_or_many two_org_units no_org_unit r.org_unit r.org_units
      ok (record { services = services; org_units = org_units; action = r.action })

unfoldable pub parse_filter : ℕ → List FilterRuleCfg → Outcome Error (List FilterRule)
unfolding validate_filter_rule
parse_filter i [] = ok []
parse_filter i (r ∷ rs) = do
  rule ← wrap_err (filter_item i) (validate_filter_rule r)
  rest ← parse_filter (i + 1) rs
  ok (rule ∷ rest)

unfoldable pub parse_symlinks : ℕ → List Symlink → Outcome Error (List Symlink)
parse_symlinks i [] = ok []
parse_symlinks i (l ∷ ls) =
    if beq l.path []
    then err (empty_path i)
    else if beq l.target []
    then err (empty_target i)
    else do rest ← parse_symlinks (i + 1) ls; ok (l ∷ rest)

unfoldable pub is_valid_naming_policy_action : Bytes → Bool
is_valid_naming_policy_action a = beq a (codes "allow") || beq a (codes "deny")

unfoldable pub parse_sharing_naming_policies :
    ℕ → List SharingNamingPolicy → Outcome Error (List SharingNamingPolicy)
unfolding is_valid_naming_policy_action
parse_sharing_naming_policies i [] = ok []
parse_sharing_naming_policies i (p ∷ ps) =
    if not (is_valid_naming_policy_action p.action)
    then err (invalid_naming_action i p.action)
    else do rest ← parse_sharing_naming_policies (i + 1) ps; ok (p ∷ rest)

-- The loop over the ACL entries of item `i`.
unfoldable pub check_aces : ℕ → ℕ → List Bytes → Outcome Error (Unit {0})
unfolding matches_ace
check_aces i j [] = ok tt
check_aces i j (ace ∷ acl) =
    if not (matches_ace ace) then err (malformed_acl i j) else check_aces i (j + 1) acl

unfoldable pub parse_sharing_exports : ℕ → List SharingExport → Outcome Error (List SharingExport)
unfolding check_aces
parse_sharing_exports i [] = ok []
parse_sharing_exports i (e ∷ es) = do
  check_aces i 0 e.acl
  rest ← parse_sharing_exports (i + 1) es
  ok (e ∷ rest)

unfoldable pub is_valid_import_action : Bytes → Bool
is_valid_import_action a = beq a (codes "accept") || beq a (codes "reject")

unfoldable pub parse_sharing_imports : ℕ → List SharingImport → Outcome Error (List SharingImport)
unfolding is_valid_import_action
parse_sharing_imports i [] = ok []
parse_sharing_imports i (p ∷ ps) =
    if not (is_valid_import_action p.action)
    then err (invalid_import_action i p.action)
    else do rest ← parse_sharing_imports (i + 1) ps; ok (p ∷ rest)
