-- ===== src/Fsck/Text.antt =====
-- cmd/bcpfs-perms/fsck/acl.go: the text of the ACLs, and the check against what `getfacl` prints.
use bcpfs.Prelude.{
  ℕ, List, [], ◌∷◌, ◌++◌, Bool, true, false, not, leb, ◌&&◌, any, Option, none, some, if◌then◌else◌,
  Outcome, ok, panic, ◌>>=◌,
}
use bcpfs.Prelude.Bytes.{Bytes, codes, beq, contains, split, join}
use bcpfs.Prelude.Decimal.{decimal}
use bcpfs.Org.{AccessPolicy, is_per_service, is_all_org_units}
use bcpfs.Fsck.{
  Acl, simple, service, service_org_unit, org_unit, subdir_group, subdir_owner, subdir_manager,
  named_gids, Entry, dir, link,
}

abbrev pub newline : ℕ
newline = 10

-- `group:%d:r-x` and its like: a tag, a gid and permissions.
unfoldable pub gid_line : Bytes → ℕ → Bytes → Bytes
gid_line tag gid perms = tag ++ (decimal gid ++ (b':' ∷ perms))

abbrev pub group_tag : Bytes
group_tag = codes "group:"

abbrev pub default_tag : Bytes
default_tag = codes "default:group:"

-- `# owner: %d` for root, and `# group: %d`.
unfoldable pub header : ℕ → List Bytes
header gid = codes "# owner: 0" ∷ (codes "# group: " ++ decimal gid) ∷ []

-- The header of a directory with the SGID bit.
unfoldable pub sgid_header : ℕ → List Bytes
unfolding header
sgid_header gid = header gid ++ codes "# flags: -s-" ∷ []

-- `gids[0], gids[1]` after `sort.Ints(gids)`
unfoldable pub first_gid : ℕ → ℕ → ℕ
first_gid a b = if leb a b then a else b

unfoldable pub second_gid : ℕ → ℕ → ℕ
second_gid a b = if leb a b then b else a

-- An ACL with one or two named groups, and the default entries with the permissions `dflt`.
abbrev pub one_group : ℕ → Bytes → Bytes → List Bytes
one_group gid perms dflt =
    codes "user::rwx"
    ∷ codes "group::---"
    ∷ gid_line group_tag gid perms
    ∷ (codes "mask::" ++ perms)
    ∷ codes "other::---"
    ∷ codes "default:user::rwx"
    ∷ codes "default:group::---"
    ∷ gid_line default_tag gid dflt
    ∷ (codes "default:mask::" ++ dflt)
    ∷ codes "default:other::---"
    ∷ []

abbrev pub two_groups : ℕ → ℕ → Bytes → List Bytes
two_groups gid gid' perms =
    codes "user::rwx"
    ∷ codes "group::---"
    ∷ gid_line group_tag gid perms
    ∷ gid_line group_tag gid' perms
    ∷ (codes "mask::" ++ perms)
    ∷ codes "other::---"
    ∷ codes "default:user::rwx"
    ∷ codes "default:group::---"
    ∷ gid_line default_tag gid perms
    ∷ gid_line default_tag gid' perms
    ∷ (codes "default:mask::" ++ perms)
    ∷ codes "default:other::---"
    ∷ []

abbrev pub rwx : Bytes
rwx = codes "rwx"

abbrev pub rx : Bytes
rx = codes "r-x"

-- The lines of FACLString() above and below the end of the header.
unfoldable pub acl_header : Acl → List Bytes
unfolding header sgid_header
acl_header (simple user group other) = header 0
acl_header (service gid ops_gid super_gid access) = header gid
acl_header (service_org_unit ou_gid ops_gid srv_gid super_gid) = sgid_header ou_gid
acl_header (org_unit gid) = sgid_header gid
acl_header (subdir_group gid) = sgid_header gid
acl_header (subdir_owner gid) = sgid_header gid
acl_header (subdir_manager gid) = sgid_header gid

-- The lines below, of each implementation.
abbrev simple_entries : Bytes → Bytes → Bytes → List Bytes
simple_entries user group other =
    (codes "user::" ++ user) ∷ (codes "group::" ++ group) ∷ (codes "other::" ++ other) ∷ []

abbrev service_entries : {E : Type 0} → ℕ → ℕ → ℕ → AccessPolicy → Outcome E (List Bytes)
service_entries gid ops_gid super_gid access =
    if is_per_service access
    then ok (two_groups (first_gid gid ops_gid) (second_gid gid ops_gid) rx)
    else if is_all_org_units access
    then ok (one_group super_gid rx rx)
    else panic

abbrev service_org_unit_entries : ℕ → ℕ → List Bytes
service_org_unit_entries ou_gid ops_gid =
    two_groups (first_gid ou_gid ops_gid) (second_gid ou_gid ops_gid) rwx

abbrev org_unit_entries : ℕ → List Bytes
org_unit_entries gid = one_group gid rx rx

abbrev subdir_group_entries : ℕ → List Bytes
subdir_group_entries gid = one_group gid rwx rwx

abbrev subdir_owner_entries : ℕ → List Bytes
subdir_owner_entries gid = one_group gid rwx rx

abbrev subdir_manager_entries : ℕ → List Bytes
subdir_manager_entries gid = one_group gid rx rx

unfoldable pub acl_entries : {E : Type 0} → Acl → Outcome E (List Bytes)
unfolding gid_line first_gid second_gid is_per_service is_all_org_units
acl_entries (simple user group other) = ok (simple_entries user group other)
acl_entries (service gid ops_gid super_gid access) = service_entries gid ops_gid super_gid access
acl_entries (service_org_unit ou_gid ops_gid srv_gid super_gid) =
    ok (service_org_unit_entries ou_gid ops_gid)
acl_entries (org_unit gid) = ok (org_unit_entries gid)
acl_entries (subdir_group gid) = ok (subdir_group_entries gid)
acl_entries (subdir_owner gid) = ok (subdir_owner_entries gid)
acl_entries (subdir_manager gid) = ok (subdir_manager_entries gid)

-- FACLString() of each implementation.
unfoldable pub facl_string : {E : Type 0} → Acl → Outcome E Bytes
unfolding acl_header acl_entries
facl_string acl = do entries ← acl_entries acl; ok (join (acl_header acl ++ entries) newline)

-- isNamedGroupEntry(l)
unfoldable pub is_named_group_entry : Bytes → Bool
is_named_group_entry l =
    if contains l (codes "# ")
    then false
    else if contains l (codes "group::")
    then false
    else contains l (codes "group:")

-- isOtherNamedGroupEntry(l, gids)
unfoldable pub is_other_named_group_entry : Bytes → List ℕ → Bool
unfolding is_named_group_entry gid_line
is_other_named_group_entry l gids =
    if not (is_named_group_entry l)
    then false
    else not (any (λ gid. contains l (gid_line group_tag gid [])) gids)

-- The loop of rejectOtherNamedGroupEntries(facl, gids).
unfoldable pub keep_lines : List Bytes → List ℕ → List Bytes
unfolding is_other_named_group_entry
keep_lines [] gids = []
keep_lines (line ∷ lines) gids =
    let rest = keep_lines lines gids in
    if is_other_named_group_entry line gids then rest else line ∷ rest

unfoldable pub reject_other_named_group_entries : Bytes → List ℕ → Bytes
unfolding keep_lines
reject_other_named_group_entries facl gids = join (keep_lines (split facl newline) gids) newline

-- `expected` of CheckACLs().
unfoldable pub expected_text : {E : Type 0} → Bytes → Acl → Outcome E Bytes
unfolding facl_string
expected_text path acl = do
  text ← facl_string acl
  ok (codes "# file: " ++ (path ++ (newline ∷ text)))

-- One round of the loop of CheckACLs(); `none` is an error of `getfacl`.
unfoldable pub check_acl : {E : Type 0} → (Bytes → Option Bytes) → Bytes → Acl → Outcome E Bool
unfolding reject_other_named_group_entries expected_text
check_acl getfacl path acl = elim (getfacl path) [
  | none ↦ ok false
  | some facl ↦ do
    expected ← expected_text path acl
    ok (beq (reject_other_named_group_entries facl (named_gids acl)) expected)
]

-- CheckACLs(entries)
unfoldable pub check_acls : {E : Type 0} → (Bytes → Option Bytes) → List Entry → Outcome E Bool
unfolding check_acl
check_acls getfacl [] = ok true
check_acls getfacl (link path target ∷ entries) = check_acls getfacl entries
check_acls getfacl (dir path acl ∷ entries) = do
  good ← check_acl getfacl path acl
  rest ← check_acls getfacl entries
  ok (good && rest)
