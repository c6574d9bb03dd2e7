-- ===== src/Fsck/Kept.antt =====
-- cmd/bcpfs-perms/fsck/acl.go: `getfacl` text with further named groups passes the check.
use Prim.Native.Nat.{◌<◌}
use bcpfs.Prelude.{
  ℕ, ◌^◌, ◌≡◌, refl, ap, ◌∙◌, List, [], ◌∷◌, ◌++◌, Bool, true, false, ◌&&◌, ◌==◌, any, all, All,
  some, arith, ok, Option,
}
use bcpfs.Prelude.Bytes.{Bytes, codes, beq_refl, has_prefix, contains, split, join, Lacks}
use bcpfs.SlashPath.Names.{split-join}
use bcpfs.Fsck.{
  Acl, simple, service, service_org_unit, org_unit, subdir_group, subdir_owner, subdir_manager,
  named_gids,
}
use bcpfs.Fsck.Text.{
  newline, gid_line, header, sgid_header, acl_header, acl_entries, facl_string,
  is_named_group_entry, is_other_named_group_entry, keep_lines, reject_other_named_group_entries,
  expected_text, check_acl,
}
use bcpfs.Fsck.Foreign.{is_perms, without, without-append, tag_of, is_other_named_group_entry_lem}
use bcpfs.Fsck.Own.{own, own_acl, IsExpected, gid_line-without, without-Lacks}

-- The lines of an ACL with further lines for groups that are none of `gids`.
pub data Widened (gids : List ℕ) : List Bytes → List Bytes → Type 0 where
  none_left : Widened gids [] []
  kept :
      {expected actual : List Bytes} (l : Bytes)
      → Widened gids expected actual
      → Widened gids (l ∷ expected) (l ∷ actual)
  foreign :
      {expected actual : List Bytes} (dflt : Bool) (g : ℕ) (perms : Bytes)
      → is_perms perms ≡ true
      → g < 2 ^ 64
      → any (λ h. g == h) gids ≡ false
      → Widened gids expected actual
      → Widened gids expected (gid_line (tag_of dflt) g perms ∷ actual)

keep_lines-Widened :
    {gids : List ℕ} {expected actual : List Bytes}
    → All (λ h. h < 2 ^ 64) gids
    → Widened gids expected actual
    → all (own gids) expected ≡ true
    → (keep_lines actual gids ≡ expected) × (all (without newline) actual ≡ true)
unfolding keep_lines
keep_lines-Widened bs none_left h = (refl, refl)
keep_lines-Widened {gids} bs (kept {expected} {actual} l w) h =
    let (e, c) = keep_lines-Widened bs w (ground arith) in
    let own_l : is_other_named_group_entry l gids ≡ false = ground arith in
    (rw (own_l, e) refl, ground arith)
keep_lines-Widened {gids} bs (foreign {expected} {actual} dflt g perms ep bg out w) h =
    let (e, c) = keep_lines-Widened bs w h in
    (
      rw (is_other_named_group_entry_lem dflt g perms gids ep bg bs, out) e,
      rw (gid_line-without dflt g perms ep) c,
    )

all-Lacks : (ls : List Bytes) → all (without newline) ls ≡ true → All (Lacks newline) ls
all-Lacks [] h = tt
all-Lacks (l ∷ ls) h = (without-Lacks l (ground arith), all-Lacks ls (ground arith))

all-append : (p : Bytes → Bool) (a b : List Bytes) → all p (a ++ b) ≡ (all p a && all p b)
all-append p [] b = refl
all-append p (l ∷ a) b = ground (arith, all-append p a b)

-- The text of an expected ACL, after the line with the path.
join-header :
    (path : Bytes) (acl : Acl) (entries : List Bytes)
    → join ((codes "# file: " ++ path) ∷ (acl_header acl ++ entries)) newline
      ≡ codes "# file: " ++ (path ++ (newline ∷ join (acl_header acl ++ entries) newline))
unfolding join acl_header header sgid_header
join-header path (simple user group other) entries = refl
join-header path (service gid ops_gid super_gid access) entries = refl
join-header path (service_org_unit ou_gid ops_gid srv_gid super_gid) entries = refl
join-header path (org_unit gid) entries = refl
join-header path (subdir_group gid) entries = refl
join-header path (subdir_owner gid) entries = refl
join-header path (subdir_manager gid) entries = refl

-- The line with the path is kept.
file_line :
    (path : Bytes) (gids : List ℕ)
    → is_other_named_group_entry (codes "# file: " ++ path) gids ≡ false
unfolding is_other_named_group_entry is_named_group_entry contains has_prefix
file_line path gids = refl

text_of :
    {E : Type 0} (path : Bytes) (acl : Acl) (entries : List Bytes)
    → acl_entries {E = E} acl ≡ ok entries
    → expected_text {E = E} path acl
      ≡ ok (codes "# file: " ++ (path ++ (newline ∷ join (acl_header acl ++ entries) newline)))
unfolding expected_text facl_string
text_of path acl entries he = rw (he) refl

-- For a path of one line and an ACL that CheckPermissions() expects: the check accepts what
-- `getfacl` prints if these are the lines of the expected ACL, in order, with any further entries
-- between them for named groups other than those that the check looks at.
pub check_acl-Widened :
    {E : Type 0} (getfacl : Bytes → Option Bytes) (path : Bytes) (acl : Acl)
    (entries actual : List Bytes)
    → without newline path ≡ true
    → IsExpected acl
    → All (λ h. h < 2 ^ 64) (named_gids acl)
    → acl_entries {E = E} acl ≡ ok entries
    → Widened (named_gids acl) (acl_header acl ++ entries) actual
    → getfacl path ≡ some (join ((codes "# file: " ++ path) ∷ actual) newline)
    → check_acl {E = E} getfacl path acl ≡ ok true
unfolding reject_other_named_group_entries keep_lines check_acl
check_acl-Widened {E} getfacl path acl entries actual hp ha bs he w hg =
    let (oh, oe) = own_acl acl entries ha he in
    let own_all : all (own (named_gids acl)) (acl_header acl ++ entries) ≡ true =
      all-append (own (named_gids acl)) (acl_header acl) entries ∙ rw (oh, oe) refl in
    let (kept_lines, clean) = keep_lines-Widened bs w own_all in
    let file = codes "# file: " ++ path in
    let clean_file : without newline file ≡ true =
      without-append newline (codes "# file: ") path ∙ hp in
    let lines : split (join (file ∷ actual) newline) newline ≡ file ∷ actual =
      split-join (file ∷ actual) newline (λ e. cc e)
        (all-Lacks (file ∷ actual) (rw clean_file clean)) in
    let text = join (file ∷ actual) newline in
    let goal = codes "# file: " ++ (path ++ (newline ∷ join (acl_header acl ++ entries) newline)) in
    let left : reject_other_named_group_entries text (named_gids acl) ≡ goal =
      ap (λ l. join (keep_lines l (named_gids acl)) newline) lines
      ∙ rw (file_line path (named_gids acl)) (ap (λ l. join (file ∷ l) newline) kept_lines)
      ∙ join-header path acl entries in
    let want : expected_text {E = E} path acl ≡ ok goal = text_of path acl entries he in
    rw (hg, check_acl) (rw (want, left, beq_refl goal) refl)
