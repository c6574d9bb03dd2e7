-- ===== src/Tests/Checks.antt =====
-- The theorems on the check of ACLs at concrete inputs.
use Prim.Native.Nat.{◌<◌}
use bcpfs.Prelude.{
  ◌≡◌, refl, ℕ, ◌^◌, List, [], ◌∷◌, ◌++◌, true, false, not, any, ◌==◌, All, some, ok, arith,
}
use bcpfs.Prelude.Bytes.{Bytes, codes, join}
use bcpfs.Fsck.{Acl, org_unit, named_gids}
use bcpfs.Fsck.Text.{
  one_group, rx, header, sgid_header, newline, gid_line, acl_header, acl_entries,
  is_other_named_group_entry, check_acl,
}
use bcpfs.Fsck.Foreign.{tag_of, is_other_named_group_entry_lem}
use bcpfs.Fsck.Kept.{Widened, none_left, kept, foreign, check_acl-Widened}

-- The gid 10 is part of 100 in decimal.
is_other_named_group_entry_lem_example :
    is_other_named_group_entry (gid_line (tag_of true) 10 (codes "r-x")) (100 ∷ 20 ∷ [])
    ≡ not (any (λ h. 10 == h) (100 ∷ 20 ∷ []))
is_other_named_group_entry_lem_example =
    is_other_named_group_entry_lem true 10 (codes "r-x") (100 ∷ 20 ∷ []) refl (omega arith)
      (omega arith, (omega arith, tt))

-- An org unit's directory, whose ACL is widened by a sharing with the group 10.
abbrev bob_acl : Acl
bob_acl = org_unit 100

abbrev bob_entries : List Bytes
bob_entries = one_group 100 rx rx

abbrev bob_lines : List Bytes
bob_lines = sgid_header 100 ++ gid_line (tag_of false) 10 rx ∷ bob_entries

bob_gids : All (λ h. h < 2 ^ 64) (named_gids bob_acl)
unfolding named_gids
bob_gids = (omega arith, tt)

bob_has_entries : acl_entries {E = Unit} bob_acl ≡ ok bob_entries
unfolding acl_entries
bob_has_entries = refl

all_kept : (gids : List ℕ) (lines : List Bytes) → Widened gids lines lines
all_kept gids [] = none_left
all_kept gids (l ∷ lines) = kept l (all_kept gids lines)

bob-Widened : Widened (named_gids bob_acl) (acl_header bob_acl ++ bob_entries) bob_lines
unfolding acl_header sgid_header header named_gids
bob-Widened = kept _ (
    kept _ (kept _ (foreign false 10 rx refl (omega arith) refl (all_kept (100 ∷ []) bob_entries))))

abbrev bob_path : Bytes
bob_path = codes "/orgfs/org/ag-bob"

check_acl-Widened_example :
    check_acl {E = Unit}
      (λ path. some (join ((codes "# file: " ++ bob_path) ∷ bob_lines) newline))
      bob_path
      bob_acl
    ≡ ok true
check_acl-Widened_example =
    check_acl-Widened {E = Unit}
      (λ path. some (join ((codes "# file: " ++ bob_path) ∷ bob_lines) newline)) bob_path bob_acl
      bob_entries bob_lines refl (omega arith) bob_gids bob_has_entries bob-Widened refl
