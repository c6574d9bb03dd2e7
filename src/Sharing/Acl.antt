-- ===== src/Sharing/Acl.antt =====
-- cmd/bcpfs-perms/bcpsharing/bcpsharing.go: ACLs and their union.
pub mod Grants
use bcpfs.Prelude.{ℕ, suc, ◌+◌, List, [], ◌∷◌, map, Bool, ◌||◌, ◌==◌, if◌then◌else◌, length}
use bcpfs.Prelude.Bytes.{Bytes, codes, beq}
use bcpfs.Prelude.Dict
use bcpfs.Prelude.Dict.{Dict}
use bcpfs.Prelude.Indexed.{Indexed, upsert}
use bcpfs.Sharing.{AceMode, Ace, Acl}

unfoldable pub union_code : ℕ → ℕ → ℕ → ℕ
union_code a b code = if a == code || b == code then code else b'-'

-- (a Ace) UnionMode(b Ace)
unfoldable pub union_mode : Ace → Ace → AceMode
unfolding union_code
union_mode a b = record {
  first = union_code a.mode.first b.mode.first b'r';
  second = union_code a.mode.second b.mode.second b'w';
  third = union_code a.mode.third b.mode.third b'x';
}

-- `for i, ace := range u { uByGroup[ace.Group] = i }`: a later entry of a group wins.
unfoldable pub index_groups : ℕ → Acl → Dict ℕ → Dict ℕ
index_groups i [] index = index
index_groups i (ace ∷ u) index = index_groups (i + 1) u (Dict.put index ace.group i)

-- The loop that merges `b`.
unfoldable pub merge : Acl → Indexed Ace → Indexed Ace
merge [] u = u
merge (ace ∷ b) u =
    merge b (upsert ace.group (λ old. record old { mode = union_mode old ace }) ace u)

-- (a Acl) Union(b Acl)
unfoldable pub union : Acl → Acl → Acl
unfolding index_groups merge upsert Dict.get Dict.put union_mode
union a b = (merge b (record { items = a; index = index_groups 0 a [] })).items

-- (acl Acl) Groups()
unfoldable pub groups : Acl → List Bytes
groups acl = map (λ ace. ace.group) acl

abbrev traversal_mode : AceMode
traversal_mode = record { first = b'-'; second = b'-'; third = b'x' }

-- NewTraversalAclWithGroups(gs)
unfoldable pub new_traversal_acl_with_groups : List Bytes → Acl
new_traversal_acl_with_groups gs = map (λ g. record { group = g; mode = traversal_mode }) gs

-- (m AceMode) WithoutX()
unfoldable pub without_x : AceMode → AceMode
without_x m = record m { third = b'-' }
