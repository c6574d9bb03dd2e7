-- ===== src/Sharing/Facl.antt =====
-- cmd/bcpfs-perms/bcpsharing/facl.go: ACLs of files, with the groups of the filesystem.
use bcpfs.Prelude.{
  ◌-◌, List, [], ◌∷◌, ◌++◌, map, Bool, not, ◌&&◌, ◌||◌, length, get_or, if◌then◌else◌,
}
use bcpfs.Prelude.Bytes.{Bytes, codes, beq, has_prefix, split}
use bcpfs.Sharing.{AceMode, Acl}
use bcpfs.Sharing.Acl.{without_x}
use bcpfs.Sharing.Bcpfs.{Bcpfs, fs_group_org_unit}

pub record FaclAce : Type 0 where
  pub tag : Bytes
  pub mode : AceMode

abbrev pub Facl : Type 0
Facl = List FaclAce

abbrev pub group_tag : Bytes
group_tag = codes "group:"

abbrev pub default_group_tag : Bytes
default_group_tag = codes "default:group:"

-- (acl Acl) AsFacl(fs)
unfoldable pub as_facl : Bcpfs → Acl → Facl
as_facl fs acl =
    map (λ ace. record { tag = group_tag ++ fs_group_org_unit fs ace.group; mode = ace.mode }) acl

-- (ace FaclAce) IsNamedGroupNormal(), IsNamedGroupDefault(), IsNamedGroup()
unfoldable pub is_named_group_normal : FaclAce → Bool
is_named_group_normal ace = has_prefix ace.tag group_tag && not (beq ace.tag group_tag)

unfoldable pub is_named_group_default : FaclAce → Bool
is_named_group_default ace =
    has_prefix ace.tag default_group_tag && not (beq ace.tag default_group_tag)

unfoldable pub is_named_group : FaclAce → Bool
unfolding is_named_group_normal is_named_group_default
is_named_group ace = is_named_group_normal ace || is_named_group_default ace

-- (facl Facl) SelectNamedGroupEntries()
unfoldable pub select_named_group_entries : Facl → Facl
unfolding is_named_group
select_named_group_entries [] = []
select_named_group_entries (ace ∷ facl) =
    let rest = select_named_group_entries facl in if is_named_group ace then ace ∷ rest else rest

-- (facl Facl) SelectNamedGroupNormalEntries()
unfoldable pub select_named_group_normal_entries : Facl → Facl
unfolding is_named_group_normal
select_named_group_normal_entries [] = []
select_named_group_normal_entries (ace ∷ facl) =
    let rest = select_named_group_normal_entries facl in
    if is_named_group_normal ace then ace ∷ rest else rest

-- `string(ace.Mode)`
unfoldable pub mode_text : AceMode → Bytes
mode_text m = m.first ∷ m.second ∷ m.third ∷ []

-- (ace FaclAce) String()
unfoldable pub ace_text : FaclAce → Bytes
unfolding mode_text
ace_text ace = ace.tag ++ codes ":" ++ mode_text ace.mode

-- (ace FaclAce) GroupName()
unfoldable pub group_name : FaclAce → Bytes
group_name ace = let fields = split ace.tag b':' in get_or fields (length fields - 1) []

-- (ace FaclAce) WithoutX()
unfoldable pub ace_without_x : FaclAce → FaclAce
ace_without_x ace = record ace { mode = without_x ace.mode }
