-- ===== src/Fsck.antt =====
-- cmd/bcpfs-perms/fsck/: the entries that a check expects below the root dir.
pub mod Expected
pub mod Text
pub mod Foreign
pub mod Own
pub mod Kept
pub mod Passed
use bcpfs.Prelude.{ℕ, List, [], ◌∷◌, ◌++◌, Bool, true, false, not, ◌&&◌, ◌||◌, if◌then◌else◌}
use bcpfs.Prelude.Bytes.{Bytes, codes, beq}
use bcpfs.SlashPath.{path_join}
use bcpfs.Grp.{Group}
use bcpfs.Org.{
  AccessPolicy, DirPolicy, group_policy, owner_policy, manager_policy, DirWithPolicy, Service,
  OrgUnit, Organization,
}

-- The implementations of the interface `ACL`; every owner is root.
pub data Acl : Type 0 where
  simple : Bytes → Bytes → Bytes → Acl
  service : ℕ → ℕ → ℕ → AccessPolicy → Acl
  service_org_unit : ℕ → ℕ → ℕ → ℕ → Acl
  org_unit : ℕ → Acl
  subdir_group subdir_owner subdir_manager : ℕ → Acl

-- `NamedGids()` of each implementation.
unfoldable pub named_gids : Acl → List ℕ
named_gids (simple user group other) = []
named_gids (service gid ops_gid super_gid access) = gid ∷ ops_gid ∷ super_gid ∷ []
named_gids (service_org_unit ou_gid ops_gid srv_gid super_gid) =
    ou_gid ∷ srv_gid ∷ ops_gid ∷ super_gid ∷ []
named_gids (org_unit gid) = gid ∷ []
named_gids (subdir_group gid) = gid ∷ []
named_gids (subdir_owner gid) = gid ∷ []
named_gids (subdir_manager gid) = gid ∷ []

-- `Entry`: a directory with its ACL, or a symlink with its target.
pub data Entry : Type 0 where
  dir : Bytes → Acl → Entry
  link : Bytes → Bytes → Entry

abbrev pub entry_path : Entry → Bytes
entry_path (dir path acl) = path
entry_path (link path target) = path

-- What both trees are made of. `accept` is the `filter`.
pub record Tree : Type 0 where
  pub root : Bytes
  pub service_dir : Bytes
  pub services : List Service
  pub org_units : List OrgUnit
  pub accept : Service → OrgUnit → Bool

-- ServiceDirsList()
unfoldable pub service_dirs_list : Bytes → List Service → List Entry
service_dirs_list root [] = []
service_dirs_list root (s ∷ ss) =
    dir (path_join (root ∷ s.name ∷ []))
      (service s.service_group.gid s.service_ops_group.gid s.super_group.gid s.access)
    ∷ service_dirs_list root ss

-- `appendSOU(s, ou)`
unfoldable pub sou_entry : Bytes → Service → OrgUnit → Entry
sou_entry root s ou = dir (path_join (root ∷ s.name ∷ ou.name ∷ [])) (
    service_org_unit ou.org_unit_group.gid s.service_ops_group.gid s.service_group.gid
      s.super_group.gid)

-- The inner loop of ServiceOrgUnitDirsList().
unfoldable pub sou_entries : Tree → Service → List OrgUnit → List Entry
unfolding sou_entry
sou_entries st s [] = []
sou_entries st s (ou ∷ ous) =
    let rest = sou_entries st s ous in
    if st.accept s ou then sou_entry st.root s ou ∷ rest else rest

unfoldable pub service_org_unit_dirs_list : Tree → List Service → List Entry
unfolding sou_entries
service_org_unit_dirs_list st [] = []
service_org_unit_dirs_list st (s ∷ ss) =
    sou_entries st s st.org_units ++ service_org_unit_dirs_list st ss

-- OrgUnitDirsList()
unfoldable pub org_unit_dirs_list : Bytes → List OrgUnit → List Entry
org_unit_dirs_list root [] = []
org_unit_dirs_list root (o ∷ os) =
    dir (path_join (root ∷ o.name ∷ [])) (org_unit o.org_unit_group.gid)
    ∷ org_unit_dirs_list root os

-- `serviceIsOfFacility(ou, s)`
unfoldable pub service_is_of_facility : OrgUnit → Service → Bool
service_is_of_facility ou s = ou.is_facility && beq s.facility ou.facility

-- The target of `appendOUSLn(ou, s)`.
unfoldable pub link_dest : Bytes → OrgUnit → Service → Bytes
unfolding service_is_of_facility
link_dest service_dir ou s =
    let dest = path_join (codes "../.." ∷ service_dir ∷ s.name ∷ []) in
    if not (service_is_of_facility ou s) then path_join (dest ∷ ou.name ∷ []) else dest

-- The inner loop of OrgUnitServiceLinksList().
unfoldable pub ou_links : Tree → OrgUnit → List Service → List Entry
unfolding link_dest
ou_links ot ou [] = []
ou_links ot ou (s ∷ ss) =
    let rest = ou_links ot ou ss in
    if ot.accept s ou
    then link (path_join (ot.root ∷ ou.name ∷ s.name ∷ [])) (link_dest ot.service_dir ou s) ∷ rest
    else rest

unfoldable pub org_unit_service_links_list : Tree → List OrgUnit → List Entry
unfolding ou_links
org_unit_service_links_list ot [] = []
org_unit_service_links_list ot (ou ∷ ous) =
    ou_links ot ou ot.services ++ org_unit_service_links_list ot ous

-- The ACL of `appendSubdir(o, d)`; the type has no other policy, for which the code panics.
unfoldable pub subdir_acl : DirPolicy → ℕ → Acl
subdir_acl group_policy gid = subdir_group gid
subdir_acl owner_policy gid = subdir_owner gid
subdir_acl manager_policy gid = subdir_manager gid

-- The inner loop of OrgUnitSubdirsList().
unfoldable pub subdir_entries : Bytes → OrgUnit → List DirWithPolicy → List Entry
unfolding subdir_acl
subdir_entries root o [] = []
subdir_entries root o (d ∷ ds) =
    dir (path_join (root ∷ o.name ∷ d.name ∷ [])) (subdir_acl d.policy o.org_unit_group.gid)
    ∷ subdir_entries root o ds

unfoldable pub org_unit_subdirs_list : Bytes → List OrgUnit → List Entry
unfolding subdir_entries
org_unit_subdirs_list root [] = []
org_unit_subdirs_list root (o ∷ os) =
    subdir_entries root o o.subdirs ++ org_unit_subdirs_list root os
