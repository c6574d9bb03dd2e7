-- ===== src/Apply/Traversal.antt =====
-- cmd/bcpfs-perms/bcpsharingapply/traversal.go: adding the entries that let groups pass directories.
pub mod Missing
pub mod Ensured
use bcpfs.Prelude.{
  List, [], ◌∷◌, ◌++◌, map, Option, none, some, if◌then◌else◌, Outcome, ok, err, panic, ◌>>=◌,
}
use bcpfs.Prelude.Bytes.{Bytes, codes}
use bcpfs.Prelude.Dict
use bcpfs.Prelude.Dict.{Dict}
use bcpfs.Sharing.{Acl, RealExports}
use bcpfs.Sharing.Bcpfs.{Bcpfs, fs_group_org_unit}
use bcpfs.Sharing.Facl.{Facl, select_named_group_normal_entries}
use bcpfs.Apply.{Set, add_texts, contains}

-- The scripts of exec.go that read and add entries, on the state `S` of the filesystem.
pub record TraversalShell (E S : Type 0) : Type 0 where
  -- getfaclDirPaths(root, paths)
  pub getfacl : Bytes → List Bytes → S → Outcome E (List (Bytes × Facl))
  -- setfaclDirPathsTraversal(root, paths, group)
  pub setfacl : Bytes → List Bytes → Bytes → S → Outcome E S

-- `faclsByPath`
unfoldable pub facls_by_path : List (Bytes × Facl) → Dict Facl → Dict Facl
facls_by_path [] m = m
facls_by_path ((path, acl) ∷ facls) m = facls_by_path facls (Dict.put m path acl)

-- `pathsByGroup[group]`
unfoldable pub paths_of : Dict (List Bytes) → Bytes → List Bytes
paths_of m group = elim (Dict.get m group) [ none ↦ [] | some paths ↦ paths ]

-- `aceStr`
unfoldable pub traversal_text : Bytes → Bytes
traversal_text group = codes "group:" ++ (group ++ codes ":--x")

-- `for _, ace := range tr.Acl`
unfoldable pub add_missing : Bcpfs → Set → Bytes → Acl → Dict (List Bytes) → Dict (List Bytes)
unfolding traversal_text paths_of contains
add_missing fs have path [] m = m
add_missing fs have path (ace ∷ acl) m =
    let group = fs_group_org_unit fs ace.group in
    let skip = add_missing fs have path acl m in
    let add = add_missing fs have path acl (Dict.put m group (paths_of m group ++ path ∷ [])) in
    if contains have (traversal_text group) then skip else add

-- `for _, tr := range traversal`
unfoldable pub paths_by_group :
    Bcpfs → Dict Facl → RealExports → Dict (List Bytes) → Dict (List Bytes)
unfolding add_missing add_texts select_named_group_normal_entries
paths_by_group fs facls [] m = m
paths_by_group fs facls (tr ∷ traversal) m = elim (Dict.get facls tr.path) [
  | none ↦ paths_by_group fs facls traversal m
  | some actual ↦
      paths_by_group fs facls traversal
        (add_missing fs (add_texts (select_named_group_normal_entries actual) []) tr.path tr.acl m)
]

module _ {E S : Type 0} (sh : TraversalShell E S) where
  -- `for fsGroup, paths := range pathsByGroup`
  unfoldable pub set_traversals : Bytes → List (Bytes × List Bytes) → S → Outcome E S
  set_traversals root [] s = ok s
  set_traversals root ((group, paths) ∷ groups) s = do
    s' ← sh.setfacl root paths group s
    set_traversals root groups s'

  -- EnsureTraversal(fs, traversal); `order` is the order in which Go ranges over the map.
  unfoldable pub ensure_traversal :
      (Dict (List Bytes) → List (Bytes × List Bytes)) → Bcpfs → RealExports → S → Outcome E S
  unfolding set_traversals paths_by_group facls_by_path
  ensure_traversal order fs traversal s = do
    facls ← sh.getfacl fs.rootdir (map (λ tr. tr.path) traversal) s
    set_traversals fs.rootdir (order (paths_by_group fs (facls_by_path facls []) traversal [])) s
