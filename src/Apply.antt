-- ===== src/Apply.antt =====
-- cmd/bcpfs-perms/bcpsharingapply/real-shares.go: applying the ACLs of the real shares.
pub mod Facls
pub mod ShareTrees
pub mod Traversal
use bcpfs.Prelude.{
  ℕ, List, [], ◌∷◌, ◌++◌, map, Bool, true, false, not, ltb, length, Option, none, some,
  if◌then◌else◌, Outcome, ok, err, panic, ◌>>=◌,
}
use bcpfs.Prelude.Bytes.{Bytes, codes}
use bcpfs.Prelude.Sort.{sort_by}
use bcpfs.Prelude.Dict
use bcpfs.Prelude.Dict.{Dict}
use bcpfs.Sharing.{RealExports, ExportEntry}
use bcpfs.Sharing.Bcpfs.{Bcpfs, fs_groups}
use bcpfs.Sharing.Facl.{
  Facl, FaclAce, as_facl, select_named_group_entries, ace_text, group_name, ace_without_x,
}

-- A set of texts: a map to `struct{}{}`.
abbrev pub Set : Type 0
Set = Dict (Unit {0})

-- `have[ace.String()] = struct{}{}`
unfoldable pub add_texts : Facl → Set → Set
add_texts [] have = have
add_texts (ace ∷ facl) have = add_texts facl (Dict.put have (ace_text ace) tt)

unfoldable pub contains : Set → Bytes → Bool
contains have text = elim (Dict.get have text) [ none ↦ false | some _ ↦ true ]

-- The loop over `desired`.
unfoldable pub misses : Set → Facl → Bool
unfolding contains
misses have [] = false
misses have (ace ∷ desired) =
    let rest = misses have desired in
    if not (contains have (ace_text ace))
    then true
    else if not (contains have (codes "default:" ++ ace_text ace))
    then true
    else rest

-- faclNeedModify(actual, desired)
unfoldable pub facl_need_modify : Facl → Facl → Bool
unfolding misses add_texts
facl_need_modify actual desired = misses (add_texts (select_named_group_entries actual) []) desired

unfoldable pub add_groups_of : Facl → Set → Set
add_groups_of [] groups = groups
add_groups_of (ace ∷ facl) groups = add_groups_of facl (Dict.put groups (group_name ace) tt)

-- `delete(gSet, ace.GroupName())`
unfoldable pub delete_groups_of : Facl → Set → Set
delete_groups_of [] groups = groups
delete_groups_of (ace ∷ facl) groups = delete_groups_of facl (Dict.remove groups (group_name ace))

unfoldable pub delete_all : List Bytes → Set → Set
delete_all [] groups = groups
delete_all (g ∷ gs) groups = delete_all gs (Dict.remove groups g)

-- faclGroupsToRemove(actual, desired, additionalGroups)
unfoldable pub facl_groups_to_remove : Facl → Facl → List Bytes → List Bytes
unfolding add_groups_of delete_groups_of delete_all
facl_groups_to_remove actual desired additional =
    let have = add_groups_of (select_named_group_entries actual) [] in
    let left = delete_groups_of (select_named_group_entries desired) have in
    sort_by (λ g. g) (map (λ e. e.0) (delete_all additional left))

-- The commands of exec.go that run `setfacl`, on the state `S` of the filesystem.
pub record Shell (E S : Type 0) : Type 0 where
  -- setfaclDirSubdirModify(root, path, dirs, files)
  pub modify : Bytes → Bytes → List Bytes → List Bytes → S → Outcome E S
  -- setfaclDirSubdirRemove(root, path, entries)
  pub remove : Bytes → Bytes → List Bytes → S → Outcome E S

-- `modifyDirs`, `modifyFiles` and `setfaclRm`
unfoldable pub modify_dirs : Facl → List Bytes
modify_dirs [] = []
modify_dirs (ace ∷ desired) =
    ace_text ace ∷ (codes "default:" ++ ace_text ace) ∷ modify_dirs desired

unfoldable pub modify_files : Facl → List Bytes
modify_files desired = map (λ ace. ace_text (ace_without_x ace)) desired

unfoldable pub setfacl_rm : List Bytes → List Bytes
setfacl_rm [] = []
setfacl_rm (g ∷ gs) = (codes "group:" ++ g) ∷ (codes "default:group:" ++ g) ∷ setfacl_rm gs

module _ {E S : Type 0} (sh : Shell E S) where
  -- ensureFacl(root, path, actual, desired, additionalGroups)
  unfoldable pub ensure_facl : Bytes → Bytes → Facl → Facl → List Bytes → S → Outcome E S
  unfolding modify_dirs modify_files setfacl_rm facl_need_modify facl_groups_to_remove
  ensure_facl root path actual desired additional s = do
    s' ←
        if facl_need_modify actual desired
        then sh.modify root path (modify_dirs desired) (modify_files desired) s
        else ok s
    let remove_groups = facl_groups_to_remove actual desired additional
    if ltb 0 (length remove_groups)
        then sh.remove root path (setfacl_rm remove_groups) s'
        else ok s'

  -- The loop of EnsureRealShares(fs, realShares) over the ACLs that `getfacl` has found.
  unfoldable pub ensure_real_shares : Bcpfs → Dict Facl → RealExports → S → Outcome E S
  unfolding ensure_facl
  ensure_real_shares fs facls [] s = ok s
  ensure_real_shares fs facls (rs ∷ shares) s = elim (Dict.get facls rs.path) [
    | none ↦ ensure_real_shares fs facls shares s
    | some actual ↦ do
      additional ← fs_groups fs rs.managing_groups
      s' ← ensure_facl fs.rootdir rs.path actual (as_facl fs rs.acl) additional s
      ensure_real_shares fs facls shares s'
  ]
