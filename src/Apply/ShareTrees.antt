-- ===== src/Apply/ShareTrees.antt =====
-- cmd/bcpfs-perms/bcpsharingapply/share-trees.go: applying the shared trees.
pub mod Order
pub mod Settled
use bcpfs.Prelude.{
  ℕ, ◌+◌, List, [], ◌∷◌, ◌++◌, Bool, true, false, not, any, Option, none, some, if◌then◌else◌,
  Outcome, ok, err, panic, ◌>>=◌, drop, length, ltb,
}
use bcpfs.Prelude.Bytes.{Bytes, codes, beq}
use mathlib.Core.List.{reverse}
use bcpfs.Prelude.Sort.{sort_by}
use bcpfs.Prelude.Dict
use bcpfs.Prelude.Dict.{Dict}
use bcpfs.SlashPath.{path_join}
use bcpfs.Sharing.Bcpfs.{Bcpfs}
use bcpfs.Sharing.ShareTrees.{ShareFile, ShareTree, ShareTrees, is_dir, is_symlink}
use bcpfs.Apply.{Set, contains}

-- What `os.FileInfo` tells of a file; the target that `os.Readlink()` gives for a symlink, which may fail.
pub data FileInfo (E : Type 0) : Type 0 where
  a_dir a_file : FileInfo E
  a_symlink : Outcome E Bytes → FileInfo E

-- The filesystem, in a state `S`.
pub record Files (E S : Type 0) : Type 0 where
  -- filepath.Walk(root, …): the paths in the order of the calls of the function
  pub walk : Bytes → S → Outcome E (List (Bytes × FileInfo E))
  pub remove : Bytes → S → Outcome E S
  pub mkdir : Bytes → S → Outcome E S
  -- os.Symlink(target, path)
  pub symlink : Bytes → Bytes → S → Outcome E S

-- `expected`, by relative path.
unfoldable pub expected_files : List ShareFile → Dict Bytes → Dict Bytes
expected_files [] m = m
expected_files (f ∷ files) m = expected_files files (Dict.put m f.path f.target)

-- A walked file is expected, or it is to be removed.
unfoldable pub is_expected : {E : Type 0} → Option Bytes → FileInfo E → Outcome E Bool
is_expected none info = ok false
is_expected (some []) a_dir = ok true
is_expected (some []) a_file = ok false
is_expected (some []) (a_symlink t) = ok false
is_expected (some (c ∷ target)) a_dir = ok false
is_expected (some (c ∷ target)) a_file = ok false
is_expected (some (c ∷ target)) (a_symlink readlink) = do t ← readlink; ok (beq t (c ∷ target))

-- The result of the walk.
pub record Found : Type 0 where
  pub rm : List Bytes
  pub existing : Set

-- `walkFn` over the files of the walk; a relative path starts after the root dir and a slash;
-- `path[rootLen+1:]` panics if the path is shorter.
unfoldable pub walk_files :
    {E : Type 0} → Bytes → ℕ → Dict Bytes → List (Bytes × FileInfo E) → Found → Outcome E Found
unfolding is_expected
walk_files tree_root root_len expected [] found = ok found
walk_files tree_root root_len expected ((path, info) ∷ files) found =
    let skip = walk_files tree_root root_len expected files found in
    let relpath = drop (root_len + 1) path in
    let keep =
      walk_files tree_root root_len expected files
        (record found { existing = Dict.put found.existing relpath tt }) in
    let unwanted =
      walk_files tree_root root_len expected files (record found { rm = found.rm ++ path ∷ [] }) in
    if beq path tree_root
    then skip
    else if ltb (length path) (root_len + 1)
    then panic
    else (do good ← is_expected (Dict.get expected relpath) info; if good then keep else unwanted)

-- `sort.Sort(sort.Reverse(sort.StringSlice(rm)))`
unfoldable pub removal_order : List Bytes → List Bytes
removal_order rm = reverse (sort_by (λ p. p) rm)

module _ {E S : Type 0} (sys : Files E S) where
  -- `for _, f := range rm`
  unfoldable pub remove_files : List Bytes → S → Outcome E S
  remove_files [] s = ok s
  remove_files (f ∷ rm) s = do s' ← sys.remove f s; remove_files rm s'

  -- One missing file.
  unfoldable pub create_file : Bytes → ShareFile → S → Outcome E S
  unfolding is_dir is_symlink
  create_file rootdir f s =
      if is_dir f
      then sys.mkdir (path_join (rootdir ∷ f.path ∷ [])) s
      else if is_symlink f
      then sys.symlink f.target (path_join (rootdir ∷ f.path ∷ [])) s
      else panic

  -- `for _, f := range tree.Files`
  unfoldable pub create_files : Bytes → Set → List ShareFile → S → Outcome E S
  unfolding create_file contains
  create_files rootdir existing [] s = ok s
  create_files rootdir existing (f ∷ files) s =
      let rest = create_files rootdir existing files s in
      if contains existing f.path
      then rest
      else (do s' ← create_file rootdir f s; create_files rootdir existing files s')

  -- ensureShareTree(fs, tree)
  unfoldable pub ensure_share_tree : Bcpfs → ShareTree → S → Outcome E S
  unfolding walk_files removal_order remove_files create_files expected_files
  ensure_share_tree fs tree s = do
    let tree_root = path_join (fs.rootdir ∷ fs.org_unit_dir ∷ tree.org_unit ∷ codes "shared" ∷ [])
    files ← sys.walk tree_root s
    found ←
        walk_files tree_root (length fs.rootdir) (expected_files tree.files []) files
          (record { rm = []; existing = [] })
    s' ← remove_files (removal_order found.rm) s
    create_files fs.rootdir found.existing tree.files s'

  -- EnsureShareTrees(fs, shareTrees)
  unfoldable pub ensure_share_trees : Bcpfs → ShareTrees → S → Outcome E S
  unfolding ensure_share_tree
  ensure_share_trees fs [] s = ok s
  ensure_share_trees fs (st ∷ trees) s = do
    s' ← ensure_share_tree fs st s
    ensure_share_trees fs trees s'
