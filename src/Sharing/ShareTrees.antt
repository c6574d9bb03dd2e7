-- ===== src/Sharing/ShareTrees.antt =====
-- cmd/bcpfs-perms/bcpsharing/bcpsharing.go: the `<org>/<ou>/shared` trees.
pub mod Links
use bcpfs.Prelude.{
  ℕ, zero, suc, ◌+◌, ◌-◌, List, [], ◌∷◌, ◌++◌, map, Bool, not, none, some, length, take, replicate,
}
use bcpfs.Prelude.Bytes.{Bytes, codes, beq, split}
use bcpfs.Prelude.Sort.{sort_by}
use bcpfs.Prelude.Dict
use bcpfs.Prelude.Dict.{Dict}
use bcpfs.SlashPath.{slash, dot_dot, path_join}
use bcpfs.Sharing.{Exports}
use bcpfs.Sharing.Acl.{groups}
use bcpfs.Sharing.Bcpfs.{Bcpfs, part}

-- A directory if `target` is empty, else a symlink. `path` is relative to the root dir.
pub record ShareFile : Type 0 where
  pub path : Bytes
  pub target : Bytes

pub record ShareTree : Type 0 where
  pub org_unit : Bytes
  pub files : List ShareFile

abbrev pub ShareTrees : Type 0
ShareTrees = List ShareTree

-- (f ShareFile) IsDir(), IsSymlink()
unfoldable pub is_dir : ShareFile → Bool
is_dir f = beq f.target []

unfoldable pub is_symlink : ShareFile → Bool
is_symlink f = not (beq f.target [])

-- `treesM`: ou => path => target.
abbrev pub Trees : Type 0
Trees = Dict (Dict Bytes)

-- `getTree(ou)`
unfoldable pub get_tree : Trees → Bytes → Dict Bytes
get_tree trees ou = elim (Dict.get trees ou) [ none ↦ [] | some tr ↦ tr ]

-- `realpath(ou, parts)`
unfoldable pub shared_path : Bcpfs → Bytes → List Bytes → Bytes
shared_path fs ou parts = path_join (fs.org_unit_dir ∷ ou ∷ codes "shared" ∷ parts)

-- `addDir(ou, parts)`
unfoldable pub add_dir : Bcpfs → Bytes → List Bytes → Trees → Trees
add_dir fs ou parts trees =
    Dict.put trees ou (Dict.put (get_tree trees ou) (shared_path fs ou parts) [])

-- The target of `addLink(ou, parts)`.
unfoldable pub link_target : List Bytes → Bytes
link_target parts = path_join (replicate (length parts + 1) dot_dot ++ parts)

-- `addLink(ou, parts)`
unfoldable pub add_link : Bcpfs → Bytes → List Bytes → Trees → Trees
add_link fs ou parts trees =
    Dict.put trees ou (Dict.put (get_tree trees ou) (shared_path fs ou parts) (link_target parts))

-- `for i := 1; i < len(parts); i++ { addDir(ou, parts[:i]) }`, with `n` rounds left.
unfoldable pub add_dirs : Bcpfs → Bytes → List Bytes → ℕ → ℕ → Trees → Trees
add_dirs fs ou parts zero i trees = trees
add_dirs fs ou parts (suc n) i trees =
    add_dirs fs ou parts n (i + 1) (add_dir fs ou (take i parts) trees)

-- `addShare(ou, path)`
unfoldable pub add_share : Bcpfs → Bytes → Bytes → Trees → Trees
add_share fs ou path trees =
    let parts = split path slash in
    add_link fs ou parts (add_dirs fs ou parts (length parts - 1) 1 trees)

-- Shares to self.
unfoldable pub add_self_shares : Bcpfs → Exports → Trees → Trees
add_self_shares fs [] trees = trees
add_self_shares fs (shr ∷ shares) trees =
    add_self_shares fs shares (add_share fs (part (split shr.path slash) 0) shr.path trees)

-- `for _, ou := range shr.Acl.Groups()`
unfoldable pub add_share_to : Bcpfs → Bytes → List Bytes → Trees → Trees
add_share_to fs path [] trees = trees
add_share_to fs path (ou ∷ ous) trees = add_share_to fs path ous (add_share fs ou path trees)

-- Shares from others.
unfoldable pub add_other_shares : Bcpfs → Exports → Trees → Trees
add_other_shares fs [] trees = trees
add_other_shares fs (shr ∷ shares) trees =
    add_other_shares fs shares (add_share_to fs shr.path (groups shr.acl) trees)

-- `for path, target := range tr`, and the sort by path.
unfoldable pub tree_files : Dict Bytes → List ShareFile
tree_files tr =
    sort_by (λ f. f.path) (map (λ (path, target). record { path = path; target = target }) tr)

-- compileShareTrees(fs, shares)
unfoldable pub compile_share_trees : Bcpfs → Exports → ShareTrees
unfolding tree_files add_self_shares add_other_shares
compile_share_trees fs shares =
    sort_by (λ t. t.org_unit)
      (map (λ (ou, tr). record { org_unit = ou; files = tree_files tr })
        (add_other_shares fs shares (add_self_shares fs shares [])))
