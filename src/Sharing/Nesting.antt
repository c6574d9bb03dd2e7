-- ===== src/Sharing/Nesting.antt =====
-- cmd/bcpfs-perms/bcpsharing/bcpsharing.go: no exported path below another, neither as logical paths
-- nor as realpaths.
pub mod Ancestors
pub mod Tree
pub mod Apart
pub mod Step
pub mod Exact
use bcpfs.Prelude.{
  ℕ, zero, suc, ◌-◌, List, [], ◌∷◌, Option, none, some, length, take, Outcome, ok, err, panic,
  ◌>>=◌, ◌>>◌,
}
use bcpfs.Prelude.Bytes.{Bytes, split}
use bcpfs.Prelude.Dict
use bcpfs.Prelude.Dict.{Dict}
use bcpfs.SlashPath.{slash, path_join}
use bcpfs.Sharing.{Exports}
use bcpfs.Sharing.Bcpfs.{Bcpfs, realpath}

pub data NodeType : Type 0 where
  unspecified inner leaf : NodeType

pub data NestingError : Type 0 where
  duplicate_export nested_export_prefix nested_export_suffix : Bytes → NestingError
  nested_realpath_prefix nested_realpath_suffix : Bytes → NestingError

-- `tree[p]`, which is `UnspecifiedNode` where the map has no entry.
unfoldable pub node_at : Dict NodeType → Bytes → NodeType
node_at tree p = elim (Dict.get tree p) [ none ↦ unspecified | some n ↦ n ]

-- slashpath.Join(parts[0:i]...)
unfoldable pub ancestor : Bytes → ℕ → Bytes
ancestor p i = path_join (take i (split p slash))

-- `for i := len(parts) - 1; i > 0; i--`; both checks have this loop, each with its own error.
unfoldable pub mark_ancestors :
    NestingError → Bytes → ℕ → Dict NodeType → Outcome NestingError (Dict NodeType)
mark_ancestors e p zero tree = ok tree
mark_ancestors e p (suc i) tree =
    let prefix = ancestor p (suc i) in
    let rest = mark_ancestors e p i (Dict.put tree prefix inner) in
    elim (node_at tree prefix) [ leaf ↦ err e | inner ↦ ok tree | unspecified ↦ rest ]

-- `checkPath` of `checkNoNesting()`.
unfoldable pub check_export_nesting : Bytes → Dict NodeType → Outcome NestingError (Dict NodeType)
check_export_nesting p tree = elim (node_at tree p) [
  | leaf ↦ err (duplicate_export p)
  | inner ↦ err (nested_export_prefix p)
  | unspecified ↦
      mark_ancestors (nested_export_suffix p) p (length (split p slash) - 1) (Dict.put tree p leaf)
]

-- `checkPath` of `checkNoRealpathNesting()`; a duplicate realpath is allowed.
unfoldable pub check_realpath_nesting : Bytes → Dict NodeType → Outcome NestingError (Dict NodeType)
check_realpath_nesting p tree = elim (node_at tree p) [
  | leaf ↦ ok tree
  | inner ↦ err (nested_realpath_prefix p)
  | unspecified ↦
      mark_ancestors (nested_realpath_suffix p) p (length (split p slash) - 1)
        (Dict.put tree p leaf)
]

-- The loops over the exports.
unfoldable pub check_exports : Exports → Dict NodeType → Outcome NestingError (Dict NodeType)
check_exports [] tree = ok tree
check_exports (exp ∷ exps) tree = do
  tree' ← check_export_nesting exp.path tree
  check_exports exps tree'

unfoldable pub check_realpaths :
    Bcpfs → Exports → Dict NodeType → Outcome NestingError (Dict NodeType)
check_realpaths fs [] tree = ok tree
check_realpaths fs (exp ∷ exps) tree = do
  tree' ← check_realpath_nesting (realpath fs exp.path) tree
  check_realpaths fs exps tree'

-- checkNoNesting(exps)
unfoldable pub check_no_nesting : Exports → Outcome NestingError (Unit {0})
check_no_nesting exps = do check_exports exps []; ok tt

-- checkNoRealpathNesting(fs, exps)
unfoldable pub check_no_realpath_nesting : Bcpfs → Exports → Outcome NestingError (Unit {0})
check_no_realpath_nesting fs exps = do check_realpaths fs exps []; ok tt
