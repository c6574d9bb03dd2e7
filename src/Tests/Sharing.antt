-- ===== src/Tests/Sharing.antt =====
-- The theorems on sharing at concrete inputs.
use bcpfs.Prelude.{
  ◌≡◌, ◌≢◌, ◌↔◌, refl, List, [], ◌∷◌, ◌++◌, map, true, false, ◌&&◌, ◌||◌, ◌⊎◌, any, all, ok, err,
  arith,
}
use bcpfs.Prelude.Bytes.{Bytes, codes, beq, split, trim, join, has_prefix}
use bcpfs.Prelude.Dict
use bcpfs.SlashPath.{slash, path_join}
use bcpfs.SlashPath.Names.{IsPlain, is_name, IsPlain-of_test}
use bcpfs.Config.Validate.{is_valid_import_action, is_valid_naming_policy_action, matches_ace}
use bcpfs.Sharing.{ExportEntry, Exports, Group, ou, ops}
use bcpfs.Sharing.Acl.{union}
use bcpfs.Sharing.Acl.Grants.{Permission, write, execute, grants, grants-union}
use bcpfs.Sharing.Bcpfs.{
  new_bcpfs, realpath, managing_groups_of_path, facility_group_of_service_path,
}
use bcpfs.Sharing.Bcpfs.Realpaths.{realpath_of_service_path}
use bcpfs.Sharing.Nesting.{
  NestingError, check_no_nesting, check_no_realpath_nesting, ancestor, nested_export_prefix,
  check_exports, check_export_nesting, mark_ancestors, node_at, check_realpaths,
  check_realpath_nesting,
}
use bcpfs.Sharing.Nesting.Ancestors.{below, below_iff}
use bcpfs.Sharing.Nesting.Apart.{nested, clash, apart}
use bcpfs.Sharing.Nesting.Exact.{check_no_nesting_exact, check_no_realpath_nesting_exact}
use bcpfs.Sharing.Naming.{NamingError, NamingPolicy, check_export_paths, compile_naming_policy}
use bcpfs.Sharing.Naming.Exact.{allows, check_export_paths_exact}
use bcpfs.Sharing.Imports.{
  ImportFilter, compile_imports, select_imported_exports, select_aces, filter_path_ace,
}
use bcpfs.Sharing.Imports.Selected.{accepts, path_grants, select_imported_exports_exact}
use bcpfs.Sharing.Exports.{
  compile_exports, compile_export_items, parse_acl, check_export_acl_scopes,
}
use bcpfs.Sharing.RealShares.{compile_real_shares, compile_traversal}
use bcpfs.Sharing.RealShares.Grants.{
  realpath_grants, path_grants-compile_real_shares, no_repeat, has_key,
  no_repeat-compile_real_shares,
}
use bcpfs.Sharing.RealShares.Traversal.{
  names, is_execute, dirs_above, org_unit_dir_of, path_grants-compile_traversal,
}
use bcpfs.Sharing.ShareTrees.{compile_share_trees}
use bcpfs.Sharing.Compile
use bcpfs.Sharing.Compile.{compile_sharing}
use bcpfs.Sharing.Compile.Grants.{compile_sharing-grants}
use bcpfs.Tests.Samples.{
  literal, alice_rx, carol_rwx, root_config, fs, sharing_config, share_a, two_shares,
}

grants-union_example :
    grants (union (alice_rx ∷ []) (carol_rwx ∷ alice_rx ∷ [])) (codes "ag-carol") write ≡ (
      grants (alice_rx ∷ []) (codes "ag-carol") write
      || grants (carol_rwx ∷ alice_rx ∷ []) (codes "ag-carol") write)
grants-union_example =
    grants-union (alice_rx ∷ []) (carol_rwx ∷ alice_rx ∷ []) (codes "ag-carol") write

realpath_test : realpath fs (codes "em-facility/tem/ag-bob/foo") ≡ codes "srv/tem/ag-bob/foo"
unfolding realpath split path_join Dict.get
realpath_test = refl

path_grants-compile_real_shares_example :
    path_grants
      (compile_real_shares fs two_shares)
      (codes "srv/tem/ag-bob/foo")
      (codes "ag-carol")
      write
    ≡ realpath_grants fs two_shares (codes "srv/tem/ag-bob/foo") (codes "ag-carol") write
path_grants-compile_real_shares_example =
    path_grants-compile_real_shares fs two_shares (codes "srv/tem/ag-bob/foo") (codes "ag-carol")
      write

no_repeat-compile_real_shares_example :
    (no_repeat (map (λ exp. exp.path) (compile_real_shares fs two_shares)) ≡ true)
    × ((rp : Bytes)
        → has_key (map (λ exp. exp.path) (compile_real_shares fs two_shares)) rp
          ≡ any (λ shr. beq (realpath fs shr.path) rp) two_shares)
no_repeat-compile_real_shares_example = no_repeat-compile_real_shares fs two_shares

path_grants-compile_traversal_example :
    path_grants
      (compile_traversal fs two_shares (compile_real_shares fs two_shares))
      (codes "srv/tem/ag-bob")
      (codes "ag-alice")
      execute
    ≡ (is_execute execute
        && (any
              (λ r.
                any (λ d. beq d (codes "srv/tem/ag-bob")) (dirs_above fs r.path)
                && names r.acl (codes "ag-alice"))
              (compile_real_shares fs two_shares)
            || any
                (λ shr.
                  beq (org_unit_dir_of fs shr.path) (codes "srv/tem/ag-bob")
                  && names shr.acl (codes "ag-alice"))
                two_shares))
path_grants-compile_traversal_example =
    path_grants-compile_traversal fs two_shares (compile_real_shares fs two_shares)
      (codes "srv/tem/ag-bob") (codes "ag-alice") execute

abbrev bob_groups : List Group
bob_groups =
    record { group_type = ou; name = codes "ag-bob" }
    ∷ record { group_type = ops; name = codes "em" }
    ∷ []

realpath_of_service_path_example :
    (realpath fs
        (join (codes "em-facility" ∷ codes "tem" ∷ codes "ag-bob" ∷ codes "foo" ∷ []) slash)
      ≡ path_join (codes "srv" ∷ codes "tem" ∷ codes "ag-bob" ∷ codes "foo" ∷ []))
    × (realpath fs (join (codes "ag-bob" ∷ codes "tem" ∷ codes "foo" ∷ []) slash)
        ≡ path_join (codes "srv" ∷ codes "tem" ∷ codes "ag-bob" ∷ codes "foo" ∷ []))
    × (managing_groups_of_path fs
          (join (codes "em-facility" ∷ codes "tem" ∷ codes "ag-bob" ∷ codes "foo" ∷ []) slash)
        ≡ ok bob_groups)
    × (managing_groups_of_path fs (join (codes "ag-bob" ∷ codes "tem" ∷ codes "foo" ∷ []) slash)
        ≡ ok bob_groups)
unfolding Dict.get beq
realpath_of_service_path_example =
    realpath_of_service_path fs (codes "em-facility") (codes "ag-bob") (codes "tem") (codes "em")
      (codes "foo" ∷ []) (omega arith) refl refl refl

foo-IsPlain : IsPlain (codes "ag-bob/tem/foo")
unfolding is_name split beq
foo-IsPlain = IsPlain-of_test (codes "ag-bob/tem/foo") refl

srv-IsPlain : IsPlain (codes "srv/tem/ag-bob/foo")
unfolding is_name split beq
srv-IsPlain = IsPlain-of_test (codes "srv/tem/ag-bob/foo") refl

dir-IsPlain : IsPlain (codes "ag-bob")
unfolding is_name split beq
dir-IsPlain = IsPlain-of_test (codes "ag-bob") refl

abbrev share_above : ExportEntry
share_above = record share_a { path = codes "ag-bob" }

check_no_nesting_exact_example :
    ((apart clash (codes "ag-bob/tem/foo" ∷ codes "ag-bob" ∷ []) ≡ true)
      × (check_no_nesting (share_a ∷ share_above ∷ []) ≡ ok tt))
    ⊎ ((apart clash (codes "ag-bob/tem/foo" ∷ codes "ag-bob" ∷ []) ≡ false)
        × ((e : NestingError) × (check_no_nesting (share_a ∷ share_above ∷ []) ≡ err e)))
check_no_nesting_exact_example =
    check_no_nesting_exact (share_a ∷ share_above ∷ []) (foo-IsPlain, (dir-IsPlain, tt))

check_no_nesting_test :
    check_no_nesting (share_a ∷ share_above ∷ []) ≡ err (nested_export_prefix (codes "ag-bob"))
unfolding check_no_nesting check_exports check_export_nesting mark_ancestors node_at ancestor split
    path_join Dict.get Dict.put
check_no_nesting_test = refl

abbrev two_realpaths : List Bytes
two_realpaths = codes "srv/tem/ag-bob/foo" ∷ codes "srv/tem/ag-bob/foo" ∷ []

check_no_realpath_nesting_exact_example :
    ((apart nested (map (λ exp. realpath fs exp.path) two_shares) ≡ true)
      × (check_no_realpath_nesting fs two_shares ≡ ok tt))
    ⊎ ((apart nested (map (λ exp. realpath fs exp.path) two_shares) ≡ false)
        × ((e : NestingError) × (check_no_realpath_nesting fs two_shares ≡ err e)))
unfolding realpath split path_join Dict.get
check_no_realpath_nesting_exact_example =
    check_no_realpath_nesting_exact fs two_shares (srv-IsPlain, (srv-IsPlain, tt))

below_iff_example : (below (codes "ag-bob/tem/foo") (codes "ag-bob") ≡ true) ↔ (
    (rest : List Bytes) × (rest ≢ [])
    × (split (codes "ag-bob/tem/foo") slash ≡ split (codes "ag-bob") slash ++ rest))
below_iff_example = below_iff (codes "ag-bob/tem/foo") (codes "ag-bob") foo-IsPlain dir-IsPlain

abbrev allow_foo : NamingPolicy
allow_foo =
    record { action = codes "deny"; matches = λ p. beq p (codes "ag-bob") }
    ∷ record { action = codes "allow"; matches = λ p. has_prefix p (codes "ag-bob") }
    ∷ []

check_export_paths_exact_example :
    ((all (λ exp. allows allow_foo exp.path) (share_a ∷ share_above ∷ []) ≡ true)
      × (check_export_paths (share_a ∷ share_above ∷ []) allow_foo ≡ ok tt))
    ⊎ ((all (λ exp. allows allow_foo exp.path) (share_a ∷ share_above ∷ []) ≡ false)
        × ((e : NamingError) × (check_export_paths (share_a ∷ share_above ∷ []) allow_foo ≡ err e)))
unfolding is_valid_naming_policy_action beq
check_export_paths_exact_example =
    check_export_paths_exact (share_a ∷ share_above ∷ []) allow_foo (refl, (refl, tt))

abbrev import_alice : ImportFilter
import_alice =
    record {
      group = codes "ag-alice";
      matches = λ p. has_prefix p (codes "ag-bob");
      action = codes "accept";
    }
    ∷ []

select_imported_exports_exact_example :
    (sels : Exports) × (select_imported_exports two_shares import_alice ≡ ok sels)
    × ((path group : Bytes) (p : Permission)
        → path_grants sels path group p
          ≡ (path_grants two_shares path group p && accepts import_alice path group))
unfolding is_valid_import_action beq
select_imported_exports_exact_example =
    select_imported_exports_exact two_shares import_alice (refl, tt)

abbrev foo_export : ExportEntry
foo_export = record {
  path = codes "ag-bob/tem/foo";
  acl = alice_rx ∷ [];
  managing_groups = bob_groups;
}

abbrev compiled : Compile.Sharing
compiled = record {
  fs = new_bcpfs root_config;
  shares = foo_export ∷ [];
  real_shares = compile_real_shares (new_bcpfs root_config) (foo_export ∷ []);
  traversal =
      compile_traversal (new_bcpfs root_config) (foo_export ∷ [])
        (compile_real_shares (new_bcpfs root_config) (foo_export ∷ []));
  share_trees = compile_share_trees (new_bcpfs root_config) (foo_export ∷ []);
}

compile_sharing_run : compile_sharing literal root_config sharing_config ≡ ok compiled
unfolding compile_sharing new_bcpfs compile_imports compile_exports compile_export_items parse_acl
    matches_ace managing_groups_of_path split trim Dict.get Dict.put compile_naming_policy
    check_export_paths check_export_acl_scopes facility_group_of_service_path check_no_nesting
    check_exports check_export_nesting mark_ancestors node_at ancestor path_join
    check_no_realpath_nesting check_realpaths check_realpath_nesting realpath
    select_imported_exports select_aces filter_path_ace beq
compile_sharing_run = refl

compile_sharing-grants_example :
    (imps : ImportFilter) × (exps : Exports) × (compile_imports literal sharing_config.imports
      ≡ ok imps)
    × (compile_exports (new_bcpfs root_config) sharing_config.exports ≡ ok exps)
    × ((rp group : Bytes) (p : Permission)
        → path_grants compiled.real_shares rp group p
          ≡ any
              (λ e.
                beq (realpath (new_bcpfs root_config) e.path) rp
                && (grants e.acl group p && accepts imps e.path group))
              exps)
unfolding is_valid_import_action beq
compile_sharing-grants_example =
    compile_sharing-grants literal root_config sharing_config compiled (refl, tt)
      compile_sharing_run
