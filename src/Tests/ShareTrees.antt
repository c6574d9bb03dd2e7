-- ===== src/Tests/ShareTrees.antt =====
-- The theorems on applying the shared trees and the traversal at concrete inputs.
use bcpfs.Prelude.{
  map, ◌≡◌, refl, ℕ, ◌+◌, List, [], ◌∷◌, ◌++◌, Bool, true, ◌&&◌, ◌||◌, any, all, ok, drop, length,
}
use bcpfs.Prelude.Bytes.{Bytes, codes, beq, split, push, join, bytes_ltb}
use bcpfs.Prelude.Sort.{sort_by, insert_by}
use bcpfs.Prelude.Dict
use bcpfs.Prelude.Dict.{Dict}
use bcpfs.SlashPath.{path_join, clean, is_abs, up, squeeze, spell}
use bcpfs.Sharing.{ExportEntry}
use bcpfs.Sharing.Facl.{Facl}
use bcpfs.Sharing.ShareTrees.{ShareTree}
use bcpfs.Apply.{contains}
use bcpfs.Apply.ShareTrees.{
  FileInfo, a_dir, a_symlink, Files, Found, expected_files, is_expected, walk_files, removal_order,
  ensure_share_tree,
}
use bcpfs.Apply.ShareTrees.Order.{ChildrenFirst, removal_order-ChildrenFirst}
use bcpfs.Apply.ShareTrees.Settled.{
  keeps, drops, is_settled, tree_root_of, walk_files_exact, ensure_share_tree-settled,
}
use bcpfs.Apply.Traversal.{ensure_traversal}
use bcpfs.Apply.Traversal.Missing.{lacks_entry}
use bcpfs.Apply.Traversal.Ensured.{noting, hands, shown_acl, ensure_traversal_exact}
use bcpfs.Tests.Samples.{fs, alice_rx, carol_rwx}

abbrev two_paths : List Bytes
two_paths = codes "/orgfs/a" ∷ codes "/orgfs/a/b" ∷ []

removal_order-ChildrenFirst_example :
    ChildrenFirst (removal_order two_paths)
    × ((p : Bytes → Bool) → any p (removal_order two_paths) ≡ any p two_paths)
removal_order-ChildrenFirst_example = removal_order-ChildrenFirst two_paths

removal_order_test : removal_order two_paths ≡ codes "/orgfs/a/b" ∷ codes "/orgfs/a" ∷ []
unfolding removal_order sort_by insert_by bytes_ltb
removal_order_test = refl

-- The tree of `ag-bob` with one directory and one link in it.
abbrev bob_tree : ShareTree
bob_tree = record {
  org_unit = codes "ag-bob";
  files =
      record { path = codes "org/ag-bob/shared/tem"; target = [] }
      ∷ record { path = codes "org/ag-bob/shared/tem/foo"; target = codes "../foo" }
      ∷ [];
}

abbrev bob_root : Bytes
bob_root = codes "/orgfs/org/ag-bob/shared"

-- The tree as it is set up.
abbrev bob_files : List (Bytes × FileInfo (Unit {0}))
bob_files =
    (bob_root, a_dir)
    ∷ (codes "/orgfs/org/ag-bob/shared/tem", a_dir)
    ∷ (codes "/orgfs/org/ag-bob/shared/tem/foo", a_symlink (ok (codes "../foo")))
    ∷ []

-- One more link than expected.
abbrev more_files : List (Bytes × FileInfo (Unit {0}))
more_files =
    bob_files ++ (codes "/orgfs/org/ag-bob/shared/bar", a_symlink (ok (codes "../bar"))) ∷ []

abbrev none_found : Found
none_found = record { rm = []; existing = [] }

abbrev expected : Dict Bytes
expected = expected_files bob_tree.files []

abbrev last_found : Found
last_found = record {
  rm = codes "/orgfs/org/ag-bob/shared/bar" ∷ [];
  existing = (codes "org/ag-bob/shared/tem", tt) ∷ (codes "org/ag-bob/shared/tem/foo", tt) ∷ [];
}

more_files_run : walk_files bob_root 6 expected more_files none_found ≡ ok last_found
unfolding walk_files expected_files is_expected beq Dict.get Dict.put
more_files_run = refl

walk_files_exact_example :
    (any (λ p. beq p (codes "/orgfs/org/ag-bob/shared/bar")) last_found.rm ≡ (
      any (λ p. beq p (codes "/orgfs/org/ag-bob/shared/bar")) none_found.rm
      || any
          (λ f. drops bob_root 6 expected f && beq f.0 (codes "/orgfs/org/ag-bob/shared/bar"))
          more_files))
    × (contains last_found.existing (codes "/orgfs/org/ag-bob/shared/bar") ≡ (
        contains none_found.existing (codes "/orgfs/org/ag-bob/shared/bar")
        || any
            (λ f.
              keeps bob_root 6 expected f
              && beq (drop (6 + 1) f.0) (codes "/orgfs/org/ag-bob/shared/bar"))
            more_files))
walk_files_exact_example =
    walk_files_exact bob_root 6 expected more_files none_found last_found
      (codes "/orgfs/org/ag-bob/shared/bar") more_files_run

-- A filesystem with the tree in it, that counts the changes.
abbrev bob_fs : Files (Unit {0}) ℕ
bob_fs = record {
  walk = λ root n. ok bob_files;
  remove = λ path n. ok (n + 1);
  mkdir = λ path n. ok (n + 1);
  symlink = λ target path n. ok (n + 1);
}

bob_root_lem : tree_root_of fs bob_tree ≡ bob_root
unfolding path_join clean is_abs up squeeze spell split push join beq
bob_root_lem = refl

bob_good : all (is_settled (tree_root_of fs bob_tree) (length fs.rootdir) expected) bob_files ≡ true
unfolding expected_files is_expected beq Dict.get Dict.put
bob_good = rw bob_root_lem refl

bob_found :
    all
      (λ f.
        any
          (λ w.
            keeps (tree_root_of fs bob_tree) (length fs.rootdir) expected w
            && beq (drop (length fs.rootdir + 1) w.0) f.path)
          bob_files)
      bob_tree.files
    ≡ true
unfolding expected_files is_expected beq Dict.get Dict.put
bob_found = rw bob_root_lem refl

ensure_share_tree-settled_example : ensure_share_tree bob_fs fs bob_tree 0 ≡ ok 0
ensure_share_tree-settled_example =
    ensure_share_tree-settled bob_fs fs bob_tree 0 bob_files refl bob_good bob_found

-- `getfacl` shows the entry of `ag-alice`, but not that of `ag-carol`.
abbrev shown : Bytes → List Bytes → List (Bytes × Facl)
shown root paths =
    (
      codes "srv/tem",
      record {
        tag = codes "group:org_ag-alice";
        mode = record { first = b'-'; second = b'-'; third = b'x' };
      }
          ∷ [],
    )
    ∷ []

abbrev tem_traversal : ExportEntry
tem_traversal = record {
  path = codes "srv/tem";
  acl = alice_rx ∷ carol_rwx ∷ [];
  managing_groups = [];
}

ensure_traversal_exact_example :
    (calls : List (Bytes × List Bytes)) × (ensure_traversal {E = Unit {0}}
        (noting shown)
        (λ m. m)
        fs
        (tem_traversal ∷ [])
        []
      ≡ ok (map (λ c. (fs.rootdir, c)) calls))
    × ((group q : Bytes)
        → hands calls group q
          ≡ any
              (λ x.
                beq x.path q
                && lacks_entry fs
                    (shown_acl (shown fs.rootdir (codes "srv/tem" ∷ [])) x.path)
                    group
                    x)
              (tem_traversal ∷ []))
ensure_traversal_exact_example =
    ensure_traversal_exact (λ m. m) fs (tem_traversal ∷ []) shown (λ m p. refl)
