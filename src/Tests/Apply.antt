-- ===== src/Tests/Apply.antt =====
-- The theorems on applying ACLs at concrete inputs.
use bcpfs.Prelude.{◌≡◌, refl, ℕ, [], ◌∷◌, true, not, ◌&&◌, any, ◌+◌, ok}
use bcpfs.Prelude.Bytes.{codes, beq, split, has_prefix}
use bcpfs.Sharing.Bcpfs.{fs_group_org_unit}
use bcpfs.Sharing.Facl.{Facl, as_facl, is_named_group, ace_text, group_name}
use bcpfs.Apply.{Shell, facl_groups_to_remove, ensure_facl}
use bcpfs.Apply.Facls.{names_group, settled, facl_groups_to_remove_exact, ensure_facl-settled}
use bcpfs.Tests.Samples.{fs, alice_rx, rx}

-- What `getfacl` shows of a directory that is shared with `ag-alice`.
abbrev shared_dir : Facl
shared_dir =
    record { tag = codes "user:"; mode = rx }
    ∷ record { tag = codes "group:"; mode = rx }
    ∷ record { tag = codes "group:org_ag-alice"; mode = rx }
    ∷ record { tag = codes "group:org_ag-bob"; mode = rx }
    ∷ record { tag = codes "default:group:org_ag-alice"; mode = rx }
    ∷ []

-- A shell that counts its commands.
abbrev counting : Shell (Unit {0}) ℕ
counting = record {
  modify = λ root path dirs files n. ok (n + 1);
  remove = λ root path entries n. ok (n + 1);
}

facl_groups_to_remove_exact_example :
    any
      (λ x. beq x (codes "org_ag-alice"))
      (facl_groups_to_remove shared_dir [] (codes "org_ag-bob" ∷ []))
    ≡ (names_group shared_dir (codes "org_ag-alice")
        && not (names_group [] (codes "org_ag-alice"))
        && not (any (λ x. beq x (codes "org_ag-alice")) (codes "org_ag-bob" ∷ [])))
facl_groups_to_remove_exact_example =
    facl_groups_to_remove_exact shared_dir [] (codes "org_ag-bob" ∷ []) (codes "org_ag-alice")

shared_dir-settled :
    settled shared_dir (as_facl fs (alice_rx ∷ [])) (codes "org_ag-bob" ∷ []) ≡ true
unfolding as_facl is_named_group ace_text group_name beq split has_prefix fs_group_org_unit
shared_dir-settled = refl

ensure_facl-settled_example :
    ensure_facl counting
      (codes "/orgfs")
      (codes "srv/tem/ag-bob/foo")
      shared_dir
      (as_facl fs (alice_rx ∷ []))
      (codes "org_ag-bob" ∷ [])
      0
    ≡ ok 0
ensure_facl-settled_example =
    ensure_facl-settled counting (codes "/orgfs") (codes "srv/tem/ag-bob/foo") shared_dir
      (as_facl fs (alice_rx ∷ [])) (codes "org_ag-bob" ∷ []) 0 shared_dir-settled
