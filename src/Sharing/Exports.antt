-- ===== src/Sharing/Exports.antt =====
-- cmd/bcpfs-perms/bcpsharing/bcpsharing.go: the compiled exports and their ACLs, and the check that
-- they leave alone the groups that bcpfs-perms manages.
use bcpfs.Prelude.{
  ℕ, ◌+◌, List, [], ◌∷◌, Bool, not, any, if◌then◌else◌, Outcome, ok, err, panic, ◌>>=◌, ◌>>◌,
}
use bcpfs.Prelude.Bytes.{Bytes, beq, split, trim}
use bcpfs.Config.{SharingExport}
use bcpfs.Config.Validate.{matches_ace}
use bcpfs.SlashPath.{slash}
use bcpfs.Sharing.{AceMode, Acl, ExportEntry, Exports}
use bcpfs.Sharing.Bcpfs.{
  Bcpfs, PathError, part, managing_groups_of_path, facility_group_of_service_path,
}

pub data ExportError : Type 0 where
  malformed_ace : ℕ → ExportError
  bad_acl : ℕ → ExportError → ExportError
  bad_path : ℕ → PathError → ExportError
  self_export owning_facility : Bytes → ExportError

-- `AceMode(toks[2])`; `rgxAce` lets three bytes through.
unfoldable pub ace_mode : Bytes → AceMode
ace_mode (r ∷ w ∷ x ∷ []) = record { first = r; second = w; third = x }
ace_mode _ = record { first = 0; second = 0; third = 0 }

-- The loop of parseAcl(cfg), from item `i` on. The regexp is that of package `bcpcfg`.
unfoldable pub parse_aces : ℕ → List Bytes → Outcome ExportError Acl
unfolding ace_mode
parse_aces i [] = ok []
parse_aces i (c ∷ cfg) = if not (matches_ace c) then err (malformed_ace i) else do
  rest ← parse_aces (i + 1) cfg
  let toks = split c b':'
  ok (record { group = part toks 1; mode = ace_mode (part toks 2) } ∷ rest)

unfoldable pub parse_acl : List Bytes → Outcome ExportError Acl
unfolding parse_aces
parse_acl cfg = parse_aces 0 cfg

-- `return nil, fmt.Errorf(…, i, err)`
abbrev pub at_item : (ExportError → ExportError) → Outcome ExportError Acl → Outcome ExportError Acl
at_item f (ok a) = ok a
at_item f (err e) = err (f e)
at_item f panic = panic

abbrev pub at_path_item {ℓ} : {A : Type ℓ} → ℕ → Outcome PathError A → Outcome ExportError A
at_path_item i (ok a) = ok a
at_path_item i (err e) = err (bad_path i e)
at_path_item i panic = panic

-- The loop of compileExports(fs, cfg), from item `i` on. The groups are those of the path as it is
-- written, and the entry has the path without slashes at its ends.
unfoldable pub compile_export_items : Bcpfs → ℕ → List SharingExport → Outcome ExportError Exports
compile_export_items fs i [] = ok []
compile_export_items fs i (c ∷ cfg) = do
  acl ← at_item (bad_acl i) (parse_acl c.acl)
  mgroups ← at_path_item i (managing_groups_of_path fs c.path)
  exps ← compile_export_items fs (i + 1) cfg
  ok (record { path = trim c.path slash; acl = acl; managing_groups = mgroups } ∷ exps)

unfoldable pub compile_exports : Bcpfs → List SharingExport → Outcome ExportError Exports
unfolding compile_export_items
compile_exports fs cfg = compile_export_items fs 0 cfg

-- `_, ok := groups[g]` for the set of the groups of the ACL.
unfoldable pub has_group : Acl → Bytes → Bool
has_group acl g = any (λ ace. beq ace.group g) acl

-- checkExportEntryAclScopes(fs, exp)
unfoldable pub check_export_entry_acl_scopes : Bcpfs → ExportEntry → Outcome ExportError (Unit {0})
unfolding has_group
check_export_entry_acl_scopes fs exp =
    if has_group exp.acl (part (split exp.path slash) 0)
    then err (self_export exp.path)
    else elim (facility_group_of_service_path fs exp.path) [
      | ok fac ↦ if has_group exp.acl fac then err (owning_facility exp.path) else ok tt
      | err e ↦ ok tt
      | panic ↦ panic
    ]

-- checkExportAclScopes(fs, exps)
unfoldable pub check_export_acl_scopes : Bcpfs → Exports → Outcome ExportError (Unit {0})
unfolding check_export_entry_acl_scopes
check_export_acl_scopes fs [] = ok tt
check_export_acl_scopes fs (exp ∷ exps) = do
  check_export_entry_acl_scopes fs exp
  check_export_acl_scopes fs exps
