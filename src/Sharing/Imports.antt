-- ===== src/Sharing/Imports.antt =====
-- cmd/bcpfs-perms/bcpsharing/bcpsharing.go: the import filter, and the exports that it selects.
pub mod Selected
use bcpfs.Prelude.{
  ℕ, suc, ◌+◌, List, [], ◌∷◌, ◌++◌, Bool, not, ltb, ◌==◌, length, Option, none, some, if◌then◌else◌,
  Outcome, ok, err, panic, ◌>>=◌,
}
use bcpfs.Prelude.Bytes.{Bytes, codes, beq}
use bcpfs.Config.{SharingImport}
use bcpfs.Sharing.{Ace, Acl, ExportEntry, Exports}
use bcpfs.Sharing.Regexp.{RegexpPackage}

pub record ImportRule : Type 0 where
  pub group : Bytes
  pub matches : Bytes → Bool
  pub action : Bytes

abbrev pub ImportFilter : Type 0
ImportFilter = List ImportRule

pub data ImportError : Type 0 where
  bad_pattern : ℕ → ImportError

abbrev pub action_accept : Bytes
action_accept = codes "accept"

abbrev pub action_reject : Bytes
action_reject = codes "reject"

abbrev pub action_pass : Bytes
action_pass = codes "pass"

module _ (re : RegexpPackage) where
  -- The loop of compileImports(cfg), from item `i` on.
  unfoldable pub compile_import_rules : ℕ → List SharingImport → Outcome ImportError ImportFilter
  compile_import_rules i [] = ok []
  compile_import_rules i (c ∷ cfg) = elim (re.compile (codes "^" ++ c.pattern_text ++ codes "$")) [
    | none ↦ err (bad_pattern i)
    | some matches ↦ do
      imps ← compile_import_rules (i + 1) cfg
      ok (record { group = c.group; matches = matches; action = c.action } ∷ imps)
  ]

  unfoldable pub compile_imports : List SharingImport → Outcome ImportError ImportFilter
  unfolding compile_import_rules
  compile_imports cfg = compile_import_rules 0 cfg

-- (imp ImportRule) FilterPathAce(path, ace)
unfoldable pub rule_action : ImportRule → Bytes → Ace → Bytes
rule_action imp path ace =
    if not (beq ace.group imp.group)
    then action_pass
    else if not (imp.matches path)
    then action_pass
    else imp.action

-- (imps ImportFilter) FilterPathAce(path, ace)
unfoldable pub filter_path_ace : ImportFilter → Bytes → Ace → Outcome ImportError Bytes
unfolding rule_action
filter_path_ace [] path ace = ok action_reject
filter_path_ace (imp ∷ imps) path ace =
    let action = rule_action imp path ace in
    if beq action action_accept
    then ok action_accept
    else if beq action action_reject
    then ok action_reject
    else if beq action action_pass
    then filter_path_ace imps path ace
    else panic

-- The loop over the ACL of one export.
unfoldable pub select_aces : ImportFilter → Bytes → Acl → Outcome ImportError Acl
select_aces imps path [] = ok []
select_aces imps path (ace ∷ acl) = do
  action ← filter_path_ace imps path ace
  rest ← select_aces imps path acl
  if beq action action_accept
      then ok (ace ∷ rest)
      else if beq action action_reject
      then ok rest
      else panic

-- selectImportedExports(exps, imps)
unfoldable pub select_imported_exports : Exports → ImportFilter → Outcome ImportError Exports
select_imported_exports [] imps = ok []
select_imported_exports (exp ∷ exps) imps =
    let rest = select_imported_exports exps imps in
    if length exp.acl == 0 then (do sels ← rest; ok (record exp { acl = [] } ∷ sels)) else (do
      acl ← select_aces imps exp.path exp.acl
      sels ← rest
      if ltb 0 (length acl) then ok (record exp { acl = acl } ∷ sels) else ok sels)
