-- ===== src/Sharing/Naming.antt =====
-- cmd/bcpfs-perms/bcpsharing/bcpsharing.go: the naming policy.
pub mod Exact
use bcpfs.Prelude.{
  ℕ, suc, ◌+◌, List, [], ◌∷◌, ◌++◌, Bool, Option, none, some, if◌then◌else◌, Outcome, ok, err,
  panic, ◌>>=◌, ◌>>◌,
}
use bcpfs.Prelude.Bytes.{Bytes, codes, beq}
use bcpfs.Config.{SharingNamingPolicy}
use bcpfs.Sharing.{ExportEntry, Exports}
use bcpfs.Sharing.Regexp.{RegexpPackage}

pub record NamingRule : Type 0 where
  pub action : Bytes
  pub matches : Bytes → Bool

abbrev pub NamingPolicy : Type 0
NamingPolicy = List NamingRule

pub data NamingError : Type 0 where
  bad_pattern : ℕ → NamingError
  denied default_denied : Bytes → NamingError

abbrev pub action_allow : Bytes
action_allow = codes "allow"

abbrev pub action_deny : Bytes
action_deny = codes "deny"

abbrev pub action_pass : Bytes
action_pass = codes "pass"

module _ (re : RegexpPackage) where
  -- The loop of compileNamingPolicy(cfg), from item `i` on.
  unfoldable pub compile_naming_rules :
      ℕ → List SharingNamingPolicy → Outcome NamingError NamingPolicy
  compile_naming_rules i [] = ok []
  compile_naming_rules i (c ∷ cfg) = elim (re.compile (codes "^" ++ c.pattern_text ++ codes "$")) [
    | none ↦ err (bad_pattern i)
    | some matches ↦ do
      pol ← compile_naming_rules (i + 1) cfg
      ok (record { action = c.action; matches = matches } ∷ pol)
  ]

  unfoldable pub compile_naming_policy : List SharingNamingPolicy → Outcome NamingError NamingPolicy
  unfolding compile_naming_rules
  compile_naming_policy cfg = compile_naming_rules 0 cfg

-- (rule NamingRule) Apply(exp)
unfoldable pub apply : NamingRule → ExportEntry → Bytes
apply rule exp = if rule.matches exp.path then rule.action else action_pass

-- checkExportPath(exp, pol)
unfoldable pub check_export_path : ExportEntry → NamingPolicy → Outcome NamingError (Unit {0})
unfolding apply
check_export_path exp [] = err (default_denied exp.path)
check_export_path exp (rule ∷ pol) =
    let action = apply rule exp in
    if beq action action_allow
    then ok tt
    else if beq action action_deny
    then err (denied exp.path)
    else if beq action action_pass
    then check_export_path exp pol
    else panic

-- checkExportPaths(exps, pol)
unfoldable pub check_export_paths : Exports → NamingPolicy → Outcome NamingError (Unit {0})
unfolding check_export_path
check_export_paths [] pol = ok tt
check_export_paths (exp ∷ exps) pol = do check_export_path exp pol; check_export_paths exps pol
