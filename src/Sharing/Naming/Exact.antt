-- ===== src/Sharing/Naming/Exact.antt =====
-- The naming policy admits a path by its first matching rule.
use bcpfs.Prelude.{
  ◌≡◌, refl, [], ◌∷◌, Bool, true, false, ◌⊎◌, inl, inr, if◌then◌else◌, Outcome, ok, err, all, All,
  arith, Bool-cases,
}
use bcpfs.Prelude.Bytes.{Bytes, beq}
use bcpfs.Config.Validate.{is_valid_naming_policy_action}
use bcpfs.Sharing.{ExportEntry, Exports}
use bcpfs.Sharing.Naming.{
  NamingRule, NamingPolicy, NamingError, action_allow, action_deny, action_pass, apply,
  check_export_path, check_export_paths, denied, default_denied,
}

-- Whether the first rule that matches the path is an `allow` rule; no match is a denial.
abbrev pub allows : NamingPolicy → Bytes → Bool
allows [] path = false
allows (rule ∷ pol) path =
    if rule.matches path then beq rule.action action_allow else allows pol path

-- The actions that the config check lets through.
abbrev pub HasActions : NamingPolicy → Type 0
HasActions = All (λ rule. is_valid_naming_policy_action rule.action ≡ true)

pass_is_pass :
    (beq action_pass action_allow ≡ false)
    × (beq action_pass action_deny ≡ false)
    × (beq action_pass action_pass ≡ true)
unfolding beq
pass_is_pass = (refl, refl, refl)

-- A rule that does not match is passed over.
check_miss :
    (exp : ExportEntry) (rule : NamingRule) (pol : NamingPolicy)
    → rule.matches exp.path ≡ false
    → check_export_path exp (rule ∷ pol) ≡ check_export_path exp pol
unfolding check_export_path
check_miss exp rule pol miss = rw (miss, apply, pass_is_pass.0, pass_is_pass.1, pass_is_pass.2) refl

abbrev verdict : Bool → NamingError → Outcome NamingError (Unit {0})
verdict b e = if b then ok tt else err e

-- A rule that matches decides, since its action is `allow` or `deny`.
check_hit :
    (exp : ExportEntry) (rule : NamingRule) (pol : NamingPolicy)
    → rule.matches exp.path ≡ true
    → is_valid_naming_policy_action rule.action ≡ true
    → check_export_path exp (rule ∷ pol) ≡ verdict (beq rule.action action_allow) (denied exp.path)
unfolding check_export_path is_valid_naming_policy_action
check_hit exp rule pol hit valid = rw (hit, apply) (ground arith)

by_action :
    (b : Bool) (e : NamingError)
    → ((b ≡ true) × (verdict b e ≡ ok tt))
      ⊎ ((b ≡ false) × ((e' : NamingError) × (verdict b e ≡ err e')))
by_action true e = inl (refl, refl)
by_action false e = inr (refl, (e, refl))

check_export_path_lem :
    (exp : ExportEntry) (pol : NamingPolicy)
    → HasActions pol
    → ((allows pol exp.path ≡ true) × (check_export_path exp pol ≡ ok tt))
      ⊎ ((allows pol exp.path ≡ false) × ((e : NamingError) × (check_export_path exp pol ≡ err e)))
check_export_path_lem exp [] h =
    inr (refl, (default_denied exp.path, unfold check_export_path in refl))
check_export_path_lem exp (rule ∷ pol) (h, hs) = elim (Bool-cases (rule.matches exp.path)) [
  | inl hit ↦
      rw (hit, check_hit exp rule pol hit h)
        (by_action (beq rule.action action_allow) (denied exp.path))
  | inr miss ↦ rw (miss, check_miss exp rule pol miss) (check_export_path_lem exp pol hs)
]

-- With the actions that the config check lets through, `checkExportPaths()` succeeds exactly if for
-- every export the first rule that matches the path is an `allow` rule, and returns an error
-- otherwise; it does not panic.
pub check_export_paths_exact :
    (exps : Exports) (pol : NamingPolicy)
    → HasActions pol
    → ((all (λ exp. allows pol exp.path) exps ≡ true) × (check_export_paths exps pol ≡ ok tt))
      ⊎ ((all (λ exp. allows pol exp.path) exps ≡ false)
          × ((e : NamingError) × (check_export_paths exps pol ≡ err e)))
unfolding check_export_paths
check_export_paths_exact [] pol h = inl (refl, refl)
check_export_paths_exact (exp ∷ exps) pol h = elim (check_export_path_lem exp pol h) [
  | inl (yes_here, run) ↦ rw (yes_here, run) (check_export_paths_exact exps pol h)
  | inr (no_here, (e, stop)) ↦ inr (rw no_here, (e, rw stop))
]
