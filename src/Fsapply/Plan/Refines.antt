-- ===== src/Fsapply/Plan/Refines.antt =====
-- cmd/bcpfs-perms/fsapply/: EnsurePermissions() refines its plan.
use mathlib.Core.Path.{fun_ext}
use bcpfs.Prelude.{◌≡◌, refl, subst, List, [], ◌∷◌, ap, sym, ◌∙◌, ◌++◌, Bool}
use bcpfs.Prelude.Bytes.{Bytes}
use bcpfs.Config.{Root}
use bcpfs.Org.{Service, OrgUnit, Organization}
use bcpfs.Fsck.{Tree}
use bcpfs.Fsapply.{Script, System, Run, going, failed, crashed, ◌>>=◌}
use bcpfs.Fsapply.Trees.{
  ensure_root_dir, ensure_service_dirs, ensure_service_org_unit_dirs, ensure_org_unit_dirs,
  ensure_org_unit_service_links, ensure_org_unit_subdirs, ensure_symlinks, ensure_permissions,
}
use bcpfs.Fsapply.Scripts.{run_bash}
use bcpfs.Fsapply.Plan.{
  setup, below, no_script, link, clean_dirs, clean_links, does, run_commands, service_steps,
  srv_subdirs_steps, org_unit_steps, ou_links_steps, subdirs_steps, symlink_steps, service_tree,
  org_unit_tree, service_plan, org_unit_plan, plan, run_steps, Step, run_step, Runs, ends, steps_on,
  fails, crashes,
}
use bcpfs.Fsapply.Plan.Loops.{
  run_steps-err, run_steps-panic, >>=_assoc, run_steps-append, then_steps, service_dirs_lem,
  srv_subdirs_lem, org_unit_dirs_lem, ou_links_lem, subdirs_lem, symlinks_lem,
}

module _ {E S : Type 0} (sys : System E S) where
  service_plan_lem :
      (recursive : Bool) (t : Tree) (s : S)
      → (ensure_root_dir sys t.root s >>= λ s1.
          ensure_service_org_unit_dirs sys recursive t t.services
            (ensure_service_dirs sys t.root t.services s1))
        ≡ run_steps sys (service_plan recursive t) (going s)
  unfolding ensure_root_dir
  service_plan_lem recursive t s =
      then_steps sys (service_steps t.root t.services ++ srv_subdirs_steps recursive t t.services) _
        _
        (λ s1.
          srv_subdirs_lem sys recursive t t.services _
          ∙ ap (run_steps sys (srv_subdirs_steps recursive t t.services))
              (service_dirs_lem sys t.root t.services s1)
          ∙ sym (
              run_steps-append sys (service_steps t.root t.services)
                (srv_subdirs_steps recursive t t.services) (going s1)))

  org_unit_plan_lem :
      (recursive : Bool) (t : Tree) (s : S)
      → (ensure_root_dir sys t.root s >>= λ s1.
          ensure_org_unit_subdirs sys recursive t.root t.org_units (
            ensure_org_unit_service_links sys t t.org_units
              (ensure_org_unit_dirs sys t.root t.org_units s1)))
        ≡ run_steps sys (org_unit_plan recursive t) (going s)
  unfolding ensure_root_dir
  org_unit_plan_lem recursive t s =
      let dirs = org_unit_steps t.root t.org_units in
      let links = ou_links_steps t t.org_units in
      let subdirs = subdirs_steps recursive t.root t.org_units in
      then_steps sys (dirs ++ (links ++ subdirs)) _ _ (λ s1.
        subdirs_lem sys recursive t.root t.org_units _
        ∙ ap (run_steps sys subdirs) (
            ou_links_lem sys t t.org_units _
            ∙ ap (run_steps sys links) (org_unit_dirs_lem sys t.root t.org_units s1))
        ∙ sym (
            run_steps-append sys dirs (links ++ subdirs) (going s1)
            ∙ run_steps-append sys links subdirs (run_steps sys dirs (going s1))))

  plan_lem :
      (root : Bytes) (cfg : Root) (org : Organization) (accept : Service → OrgUnit → Bool)
      (recursive : Bool) (s : S)
      → ensure_permissions sys root cfg org accept recursive s
        ≡ run_steps sys (plan root cfg org accept recursive) (going s)
  unfolding ensure_permissions
  plan_lem root cfg org accept recursive s =
      let st = service_tree root cfg org accept in
      let ot = org_unit_tree root cfg org accept in
      let links = symlink_steps root cfg.symlinks in
      let rest : S → Run E S = λ s2. ensure_root_dir sys ot.root s2 >>= λ s3.
      (ensure_org_unit_subdirs sys recursive ot.root ot.org_units (
          ensure_org_unit_service_links sys ot ot.org_units
            (ensure_org_unit_dirs sys ot.root ot.org_units s3))
        >>= ensure_symlinks sys root cfg.symlinks) in
      let ends : (s2 : S)
          → rest s2 ≡ run_steps sys (org_unit_plan recursive ot ++ links) (going s2) =
        λ s2.
          sym (
            >>=_assoc sys (ensure_root_dir sys ot.root s2) _
              (ensure_symlinks sys root cfg.symlinks))
          ∙ ap (λ m. m >>= ensure_symlinks sys root cfg.symlinks)
              (org_unit_plan_lem recursive ot s2)
          ∙ then_steps sys links _ _ (symlinks_lem sys root cfg.symlinks)
          ∙ sym (run_steps-append sys (org_unit_plan recursive ot) links (going s2)) in
      sym (>>=_assoc sys (ensure_root_dir sys st.root s) _ _)
      ∙ ap (λ m. m >>= rest) (service_plan_lem recursive st s)
      ∙ then_steps sys (org_unit_plan recursive ot ++ links) _ _ ends
      ∙ sym (
          run_steps-append sys (service_plan recursive st) (org_unit_plan recursive ot ++ links)
            (going s))

  run_bash-run_commands :
      (script : Script) (s : S) → run_bash sys script s ≡ run_commands sys script s
  unfolding run_bash
  run_bash-run_commands [] s = refl
  run_bash-run_commands (c ∷ script) s =
      ap (λ f. sys.exec c s >>= f) (fun_ext (run_bash-run_commands script))

  run_step-does : (step : Step) (s : S) → run_step sys step s ≡ does sys step s
  run_step-does (setup script) s = run_bash-run_commands script s
  run_step-does (below script) s = run_bash-run_commands script s
  run_step-does no_script s = refl
  run_step-does (link dest path) s = refl
  run_step-does (clean_dirs dir expected) s = refl
  run_step-does (clean_links dir expected) s = refl

  step-Runs :
      (step : Step) (steps : List Step) (s : S) (r : Run E S)
      → ((s : S) → Runs sys steps s (run_steps sys steps (going s)))
      → does sys step s ≡ r
      → Runs sys (step ∷ steps) s (run_steps sys steps r)
  step-Runs step steps s (going s') rest h = steps_on h (rest s')
  step-Runs step steps s (failed e s') rest h =
      subst (Runs sys (step ∷ steps) s) (sym (run_steps-err sys steps e s')) (fails h)
  step-Runs step steps s (crashed s') rest h =
      subst (Runs sys (step ∷ steps) s) (sym (run_steps-panic sys steps s')) (crashes h)

  run_steps-Runs : (steps : List Step) (s : S) → Runs sys steps s (run_steps sys steps (going s))
  run_steps-Runs [] s = ends
  run_steps-Runs (step ∷ steps) s =
      step-Runs step steps s (run_step sys step s) (run_steps-Runs steps)
        (sym (run_step-does step s))

  -- EnsurePermissions() runs the steps of `plan` one after the other, each in the state that the one
  -- before has left. At the first error or panic it ends with it, in the state that the failing step
  -- has left: the loops of its trees, which go on after an error, change nothing then.
  pub ensure_permissions_lem :
      (root : Bytes) (cfg : Root) (org : Organization) (accept : Service → OrgUnit → Bool)
      (recursive : Bool) (s : S)
      → Runs sys
          (plan root cfg org accept recursive)
          s
          (ensure_permissions sys root cfg org accept recursive s)
  ensure_permissions_lem root cfg org accept recursive s =
      subst (Runs sys (plan root cfg org accept recursive) s)
        (sym (plan_lem root cfg org accept recursive s))
        (run_steps-Runs (plan root cfg org accept recursive) s)
