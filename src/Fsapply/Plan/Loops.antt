-- ===== src/Fsapply/Plan/Loops.antt =====
-- cmd/bcpfs-perms/fsapply/: the loops of the trees as lists of steps.
use bcpfs.Prelude.{
  ◌≡◌, refl, ap, sym, ◌∙◌, List, [], ◌∷◌, ◌++◌, Bool, true, false, Bool-cases, Option-cases, inl,
  inr,
}
use bcpfs.Prelude.Bytes.{Bytes}
use bcpfs.SlashPath.{path_join}
use bcpfs.Config.{Symlink}
use bcpfs.Org.{DirWithPolicy, Service, OrgUnit}
use bcpfs.Fsck.{Tree}
use bcpfs.Fsapply.{System, Run, going, failed, crashed, ◌>>=◌}
use bcpfs.Fsapply.Scripts.{ensure_service_dir_sh}
use bcpfs.Fsapply.Trees.{
  expected_org_units, expected_services, ensure_service_dir, ensure_service_dirs, ensure_sou,
  ensure_sous, rm_unexpected_subdirs, ensure_srv_subdirs, ensure_service_org_unit_dirs,
  ensure_org_unit_dirs, ensure_ousln, ensure_ouslns, rm_unexpected_links, ensure_ou_links,
  ensure_org_unit_service_links, ensure_subdir, ensure_subdirs, ensure_org_unit_subdirs,
  ensure_symlinks, ensure_symlink,
}
use bcpfs.Fsapply.Plan.{
  Step, clean_dirs, clean_links, service_step, service_steps, sou_steps, sous_steps,
  srv_subdirs_steps, org_unit_steps, links_steps, ou_links_steps, subdir_step, subdir_steps,
  subdirs_steps, symlink_steps, run_step, run_steps,
}
use bcpfs.Fsapply.Plan.Cleaning.{rm_unexpected_subdirs_lem, rm_unexpected_links_lem}

module _ {E S : Type 0} (sys : System E S) where
  pub run_steps-append :
      (a b : List Step) (st : Run E S)
      → run_steps sys (a ++ b) st ≡ run_steps sys b (run_steps sys a st)
  run_steps-append [] b st = refl
  run_steps-append (step ∷ a) b st = run_steps-append a b (st >>= run_step sys step)

  pub run_steps-err : (a : List Step) (e : E) (s : S) → run_steps sys a (failed e s) ≡ failed e s
  run_steps-err [] e s = refl
  run_steps-err (step ∷ a) e s = run_steps-err a e s

  pub run_steps-panic : (a : List Step) (s : S) → run_steps sys a (crashed s) ≡ crashed s
  run_steps-panic [] s = refl
  run_steps-panic (step ∷ a) s = run_steps-panic a s

  pub >>=_assoc : (m : Run E S) (f g : S → Run E S) → ((m >>= f) >>= g) ≡ (m >>= λ s. f s >>= g)
  >>=_assoc (going s) f g = refl
  >>=_assoc (failed e s) f g = refl
  >>=_assoc (crashed s) f g = refl

  -- What follows a step, in terms of its result.
  pub then_steps :
      (steps : List Step) (f : S → Run E S) (m : Run E S)
      → ((s : S) → f s ≡ run_steps sys steps (going s))
      → (m >>= f) ≡ run_steps sys steps m
  then_steps steps f (going s) h = h s
  then_steps steps f (failed e s) h = sym (run_steps-err steps e s)
  then_steps steps f (crashed s) h = sym (run_steps-panic steps s)

  pub service_step_lem :
      (root : Bytes) (x : Service) (s : S)
      → ensure_service_dir sys root x s ≡ run_step sys (service_step root x) s
  unfolding ensure_service_dir
  service_step_lem root x s =
      elim (Option-cases (
        ensure_service_dir_sh (path_join (root ∷ x.name ∷ [])) x.service_group.gid
          x.service_ops_group.gid x.super_group.gid x.access)) [
            | inl e ↦ rw (e, ensure_service_dir) refl
            | inr (script, e) ↦ rw (e, ensure_service_dir) refl
          ]

  pub service_dirs_lem :
      (root : Bytes) (xs : List Service) (s : S)
      → ensure_service_dirs sys root xs s ≡ run_steps sys (service_steps root xs) (going s)
  unfolding ensure_service_dirs
  service_dirs_lem root [] s = refl
  service_dirs_lem root (x ∷ xs) s =
      ap (λ m. m >>= ensure_service_dirs sys root xs) (service_step_lem root x s)
      ∙ then_steps (service_steps root xs) (ensure_service_dirs sys root xs)
          (run_step sys (service_step root x) s) (service_dirs_lem root xs)

  pub sou_lem :
      (recursive : Bool) (root : Bytes) (x : Service) (ou : OrgUnit) (st : Run E S)
      → ensure_sou sys recursive root x ou st ≡ run_steps sys (sou_steps recursive root x ou) st
  unfolding ensure_sou
  sou_lem true root x ou st = then_steps (sou_steps true root x ou) _ st (λ s. refl)
  sou_lem false root x ou st =
      then_steps (sou_steps false root x ou) _ st (λ s. then_steps [] going _ (λ s'. refl))

  pub sous_lem :
      (recursive : Bool) (t : Tree) (x : Service) (ous : List OrgUnit) (st : Run E S)
      → ensure_sous sys recursive t x ous st ≡ run_steps sys (sous_steps recursive t x ous) st
  unfolding ensure_sous
  sous_lem recursive t x [] st = refl
  sous_lem recursive t x (ou ∷ ous) st = elim (Bool-cases (t.accept x ou)) [
    | inl e ↦ rw e (
        sous_lem recursive t x ous (ensure_sou sys recursive t.root x ou st)
        ∙ ap (run_steps sys (sous_steps recursive t x ous)) (sou_lem recursive t.root x ou st)
        ∙ sym
            (run_steps-append (sou_steps recursive t.root x ou) (sous_steps recursive t x ous) st))
    | inr e ↦ rw e (sous_lem recursive t x ous st)
  ]

  -- The removal after a loop, on the state that the loop leaves.
  pub clean_dirs_lem :
      (dir : Bytes) (expected : List Bytes) (st : Run E S)
      → rm_unexpected_subdirs sys dir expected st ≡ (st >>= run_step sys (clean_dirs dir expected))
  unfolding rm_unexpected_subdirs
  clean_dirs_lem dir expected (going s) = rm_unexpected_subdirs_lem sys dir expected s
  clean_dirs_lem dir expected (failed e s) = refl
  clean_dirs_lem dir expected (crashed s) = refl

  pub clean_links_lem :
      (dir : Bytes) (expected : List Bytes) (st : Run E S)
      → rm_unexpected_links sys dir expected st ≡ (st >>= run_step sys (clean_links dir expected))
  unfolding rm_unexpected_links
  clean_links_lem dir expected (going s) = rm_unexpected_links_lem sys dir expected s
  clean_links_lem dir expected (failed e s) = refl
  clean_links_lem dir expected (crashed s) = refl

  pub srv_subdirs_step :
      (recursive : Bool) (t : Tree) (x : Service) (st : Run E S)
      → ensure_srv_subdirs sys recursive t x st ≡ (
          run_steps sys (sous_steps recursive t x t.org_units) st
          >>= run_step sys
              (clean_dirs (path_join (t.root ∷ x.name ∷ [])) (expected_org_units t x t.org_units)))
  unfolding ensure_srv_subdirs
  srv_subdirs_step recursive t x (going s) =
      clean_dirs_lem _ _ _
      ∙ ap
          (λ m.
            m
            >>= run_step sys (
                clean_dirs (path_join (t.root ∷ x.name ∷ [])) (expected_org_units t x t.org_units)))
          (sous_lem recursive t x t.org_units (going s))
  srv_subdirs_step recursive t x (failed e s) =
      rw (run_steps-err (sous_steps recursive t x t.org_units) e s) refl
  srv_subdirs_step recursive t x (crashed s) =
      rw (run_steps-panic (sous_steps recursive t x t.org_units) s) refl

  pub srv_subdirs_lem :
      (recursive : Bool) (t : Tree) (xs : List Service) (st : Run E S)
      → ensure_service_org_unit_dirs sys recursive t xs st
        ≡ run_steps sys (srv_subdirs_steps recursive t xs) st
  unfolding ensure_service_org_unit_dirs ensure_srv_subdirs
  srv_subdirs_lem recursive t [] st = refl
  srv_subdirs_lem recursive t (x ∷ xs) st =
      ap (λ m. ensure_service_org_unit_dirs sys recursive t xs m)
        (srv_subdirs_step recursive t x st)
      ∙ srv_subdirs_lem recursive t xs _
      ∙ sym (
          run_steps-append (sous_steps recursive t x t.org_units)
            (clean_dirs (path_join (t.root ∷ x.name ∷ [])) (expected_org_units t x t.org_units)
              ∷ srv_subdirs_steps recursive t xs)
            st)

  pub org_unit_dirs_lem :
      (root : Bytes) (os : List OrgUnit) (s : S)
      → ensure_org_unit_dirs sys root os s ≡ run_steps sys (org_unit_steps root os) (going s)
  unfolding ensure_org_unit_dirs
  org_unit_dirs_lem root [] s = refl
  org_unit_dirs_lem root (o ∷ os) s =
      then_steps (org_unit_steps root os) _ _ (org_unit_dirs_lem root os)

  pub links_lem :
      (t : Tree) (ou : OrgUnit) (xs : List Service) (st : Run E S)
      → ensure_ouslns sys t ou xs st ≡ run_steps sys (links_steps t ou xs) st
  unfolding ensure_ouslns ensure_ousln ensure_symlink
  links_lem t ou [] st = refl
  links_lem t ou (x ∷ xs) st = elim (Bool-cases (t.accept x ou)) [
    | inl e ↦ rw e (links_lem t ou xs (ensure_ousln sys t ou x st))
    | inr e ↦ rw e (links_lem t ou xs st)
  ]

  pub ou_links_lem :
      (t : Tree) (ous : List OrgUnit) (st : Run E S)
      → ensure_org_unit_service_links sys t ous st ≡ run_steps sys (ou_links_steps t ous) st
  unfolding ensure_org_unit_service_links ensure_ou_links
  ou_links_lem t [] st = refl
  ou_links_lem t (ou ∷ ous) st =
      let clean =
        clean_links (path_join (t.root ∷ ou.name ∷ [])) (expected_services t ou t.services) in
      ap (ensure_org_unit_service_links sys t ous) (
        clean_links_lem _ _ (ensure_ouslns sys t ou t.services st)
        ∙ ap (λ m. m >>= run_step sys clean) (links_lem t ou t.services st))
      ∙ ou_links_lem t ous _
      ∙ sym (run_steps-append (links_steps t ou t.services) (clean ∷ ou_links_steps t ous) st)

  pub subdir_step_lem :
      (recursive : Bool) (root : Bytes) (o : OrgUnit) (d : DirWithPolicy) (st : Run E S)
      → ensure_subdir sys recursive root o d st ≡ run_steps sys (subdir_step recursive root o d) st
  unfolding ensure_subdir
  subdir_step_lem true root o d st = then_steps (subdir_step true root o d) _ st (λ s. refl)
  subdir_step_lem false root o d st =
      then_steps (subdir_step false root o d) _ st (λ s. then_steps [] going _ (λ s'. refl))

  pub subdir_lem :
      (recursive : Bool) (root : Bytes) (o : OrgUnit) (ds : List DirWithPolicy) (st : Run E S)
      → ensure_subdirs sys recursive root o ds st
        ≡ run_steps sys (subdir_steps recursive root o ds) st
  unfolding ensure_subdirs ensure_subdir
  subdir_lem recursive root o [] st = refl
  subdir_lem recursive root o (d ∷ ds) st =
      subdir_lem recursive root o ds (ensure_subdir sys recursive root o d st)
      ∙ ap (run_steps sys (subdir_steps recursive root o ds))
          (subdir_step_lem recursive root o d st)
      ∙ sym
          (run_steps-append (subdir_step recursive root o d) (subdir_steps recursive root o ds) st)

  pub subdirs_lem :
      (recursive : Bool) (root : Bytes) (os : List OrgUnit) (st : Run E S)
      → ensure_org_unit_subdirs sys recursive root os st
        ≡ run_steps sys (subdirs_steps recursive root os) st
  unfolding ensure_org_unit_subdirs
  subdirs_lem recursive root [] st = refl
  subdirs_lem recursive root (o ∷ os) st =
      subdirs_lem recursive root os (ensure_subdirs sys recursive root o o.subdirs st)
      ∙ ap (run_steps sys (subdirs_steps recursive root os))
          (subdir_lem recursive root o o.subdirs st)
      ∙ sym (
          run_steps-append (subdir_steps recursive root o o.subdirs)
            (subdirs_steps recursive root os) st)

  pub symlinks_lem :
      (root : Bytes) (ls : List Symlink) (s : S)
      → ensure_symlinks sys root ls s ≡ run_steps sys (symlink_steps root ls) (going s)
  unfolding ensure_symlinks ensure_symlink
  symlinks_lem root [] s = refl
  symlinks_lem root (l ∷ ls) s = then_steps (symlink_steps root ls) _ _ (symlinks_lem root ls)
