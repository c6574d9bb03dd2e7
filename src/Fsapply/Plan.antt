-- ===== src/Fsapply/Plan.antt =====
-- cmd/bcpfs-perms/fsapply/: what EnsurePermissions() does, as a list of steps in one pass that stops
-- at the first error.
pub mod Cleaning
pub mod Loops
pub mod Refines
use bcpfs.Prelude.{
  not, ◌&&◌, any, ok, err, panic, ℕ, ◌≡◌, refl, ap, sym, ◌∙◌, List, [], ◌∷◌, ◌++◌, Bool, true,
  false, if◌then◌else◌, Option, none, some, Bool-cases, Option-cases, inl, inr, arith,
}
use bcpfs.Prelude.Bytes.{Bytes, beq}
use bcpfs.SlashPath.{path_join}
use bcpfs.Config.{Root, Symlink}
use bcpfs.Org.{DirWithPolicy, Service, OrgUnit, Organization}
use bcpfs.Fsck.{Tree}
use bcpfs.Fsapply.{
  Script, System, Run, going, failed, crashed, ◌>>=◌, Child, ChildKind, child_dir, child_link,
  child_other, removed, not_empty, remove_failed,
}
use bcpfs.Fsapply.Scripts.{
  run_bash, ensure_toplevel_sh, ensure_service_dir_sh, ensure_sou_sh, ensure_sou_recursive_sh,
  ensure_org_unit_sh, ensure_org_unit_subdir_sh, ensure_org_unit_subdir_recursive_sh,
}
use bcpfs.Fsapply.Trees.{
  expected_org_units, expected_services, ousln_dest, ensure_root_dir, ensure_service_dir,
  ensure_service_dirs, ensure_sou, ensure_sous, rm_subdirs, rm_unexpected_subdirs,
  ensure_srv_subdirs, ensure_service_org_unit_dirs, ensure_org_unit_dirs, ensure_symlink,
  ensure_ousln, ensure_ouslns, rm_links, rm_unexpected_links, ensure_ou_links,
  ensure_org_unit_service_links, ensure_subdir, ensure_subdirs, ensure_org_unit_subdirs,
  ensure_symlinks, ensure_permissions,
}

pub data Step : Type 0 where
  -- A script that sets up the directory of the path, and one for what is below it.
  setup below : Script → Step
  -- The setup of a service with an access policy for which there is no script.
  no_script : Step
  -- A symlink: its target and its path.
  link : Bytes → Bytes → Step
  -- Removal of the directories, or the symlinks, with other names.
  clean_dirs clean_links : Bytes → List Bytes → Step

-- A step that an option asks for.
abbrev pub only_if : Bool → Step → List Step
only_if true step = step ∷ []
only_if false step = []

abbrev pub setup_step : Option Script → Step
setup_step none = no_script
setup_step (some script) = setup script

abbrev pub service_step : Bytes → Service → Step
service_step root x = setup_step (
    ensure_service_dir_sh (path_join (root ∷ x.name ∷ [])) x.service_group.gid
      x.service_ops_group.gid x.super_group.gid x.access)

abbrev pub service_steps : Bytes → List Service → List Step
service_steps root [] = []
service_steps root (x ∷ xs) = service_step root x ∷ service_steps root xs

abbrev pub sou_steps : Bool → Bytes → Service → OrgUnit → List Step
sou_steps recursive root x ou =
    let path = path_join (root ∷ x.name ∷ ou.name ∷ []) in
    setup (
      ensure_sou_sh path ou.org_unit_group.gid x.service_group.gid x.service_ops_group.gid
        x.super_group.gid)
    ∷ only_if recursive
        (below (ensure_sou_recursive_sh path ou.org_unit_group.gid x.service_ops_group.gid))

abbrev pub sous_steps : Bool → Tree → Service → List OrgUnit → List Step
sous_steps recursive st x [] = []
sous_steps recursive st x (ou ∷ ous) =
    (if st.accept x ou then sou_steps recursive st.root x ou else [])
    ++ sous_steps recursive st x ous

abbrev pub srv_subdirs_steps : Bool → Tree → List Service → List Step
srv_subdirs_steps recursive st [] = []
srv_subdirs_steps recursive st (x ∷ xs) =
    sous_steps recursive st x st.org_units
    ++ (clean_dirs (path_join (st.root ∷ x.name ∷ [])) (expected_org_units st x st.org_units)
        ∷ srv_subdirs_steps recursive st xs)

abbrev pub org_unit_steps : Bytes → List OrgUnit → List Step
org_unit_steps root [] = []
org_unit_steps root (o ∷ os) =
    setup (ensure_org_unit_sh (path_join (root ∷ o.name ∷ [])) o.org_unit_group.gid)
    ∷ org_unit_steps root os

abbrev pub links_steps : Tree → OrgUnit → List Service → List Step
links_steps ot ou [] = []
links_steps ot ou (x ∷ xs) =
    (if ot.accept x ou
      then link (ousln_dest ot.service_dir ou x) (path_join (ot.root ∷ ou.name ∷ x.name ∷ [])) ∷ []
      else [])
    ++ links_steps ot ou xs

abbrev pub ou_links_steps : Tree → List OrgUnit → List Step
ou_links_steps ot [] = []
ou_links_steps ot (ou ∷ ous) =
    links_steps ot ou ot.services
    ++ (clean_links (path_join (ot.root ∷ ou.name ∷ [])) (expected_services ot ou ot.services)
        ∷ ou_links_steps ot ous)

abbrev pub subdir_step : Bool → Bytes → OrgUnit → DirWithPolicy → List Step
subdir_step recursive root o d =
    let path = path_join (root ∷ o.name ∷ d.name ∷ []) in
    setup (ensure_org_unit_subdir_sh path o.org_unit_group.gid d.policy)
    ∷ only_if recursive
        (below (ensure_org_unit_subdir_recursive_sh path o.org_unit_group.gid d.policy))

abbrev pub subdir_steps : Bool → Bytes → OrgUnit → List DirWithPolicy → List Step
subdir_steps recursive root o [] = []
subdir_steps recursive root o (d ∷ ds) =
    subdir_step recursive root o d ++ subdir_steps recursive root o ds

abbrev pub subdirs_steps : Bool → Bytes → List OrgUnit → List Step
subdirs_steps recursive root [] = []
subdirs_steps recursive root (o ∷ os) =
    subdir_steps recursive root o o.subdirs ++ subdirs_steps recursive root os

abbrev pub symlink_steps : Bytes → List Symlink → List Step
symlink_steps root [] = []
symlink_steps root (l ∷ ls) = link l.target (path_join (root ∷ l.path ∷ [])) ∷ symlink_steps root ls

abbrev pub service_tree : Bytes → Root → Organization → (Service → OrgUnit → Bool) → Tree
service_tree root cfg org accept = record {
  root = path_join (root ∷ cfg.service_dir ∷ []);
  service_dir = cfg.service_dir;
  services = org.services;
  org_units = org.org_units;
  accept = accept;
}

abbrev pub org_unit_tree : Bytes → Root → Organization → (Service → OrgUnit → Bool) → Tree
org_unit_tree root cfg org accept = record (service_tree root cfg org accept) {
  root = path_join (root ∷ cfg.org_unit_dir ∷ []);
}

-- The steps below the root dir of the services, and of the org units.
abbrev pub service_plan : Bool → Tree → List Step
service_plan recursive t =
    setup (ensure_toplevel_sh t.root)
    ∷ (service_steps t.root t.services ++ srv_subdirs_steps recursive t t.services)

abbrev pub org_unit_plan : Bool → Tree → List Step
org_unit_plan recursive t =
    setup (ensure_toplevel_sh t.root)
    ∷ (org_unit_steps t.root t.org_units
        ++ (ou_links_steps t t.org_units ++ subdirs_steps recursive t.root t.org_units))

abbrev pub plan : Bytes → Root → Organization → (Service → OrgUnit → Bool) → Bool → List Step
plan root cfg org accept recursive =
    service_plan recursive (service_tree root cfg org accept)
    ++ (org_unit_plan recursive (org_unit_tree root cfg org accept)
        ++ symlink_steps root cfg.symlinks)

abbrev pub is_child_dir : ChildKind → Bool
is_child_dir child_dir = true
is_child_dir child_link = false
is_child_dir child_other = false

abbrev pub is_child_link : ChildKind → Bool
is_child_link child_dir = false
is_child_link child_link = true
is_child_link child_other = false

-- The names of the children of the kind that are not expected.
abbrev pub unwanted : (ChildKind → Bool) → List Bytes → List Child → List Bytes
unwanted is_kind expected [] = []
unwanted is_kind expected (c ∷ children) =
    if is_kind c.kind && not (any (λ n. beq n c.name) expected)
    then c.name ∷ unwanted is_kind expected children
    else unwanted is_kind expected children

module _ {E S : Type 0} (sys : System E S) where
  -- The children are removed one by one. A directory that is not empty may be kept; another error
  -- ends the run.
  abbrev pub remove_all : Bool → Bytes → List Bytes → S → Run E S
  remove_all may_keep dir [] s = going s
  remove_all may_keep dir (n ∷ names) s = elim (sys.remove (path_join (dir ∷ n ∷ [])) s) [
    | removed s' ↦ remove_all may_keep dir names s'
    | not_empty e ↦ if may_keep then remove_all may_keep dir names s else failed e s
    | remove_failed e ↦ failed e s
  ]

  abbrev pub clean_children : Bool → (ChildKind → Bool) → Bytes → List Bytes → S → Run E S
  clean_children may_keep is_kind dir expected s = elim (sys.read_dir dir s) [
    | ok children ↦ remove_all may_keep dir (unwanted is_kind expected children) s
    | err e ↦ failed e s
    | panic ↦ crashed s
  ]

  -- What the code does for one step.
  abbrev pub run_step : Step → S → Run E S
  run_step (setup script) s = run_bash sys script s
  run_step (below script) s = run_bash sys script s
  run_step no_script s = crashed s
  run_step (link dest path) s =
      if sys.is_dest_symlink dest path s then going s else sys.symlink dest path s
  run_step (clean_dirs dir expected) s = clean_children true is_child_dir dir expected s
  run_step (clean_links dir expected) s = clean_children false is_child_link dir expected s

  abbrev pub run_steps : List Step → Run E S → Run E S
  run_steps [] st = st
  run_steps (step ∷ steps) st = run_steps steps (st >>= run_step step)

  -- A script is run up to its first command that does not go on.
  abbrev pub run_commands : Script → S → Run E S
  run_commands [] s = going s
  run_commands (c ∷ script) s = sys.exec c s >>= run_commands script

  -- What one step does, with the commands of the scripts.
  abbrev pub does : Step → S → Run E S
  does (setup script) s = run_commands script s
  does (below script) s = run_commands script s
  does no_script s = crashed s
  does (link dest path) s = run_step (link dest path) s
  does (clean_dirs dir expected) s = clean_children true is_child_dir dir expected s
  does (clean_links dir expected) s = clean_children false is_child_link dir expected s

  -- A run of the steps in order, from a state: each step goes on in the state that the one before has
  -- left, and after an error or a panic no step does anything.
  pub data Runs : List Step → S → Run E S → Type 0 where
    ends : {s : S} → Runs [] s (going s)
    steps_on :
        {step : Step} {steps : List Step} {s s' : S} {r : Run E S}
        → does step s ≡ going s'
        → Runs steps s' r
        → Runs (step ∷ steps) s r
    fails :
        {step : Step} {steps : List Step} {s s' : S} {e : E}
        → does step s ≡ failed e s'
        → Runs (step ∷ steps) s (failed e s')
    crashes :
        {step : Step} {steps : List Step} {s s' : S}
        → does step s ≡ crashed s'
        → Runs (step ∷ steps) s (crashed s')
