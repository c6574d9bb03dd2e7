-- ===== src/Fsapply/Agrees/Steps.antt =====
-- cmd/bcpfs-perms/fsapply/ and cmd/bcpfs-perms/fsck/: the setups of the steps of each loop.
use bcpfs.Prelude.{
  ℕ, ◌≡◌, ◌≢◌, refl, ap, ◌∙◌, List, [], ◌∷◌, ◌++◌, Bool, true, false, All, Bool-cases, inl, inr,
}
use bcpfs.Prelude.Bytes.{Bytes}
use bcpfs.SlashPath.{path_join}
use bcpfs.Config.{Symlink}
use bcpfs.Org.{
  AccessPolicy, access_unspecified, access_per_service, access_all_org_units, is_per_service,
  is_all_org_units, DirWithPolicy, Service, OrgUnit,
}
use bcpfs.Fsck.{
  Acl, service, Tree, service_dirs_list, sou_entry, sou_entries, service_org_unit_dirs_list,
  org_unit_dirs_list, subdir_entries, org_unit_subdirs_list,
}
use bcpfs.Fsapply.Scripts.{ensure_service_dir_sh}
use bcpfs.Fsapply.Plan.{
  Step, setup_step, service_steps, sou_steps, sous_steps, srv_subdirs_steps, org_unit_steps,
  links_steps, ou_links_steps, subdir_steps, subdirs_steps, symlink_steps,
}
use bcpfs.Org.Parse.Policies.{HasPolicy}
use bcpfs.Fsapply.Agrees.Setups.{setups, dirs, SetUpAll, setups-append, SetUpAll-entries}
use bcpfs.Fsapply.Agrees.Entries.{
  service-SetsUp, service_all-SetsUp, service_org_unit-SetsUp, org_unit-SetsUp, subdir-SetsUp,
}

pub service_script-SetsUp :
    (path : Bytes) (gid ops_gid super_gid : ℕ) (access : AccessPolicy) (steps : List Step)
    (ds : List (Bytes × Acl))
    → access ≢ access_unspecified
    → SetUpAll (setups steps) ds
    → SetUpAll
        (setups (setup_step (ensure_service_dir_sh path gid ops_gid super_gid access) ∷ steps))
        ((path, service gid ops_gid super_gid access) ∷ ds)
unfolding ensure_service_dir_sh is_all_org_units is_per_service
service_script-SetsUp path gid ops_gid super_gid access_unspecified steps ds h hs = absurd (h refl)
service_script-SetsUp path gid ops_gid super_gid access_per_service steps ds h hs =
    (service-SetsUp path gid ops_gid super_gid, hs)
service_script-SetsUp path gid ops_gid super_gid access_all_org_units steps ds h hs =
    (service_all-SetsUp path gid ops_gid super_gid, hs)

pub service_steps_lem :
    (root : Bytes) (xs : List Service)
    → All HasPolicy xs
    → SetUpAll (setups (service_steps root xs)) (dirs (service_dirs_list root xs))
unfolding service_dirs_list
service_steps_lem root [] h = tt
service_steps_lem root (x ∷ xs) (hx, hs) =
    service_script-SetsUp (path_join (root ∷ x.name ∷ [])) x.service_group.gid
      x.service_ops_group.gid x.super_group.gid x.access (service_steps root xs)
      (dirs (service_dirs_list root xs)) hx (service_steps_lem root xs hs)

pub sou_steps_lem :
    (recursive : Bool) (root : Bytes) (x : Service) (ou : OrgUnit)
    → SetUpAll (setups (sou_steps recursive root x ou)) (dirs (sou_entry root x ou ∷ []))
unfolding sou_entry
sou_steps_lem true root x ou = (service_org_unit-SetsUp _ _ _ _ _, tt)
sou_steps_lem false root x ou = (service_org_unit-SetsUp _ _ _ _ _, tt)

pub sous_steps_lem :
    (recursive : Bool) (t : Tree) (x : Service) (ous : List OrgUnit)
    → SetUpAll (setups (sous_steps recursive t x ous)) (dirs (sou_entries t x ous))
unfolding sou_entries
sous_steps_lem recursive t x [] = tt
sous_steps_lem recursive t x (ou ∷ ous) = elim (Bool-cases (t.accept x ou)) [
  | inl e ↦ rw e (
      SetUpAll-entries (sou_steps recursive t.root x ou) (sous_steps recursive t x ous)
        (sou_entry t.root x ou ∷ []) (sou_entries t x ous) (sou_steps_lem recursive t.root x ou)
        (sous_steps_lem recursive t x ous))
  | inr e ↦ rw e (sous_steps_lem recursive t x ous)
]

pub srv_subdirs_steps_lem :
    (recursive : Bool) (t : Tree) (xs : List Service)
    → SetUpAll (setups (srv_subdirs_steps recursive t xs)) (dirs (service_org_unit_dirs_list t xs))
unfolding service_org_unit_dirs_list
srv_subdirs_steps_lem recursive t [] = tt
srv_subdirs_steps_lem recursive t (x ∷ xs) =
    SetUpAll-entries (sous_steps recursive t x t.org_units) (_ ∷ srv_subdirs_steps recursive t xs)
      (sou_entries t x t.org_units) (service_org_unit_dirs_list t xs)
      (sous_steps_lem recursive t x t.org_units) (srv_subdirs_steps_lem recursive t xs)

pub org_unit_steps_lem :
    (root : Bytes) (os : List OrgUnit)
    → SetUpAll (setups (org_unit_steps root os)) (dirs (org_unit_dirs_list root os))
unfolding org_unit_dirs_list
org_unit_steps_lem root [] = tt
org_unit_steps_lem root (o ∷ os) = (org_unit-SetsUp _ _, org_unit_steps_lem root os)

pub links_steps_none :
    (t : Tree) (ou : OrgUnit) (xs : List Service) → setups (links_steps t ou xs) ≡ []
links_steps_none t ou [] = refl
links_steps_none t ou (x ∷ xs) = elim (Bool-cases (t.accept x ou)) [
  | inl e ↦ rw e (links_steps_none t ou xs)
  | inr e ↦ rw e (links_steps_none t ou xs)
]

pub ou_links_steps_none : (t : Tree) (ous : List OrgUnit) → setups (ou_links_steps t ous) ≡ []
ou_links_steps_none t [] = refl
ou_links_steps_none t (ou ∷ ous) =
    setups-append (links_steps t ou t.services) (_ ∷ ou_links_steps t ous)
    ∙ ap (λ l. l ++ setups (ou_links_steps t ous)) (links_steps_none t ou t.services)
    ∙ ou_links_steps_none t ous

pub subdir_steps_lem :
    (recursive : Bool) (root : Bytes) (o : OrgUnit) (ds : List DirWithPolicy)
    → SetUpAll (setups (subdir_steps recursive root o ds)) (dirs (subdir_entries root o ds))
unfolding subdir_entries
subdir_steps_lem recursive root o [] = tt
subdir_steps_lem true root o (d ∷ ds) = (subdir-SetsUp _ _ _, subdir_steps_lem true root o ds)
subdir_steps_lem false root o (d ∷ ds) = (subdir-SetsUp _ _ _, subdir_steps_lem false root o ds)

pub subdirs_steps_lem :
    (recursive : Bool) (root : Bytes) (os : List OrgUnit)
    → SetUpAll (setups (subdirs_steps recursive root os)) (dirs (org_unit_subdirs_list root os))
unfolding org_unit_subdirs_list
subdirs_steps_lem recursive root [] = tt
subdirs_steps_lem recursive root (o ∷ os) =
    SetUpAll-entries (subdir_steps recursive root o o.subdirs) (subdirs_steps recursive root os)
      (subdir_entries root o o.subdirs) (org_unit_subdirs_list root os)
      (subdir_steps_lem recursive root o o.subdirs) (subdirs_steps_lem recursive root os)

pub symlink_steps_none : (root : Bytes) (ls : List Symlink) → setups (symlink_steps root ls) ≡ []
symlink_steps_none root [] = refl
symlink_steps_none root (l ∷ ls) = symlink_steps_none root ls
