-- ===== src/Fsapply/Agrees/Setups.antt =====
-- cmd/bcpfs-perms/fsapply/: the scripts among the steps, and the directories among the expected entries.
use bcpfs.Prelude.{◌≡◌, refl, ap, sym, subst, List, [], ◌∷◌, ◌++◌}
use bcpfs.Prelude.Bytes.{Bytes}
use bcpfs.Org.{}
use bcpfs.Fsck
use bcpfs.Fsck.{
  Acl, simple, service, Entry, dir, Tree, service_dirs_list, sou_entry, sou_entries,
  service_org_unit_dirs_list, org_unit_dirs_list, ou_links, link_dest, service_is_of_facility,
  org_unit_service_links_list, subdir_entries, org_unit_subdirs_list,
}
use bcpfs.Fsapply.{Script}
use bcpfs.Fsapply.Plan.{Step, setup, below, no_script, link, clean_dirs, clean_links}
use bcpfs.Fsapply.Agrees.{SetsUp}
use bcpfs.Fsapply.Agrees.Entries.{}

-- The scripts that set up directories, in order.
abbrev pub setups : List Step → List Script
setups [] = []
setups (setup script ∷ steps) = script ∷ setups steps
setups (below script ∷ steps) = setups steps
setups (no_script ∷ steps) = setups steps
setups (link dest path ∷ steps) = setups steps
setups (clean_dirs path names ∷ steps) = setups steps
setups (clean_links path names ∷ steps) = setups steps

-- The directories among the entries, with their ACLs.
abbrev pub dirs : List Entry → List (Bytes × Acl)
dirs [] = []
dirs (dir path acl ∷ entries) = (path, acl) ∷ dirs entries
dirs (Fsck.link path target ∷ entries) = dirs entries

-- One script for each directory.
abbrev pub SetUpAll : List Script → List (Bytes × Acl) → Type 0
SetUpAll [] [] = Unit
SetUpAll [] (d ∷ ds) = ⊥
SetUpAll (script ∷ scripts) [] = ⊥
SetUpAll (script ∷ scripts) (d ∷ ds) = SetsUp d.0 d.1 script × SetUpAll scripts ds

pub setups-append : (a b : List Step) → setups (a ++ b) ≡ setups a ++ setups b
setups-append [] b = refl
setups-append (setup script ∷ a) b = ap (λ l. script ∷ l) (setups-append a b)
setups-append (below script ∷ a) b = setups-append a b
setups-append (no_script ∷ a) b = setups-append a b
setups-append (link dest path ∷ a) b = setups-append a b
setups-append (clean_dirs path names ∷ a) b = setups-append a b
setups-append (clean_links path names ∷ a) b = setups-append a b

pub dirs-append : (a b : List Entry) → dirs (a ++ b) ≡ dirs a ++ dirs b
dirs-append [] b = refl
dirs-append (dir path acl ∷ a) b = ap (λ l. (path, acl) ∷ l) (dirs-append a b)
dirs-append (Fsck.link path target ∷ a) b = dirs-append a b

pub SetUpAll-lists :
    (a b : List Script) (ds es : List (Bytes × Acl))
    → SetUpAll a ds
    → SetUpAll b es
    → SetUpAll (a ++ b) (ds ++ es)
SetUpAll-lists [] b [] es h hb = hb
SetUpAll-lists [] b (d ∷ ds) es h hb = elim h [ ]
SetUpAll-lists (script ∷ a) b [] es h hb = elim h [ ]
SetUpAll-lists (script ∷ a) b (d ∷ ds) es (h, hs) hb = (h, SetUpAll-lists a b ds es hs hb)

-- Two groups of steps that each set up their directories.
pub SetUpAll-append :
    (a b : List Step) (ds es : List (Bytes × Acl))
    → SetUpAll (setups a) ds
    → SetUpAll (setups b) es
    → SetUpAll (setups (a ++ b)) (ds ++ es)
SetUpAll-append a b ds es ha hb =
    subst (λ l. SetUpAll l (ds ++ es)) (sym (setups-append a b))
      (SetUpAll-lists (setups a) (setups b) ds es ha hb)

-- Steps that set up no directory, before others.
pub SetUpAll-after :
    (a b : List Step) (ds : List (Bytes × Acl))
    → setups a ≡ []
    → SetUpAll (setups b) ds
    → SetUpAll (setups (a ++ b)) ds
SetUpAll-after a b ds e h = rw (setups-append a b, e) h

pub SetUpAll-entries :
    (a b : List Step) (c d : List Entry)
    → SetUpAll (setups a) (dirs c)
    → SetUpAll (setups b) (dirs d)
    → SetUpAll (setups (a ++ b)) (dirs (c ++ d))
SetUpAll-entries a b c d ha hb = rw (dirs-append c d) (SetUpAll-append a b (dirs c) (dirs d) ha hb)
