-- ===== src/Fsapply/Agrees/Expected.antt =====
-- cmd/bcpfs-perms/fsapply/ and cmd/bcpfs-perms/fsck/: what EnsurePermissions() sets up is what
-- CheckPermissions() expects.
use mathlib.Core.List.{Perm, perm_middle}
use mathlib.Core.List.Perm
use bcpfs.Prelude.{
  ◌≡◌, refl, ap, sym, ◌∙◌, subst, List, [], ◌∷◌, ◌++◌, append_assoc, append-nil, Bool, All,
  Bool-cases, inl, inr,
}
use bcpfs.Prelude.Bytes.{Bytes, codes}
use bcpfs.Config.{Root}
use bcpfs.Org.{Service, OrgUnit, Organization}
use bcpfs.Fsck.{
  Acl, simple, Entry, Tree, service_dirs_list, service_org_unit_dirs_list, org_unit_dirs_list,
  ou_links, org_unit_service_links_list, org_unit_subdirs_list,
}
use bcpfs.Fsck.Expected.{expected_entries, toplevel}
use bcpfs.Fsapply.Plan.{
  service_steps, srv_subdirs_steps, org_unit_steps, ou_links_steps, subdirs_steps, symlink_steps,
  service_tree, org_unit_tree, service_plan, org_unit_plan, plan,
}
use bcpfs.Org.Parse.Policies.{HasPolicy}
use bcpfs.Fsapply.Agrees.Setups.{
  setups, dirs, SetUpAll, setups-append, dirs-append, SetUpAll-append, SetUpAll-after,
  SetUpAll-entries,
}
use bcpfs.Fsapply.Agrees.Entries.{toplevel-SetsUp}
use bcpfs.Fsapply.Agrees.Steps.{
  service_steps_lem, srv_subdirs_steps_lem, org_unit_steps_lem, ou_links_steps_none,
  subdirs_steps_lem, symlink_steps_none,
}

abbrev pub top : Bytes → Bytes × Acl
top path = (path, simple (codes "rwx") (codes "r-x") (codes "r-x"))

-- The directories below each of the two root dirs.
abbrev service_entries : Tree → List Entry
service_entries t = service_dirs_list t.root t.services ++ service_org_unit_dirs_list t t.services

abbrev org_unit_entries : Tree → List Entry
org_unit_entries t =
    org_unit_dirs_list t.root t.org_units ++ org_unit_subdirs_list t.root t.org_units

-- All directories that are set up, in order.
abbrev pub set_dirs : Bytes → Root → Organization → (Service → OrgUnit → Bool) → List (Bytes × Acl)
set_dirs root cfg org accept =
    let st = service_tree root cfg org accept in
    let ot = org_unit_tree root cfg org accept in
    (top st.root ∷ dirs (service_entries st)) ++ (top ot.root ∷ dirs (org_unit_entries ot))

service_plan_lem :
    (recursive : Bool) (t : Tree)
    → All HasPolicy t.services
    → SetUpAll (setups (service_plan recursive t)) (top t.root ∷ dirs (service_entries t))
service_plan_lem recursive t h = (
  toplevel-SetsUp t.root,
  SetUpAll-entries (service_steps t.root t.services) (srv_subdirs_steps recursive t t.services)
      (service_dirs_list t.root t.services) (service_org_unit_dirs_list t t.services)
      (service_steps_lem t.root t.services h) (srv_subdirs_steps_lem recursive t t.services),
)

org_unit_plan_lem :
    (recursive : Bool) (t : Tree)
    → SetUpAll (setups (org_unit_plan recursive t)) (top t.root ∷ dirs (org_unit_entries t))
org_unit_plan_lem recursive t =
    let subdirs = subdirs_steps recursive t.root t.org_units in
    (
      toplevel-SetsUp t.root,
      SetUpAll-entries (org_unit_steps t.root t.org_units) (ou_links_steps t t.org_units ++ subdirs)
          (org_unit_dirs_list t.root t.org_units) (org_unit_subdirs_list t.root t.org_units)
          (org_unit_steps_lem t.root t.org_units)
          (SetUpAll-after (ou_links_steps t t.org_units) subdirs
            (dirs (org_unit_subdirs_list t.root t.org_units)) (ou_links_steps_none t t.org_units)
            (subdirs_steps_lem recursive t.root t.org_units)),
    )

plan-set_dirs :
    (root : Bytes) (cfg : Root) (org : Organization) (accept : Service → OrgUnit → Bool)
    (recursive : Bool)
    → All HasPolicy org.services
    → SetUpAll (setups (plan root cfg org accept recursive)) (set_dirs root cfg org accept)
plan-set_dirs root cfg org accept recursive h =
    let st = service_tree root cfg org accept in
    let ot = org_unit_tree root cfg org accept in
    SetUpAll-append (service_plan recursive st)
      (org_unit_plan recursive ot ++ symlink_steps root cfg.symlinks)
      (top st.root ∷ dirs (service_entries st)) (top ot.root ∷ dirs (org_unit_entries ot))
      (service_plan_lem recursive st h)
      (subst (λ l. SetUpAll l (top ot.root ∷ dirs (org_unit_entries ot)))
        (sym (
          setups-append (org_unit_plan recursive ot) (symlink_steps root cfg.symlinks)
          ∙ ap (λ l. setups (org_unit_plan recursive ot) ++ l)
              (symlink_steps_none root cfg.symlinks)
          ∙ append-nil (setups (org_unit_plan recursive ot))))
        (org_unit_plan_lem recursive ot))

-- Links among the entries are no directories.
dirs-ou_links : (t : Tree) (ou : OrgUnit) (xs : List Service) → dirs (ou_links t ou xs) ≡ []
unfolding ou_links
dirs-ou_links t ou [] = refl
dirs-ou_links t ou (x ∷ xs) = elim (Bool-cases (t.accept x ou)) [
  | inl e ↦ rw e (dirs-ou_links t ou xs)
  | inr e ↦ rw e (dirs-ou_links t ou xs)
]

dirs-links_list : (t : Tree) (ous : List OrgUnit) → dirs (org_unit_service_links_list t ous) ≡ []
unfolding org_unit_service_links_list
dirs-links_list t [] = refl
dirs-links_list t (ou ∷ ous) =
    dirs-append (ou_links t ou t.services) (org_unit_service_links_list t ous)
    ∙ ap (λ l. l ++ dirs (org_unit_service_links_list t ous)) (dirs-ou_links t ou t.services)
    ∙ dirs-links_list t ous

-- The directories among five lists of entries, of which the fourth has none.
dirs_of_five :
    (a b c l d : List Entry)
    → dirs l ≡ []
    → dirs (a ++ b ++ c ++ l ++ d) ≡ dirs (a ++ b) ++ dirs (c ++ d)
dirs_of_five a b c l d e =
    rw
      (
        dirs-append (a ++ b ++ c ++ l) d,
        dirs-append (a ++ b ++ c) l,
        dirs-append (a ++ b) c,
        e,
        append-nil,
        dirs-append c d,
      )
      (append_assoc (dirs (a ++ b)) (dirs c) (dirs d))

pub plan-expected_entries :
    (root : Bytes) (cfg : Root) (org : Organization) (accept : Service → OrgUnit → Bool)
    (recursive : Bool)
    → All HasPolicy org.services
    → SetUpAll (setups (plan root cfg org accept recursive)) (set_dirs root cfg org accept)
      × Perm (top root ∷ set_dirs root cfg org accept) (dirs (expected_entries root cfg org accept))
unfolding expected_entries toplevel
plan-expected_entries root cfg org accept recursive h =
    let st = service_tree root cfg org accept in
    let ot = org_unit_tree root cfg org accept in
    let five =
      dirs_of_five (service_dirs_list st.root st.services)
        (service_org_unit_dirs_list st st.services) (org_unit_dirs_list ot.root ot.org_units)
        (org_unit_service_links_list ot ot.org_units) (org_unit_subdirs_list ot.root ot.org_units)
        (dirs-links_list ot ot.org_units) in
    (
      plan-set_dirs root cfg org accept recursive h,
      Perm.cons (top root) (
          Perm.cons (top st.root) (
            subst
              (λ l.
                Perm (dirs (service_entries st) ++ top ot.root ∷ dirs (org_unit_entries ot))
                  (top ot.root ∷ l))
              (sym five) (perm_middle (dirs (service_entries st)) (dirs (org_unit_entries ot))))),
    )
