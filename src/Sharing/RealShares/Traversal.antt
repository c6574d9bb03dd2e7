-- ===== src/Sharing/RealShares/Traversal.antt =====
-- What the traversal entries grant: `x`, on the directories that lead to a share, and no more.
use bcpfs.Prelude.{
  ℕ, zero, suc, ◌+◌, ◌-◌, ◌≡◌, refl, ap, ◌∙◌, List, [], ◌∷◌, Bool, true, false, ◌||◌, ◌&&◌, length,
  take, any, arith, if◌then◌else◌,
}
use bcpfs.Prelude.Bytes.{Bytes, split, beq}
use bcpfs.Prelude.Indexed.{Indexed, IsIndexed, empty, empty-IsIndexed, upsert, upsert-IsIndexed}
use bcpfs.SlashPath.{slash, path_join}
use bcpfs.Sharing.{Acl, ExportEntry, Exports, RealExports}
use bcpfs.Sharing.Acl.{groups, new_traversal_acl_with_groups}
use bcpfs.Sharing.Acl.Grants.{Permission, read, write, execute, mode_grants, grants}
use bcpfs.Sharing.Bcpfs.{Bcpfs, part, is_service_realpath}
use bcpfs.Sharing.Imports.Selected.{path_grants}
use bcpfs.Sharing.RealShares.{
  traversal_begin, widen, add_prefixes, add_real_traversal, add_share_traversal, compile_traversal,
}
use bcpfs.Sharing.RealShares.Grants.{path_of, path_grants-upsert}

-- Whether the ACL has an entry for the group.
abbrev pub names : Acl → Bytes → Bool
names acl group = any (λ ace. beq ace.group group) acl

abbrev pub is_execute : Permission → Bool
is_execute read = false
is_execute write = false
is_execute execute = true

-- The directories of `n` prefixes of the path, from the one with `i` components on.
abbrev pub prefix_dirs : List Bytes → ℕ → ℕ → List Bytes
prefix_dirs parts zero i = []
prefix_dirs parts (suc n) i = path_join (take i parts) ∷ prefix_dirs parts n (i + 1)

-- The directories of a realpath with three components or more if the path is in the service dir, and
-- those with two or more otherwise.
abbrev pub dirs_above : Bcpfs → Bytes → List Bytes
dirs_above fs path =
    let parts = split path slash in
    let begin = if beq (part parts 0) fs.service_dir then 3 else 2 in
    prefix_dirs parts (length parts - begin) begin

-- The toplevel directory of the org unit that a logical path begins with.
abbrev pub org_unit_dir_of : Bcpfs → Bytes → Bytes
org_unit_dir_of fs path = path_join (fs.org_unit_dir ∷ part (split path slash) 0 ∷ [])

grants-new_traversal :
    (acl : Acl) (group : Bytes) (p : Permission)
    → grants (new_traversal_acl_with_groups (groups acl)) group p
      ≡ (is_execute p && names acl group)
unfolding new_traversal_acl_with_groups groups mode_grants
grants-new_traversal [] group read = refl
grants-new_traversal [] group write = refl
grants-new_traversal [] group execute = refl
grants-new_traversal (ace ∷ acl) group read = ground (arith, grants-new_traversal acl group read)
grants-new_traversal (ace ∷ acl) group write = ground (arith, grants-new_traversal acl group write)
grants-new_traversal (ace ∷ acl) group execute =
    ground (arith, grants-new_traversal acl group execute)

regroup : (g d x y n : Bool) → ((g || (d && (x && n))) || (x && y)) ≡ (g || (x && ((d && n) || y)))
regroup g d x y n = ground arith

module _ (at group : Bytes) (p : Permission) where
  -- The loop over the prefixes of one realpath.
  add_prefixes_lem :
      (acl : Acl) (r : ExportEntry) (parts : List Bytes) (n i : ℕ) (travs : Indexed ExportEntry)
      → IsIndexed path_of travs
      → IsIndexed path_of (add_prefixes acl r parts n i travs)
        × (path_grants (add_prefixes acl r parts n i travs).items at group p ≡ (
            path_grants travs.items at group p
            || (any (λ d. beq d at) (prefix_dirs parts n i) && grants acl group p)))
  unfolding add_prefixes
  add_prefixes_lem acl r parts zero i travs inv = (inv, ground arith)
  add_prefixes_lem acl r parts (suc n) i travs inv =
      let path = path_join (take i parts) in
      let new = record r { path = path; acl = acl } in
      let (inv', e) =
        add_prefixes_lem acl r parts n (i + 1) (upsert path (widen acl) new travs)
          (upsert-IsIndexed path_of path (widen acl) new inv (λ a. refl) refl) in
      (
        inv',
        e
            ∙ ap
                (λ b.
                  b || (any (λ d. beq d at) (prefix_dirs parts n (i + 1)) && grants acl group p))
                (path_grants-upsert path acl new at group p inv refl refl)
            ∙ ground arith,
      )

  -- Whether a realpath with an entry for the group lies below the directory `at`.
  abbrev leads_to_real : Bcpfs → RealExports → Bool
  leads_to_real fs reals =
      any (λ r. any (λ d. beq d at) (dirs_above fs r.path) && names r.acl group) reals

  add_real_traversal_lem :
      (fs : Bcpfs) (reals : RealExports) (travs : Indexed ExportEntry)
      → IsIndexed path_of travs
      → IsIndexed path_of (add_real_traversal fs reals travs)
        × (path_grants (add_real_traversal fs reals travs).items at group p
            ≡ (path_grants travs.items at group p || (is_execute p && leads_to_real fs reals)))
  unfolding add_real_traversal traversal_begin is_service_realpath
  add_real_traversal_lem fs [] travs inv = (inv, ground arith)
  add_real_traversal_lem fs (r ∷ reals) travs inv =
      let acl = new_traversal_acl_with_groups (groups r.acl) in
      let parts = split r.path slash in
      let begin = if beq (part parts 0) fs.service_dir then 3 else 2 in
      let n = length parts - begin in
      let (inv1, e1) = add_prefixes_lem acl r parts n begin travs inv in
      let (inv2, e2) =
        add_real_traversal_lem fs reals (add_prefixes acl r parts n begin travs) inv1 in
      (
        inv2,
        e2
            ∙ ap (λ b. b || (is_execute p && leads_to_real fs reals)) e1
            ∙ ap
                (λ g.
                  (path_grants travs.items at group p
                    || (any (λ d. beq d at) (dirs_above fs r.path) && g))
                  || (is_execute p && leads_to_real fs reals))
                (grants-new_traversal r.acl group p)
            ∙ regroup (path_grants travs.items at group p)
                (any (λ d. beq d at) (dirs_above fs r.path)) (is_execute p) (leads_to_real fs reals)
                (names r.acl group),
      )

  -- Whether `at` is the toplevel directory for a share with an entry for the group.
  abbrev leads_to_share : Bcpfs → Exports → Bool
  leads_to_share fs shares =
      any (λ shr. beq (org_unit_dir_of fs shr.path) at && names shr.acl group) shares

  add_share_traversal_lem :
      (fs : Bcpfs) (shares : Exports) (travs : Indexed ExportEntry)
      → IsIndexed path_of travs
      → path_grants (add_share_traversal fs shares travs).items at group p
        ≡ (path_grants travs.items at group p || (is_execute p && leads_to_share fs shares))
  unfolding add_share_traversal
  add_share_traversal_lem fs [] travs inv = ground arith
  add_share_traversal_lem fs (shr ∷ shares) travs inv =
      let acl = new_traversal_acl_with_groups (groups shr.acl) in
      let path = org_unit_dir_of fs shr.path in
      let new : ExportEntry = record { path = path; acl = acl; managing_groups = [] } in
      add_share_traversal_lem fs shares (upsert path (widen acl) new travs)
        (upsert-IsIndexed path_of path (widen acl) new inv (λ a. refl) refl)
      ∙ ap (λ b. b || (is_execute p && leads_to_share fs shares))
          (path_grants-upsert path acl new at group p inv refl refl)
      ∙ ap
          (λ g.
            (path_grants travs.items at group p || (beq path at && g))
            || (is_execute p && leads_to_share fs shares))
          (grants-new_traversal shr.acl group p)
      ∙ regroup (path_grants travs.items at group p) (beq path at) (is_execute p)
          (leads_to_share fs shares) (names shr.acl group)

-- `compileTraversal()` grants `x`, and neither `r` nor `w`. It grants it to a group on a directory
-- exactly if the directory is that of a prefix of a realpath with an entry for the group, of three
-- components or more if the realpath is in the service dir and of two or more otherwise, or is the
-- org unit directory with which the logical path of a share with an entry for the group begins.
pub path_grants-compile_traversal :
    (fs : Bcpfs) (shares : Exports) (reals : RealExports) (at group : Bytes) (p : Permission)
    → path_grants (compile_traversal fs shares reals) at group p ≡ (
        is_execute p
        && (any (λ r. any (λ d. beq d at) (dirs_above fs r.path) && names r.acl group) reals
            || any (λ shr. beq (org_unit_dir_of fs shr.path) at && names shr.acl group) shares))
unfolding compile_traversal
path_grants-compile_traversal fs shares reals at group p =
    let (inv, e) = add_real_traversal_lem at group p fs reals empty (empty-IsIndexed path_of) in
    add_share_traversal_lem at group p fs shares (add_real_traversal fs reals empty) inv
    ∙ ap (λ b. b || (is_execute p && leads_to_share at group p fs shares)) e
    ∙ ground arith
