-- ===== src/Fsapply/Trees.antt =====
-- cmd/bcpfs-perms/fsapply/: apply-srv.go, apply-ou.go and fsapply.go. The methods of a tree share the
-- field `err`: each starts with `if st.err != nil { return }`, so that the loops go on after an
-- error and do nothing. The state of a tree is `Run`: the state of the filesystem, with the error if
-- there is one; a panic, which ends the program, is kept like an error.
use bcpfs.Prelude.{
  List, [], ◌∷◌, Bool, true, false, not, any, if◌then◌else◌, ◌&&◌, none, some, ok, err, panic,
}
use bcpfs.Prelude.Bytes.{Bytes, codes, beq}
use bcpfs.SlashPath.{path_join}
use bcpfs.Config.{Root, Symlink}
use bcpfs.Org.{DirWithPolicy, Service, OrgUnit, Organization}
use bcpfs.Fsck.{Tree}
use bcpfs.Fsapply.{
  Run, going, failed, crashed, ◌>>=◌, System, Child, child_dir, child_link, child_other, removed,
  not_empty, remove_failed,
}
use bcpfs.Fsapply.Scripts.{
  run_bash, ensure_toplevel_sh, ensure_service_dir_sh, ensure_sou_sh, ensure_sou_recursive_sh,
  ensure_org_unit_sh, ensure_org_unit_subdir_sh, ensure_org_unit_subdir_recursive_sh,
}

-- The keys of `expected` after the loop of ensureSrvSubdirs(s).
unfoldable pub expected_org_units : Tree → Service → List OrgUnit → List Bytes
expected_org_units st x [] = []
expected_org_units st x (ou ∷ ous) =
    let rest = expected_org_units st x ous in if st.accept x ou then ou.name ∷ rest else rest

-- The keys of `expected` after the loop of ensureOULinks(ou).
unfoldable pub expected_services : Tree → OrgUnit → List Service → List Bytes
expected_services ot ou [] = []
expected_services ot ou (x ∷ xs) =
    let rest = expected_services ot ou xs in if ot.accept x ou then x.name ∷ rest else rest

-- `dest` of ensureOUSLn(ou, s)
unfoldable pub ousln_dest : Bytes → OrgUnit → Service → Bytes
ousln_dest service_dir ou x =
    let is_of_facility = ou.is_facility && beq x.facility ou.facility in
    let dest = path_join (codes "../.." ∷ service_dir ∷ x.name ∷ []) in
    if not is_of_facility then path_join (dest ∷ ou.name ∷ []) else dest

module _ {E S : Type 0} (sys : System E S) where
  -- ensureRootDir(path)
  unfoldable pub ensure_root_dir : Bytes → S → Run E S
  unfolding run_bash
  ensure_root_dir path s = run_bash sys (ensure_toplevel_sh path) s

  -- ensureServiceDir(path, gid, opsGid, superGid, access), for the service
  unfoldable pub ensure_service_dir : Bytes → Service → S → Run E S
  unfolding run_bash ensure_service_dir_sh
  ensure_service_dir root x s =
      elim (ensure_service_dir_sh (path_join (root ∷ x.name ∷ [])) x.service_group.gid
        x.service_ops_group.gid x.super_group.gid x.access) [
          | none ↦ crashed s
          | some script ↦ run_bash sys script s
        ]

  -- The loop of EnsureServiceDirs(), which returns at the first error.
  unfoldable pub ensure_service_dirs : Bytes → List Service → S → Run E S
  unfolding ensure_service_dir
  ensure_service_dirs root [] s = going s
  ensure_service_dirs root (x ∷ xs) s = do
    s' ← ensure_service_dir root x s
    ensure_service_dirs root xs s'

  -- ensureSOU(s, ou)
  unfoldable pub ensure_sou : Bool → Bytes → Service → OrgUnit → Run E S → Run E S
  unfolding run_bash
  ensure_sou recursive root x ou st = do
    s ← st
    let path = path_join (root ∷ x.name ∷ ou.name ∷ [])
    s' ←
        run_bash sys
          (ensure_sou_sh path ou.org_unit_group.gid x.service_group.gid x.service_ops_group.gid
            x.super_group.gid)
          s
    if recursive
        then run_bash sys
            (ensure_sou_recursive_sh path ou.org_unit_group.gid x.service_ops_group.gid) s'
        else going s'

  -- The loop of ensureSrvSubdirs(s), with the calls of ensureSOU().
  unfoldable pub ensure_sous : Bool → Tree → Service → List OrgUnit → Run E S → Run E S
  unfolding ensure_sou
  ensure_sous recursive st x [] state = state
  ensure_sous recursive st x (ou ∷ ous) state =
      ensure_sous recursive st x ous
        (if st.accept x ou then ensure_sou recursive st.root x ou state else state)

  -- The loop of rmUnexpectedSubdirs(s, expected): only directories, and those that are not empty are
  -- kept.
  unfoldable pub rm_subdirs : Bytes → List Bytes → List Child → S → Run E S
  rm_subdirs dir expected [] s = going s
  rm_subdirs dir expected (c ∷ children) s = elim c.kind [
    | child_link ↦ rm_subdirs dir expected children s
    | child_other ↦ rm_subdirs dir expected children s
    | child_dir ↦ elim (any (λ n. beq n c.name) expected) [
      | true ↦ rm_subdirs dir expected children s
      | false ↦ elim (sys.remove (path_join (dir ∷ c.name ∷ [])) s) [
        | removed s' ↦ rm_subdirs dir expected children s'
        | not_empty _ ↦ rm_subdirs dir expected children s
        | remove_failed e ↦ failed e s
      ]
    ]
  ]

  unfoldable pub rm_unexpected_subdirs : Bytes → List Bytes → Run E S → Run E S
  unfolding rm_subdirs
  rm_unexpected_subdirs dir expected st = do
    s ← st
    elim (sys.read_dir dir s) [
      | ok children ↦ rm_subdirs dir expected children s
      | err e ↦ failed e s
      | panic ↦ crashed s
    ]

  -- ensureSrvSubdirs(s)
  unfoldable pub ensure_srv_subdirs : Bool → Tree → Service → Run E S → Run E S
  unfolding ensure_sous expected_org_units rm_unexpected_subdirs
  ensure_srv_subdirs recursive st x state = do
    s ← state
    rm_unexpected_subdirs (path_join (st.root ∷ x.name ∷ [])) (expected_org_units st x st.org_units)
        (ensure_sous recursive st x st.org_units (going s))

  -- EnsureServiceOrgUnitDirs()
  unfoldable pub ensure_service_org_unit_dirs : Bool → Tree → List Service → Run E S → Run E S
  unfolding ensure_srv_subdirs
  ensure_service_org_unit_dirs recursive st [] state = state
  ensure_service_org_unit_dirs recursive st (x ∷ xs) state =
      ensure_service_org_unit_dirs recursive st xs (ensure_srv_subdirs recursive st x state)

  -- The loop of EnsureOrgUnitDirs(), which returns at the first error.
  unfoldable pub ensure_org_unit_dirs : Bytes → List OrgUnit → S → Run E S
  unfolding run_bash
  ensure_org_unit_dirs root [] s = going s
  ensure_org_unit_dirs root (o ∷ os) s = do
    s' ← run_bash sys (ensure_org_unit_sh (path_join (root ∷ o.name ∷ [])) o.org_unit_group.gid) s
    ensure_org_unit_dirs root os s'

  -- ensureSymlink(dest, path), and the end of ensureOUSLn(ou, s), which has the same code.
  unfoldable pub ensure_symlink : Bytes → Bytes → S → Run E S
  ensure_symlink dest path s =
      if sys.is_dest_symlink dest path s then going s else sys.symlink dest path s

  -- ensureOUSLn(ou, s)
  unfoldable pub ensure_ousln : Tree → OrgUnit → Service → Run E S → Run E S
  unfolding ousln_dest ensure_symlink
  ensure_ousln ot ou x st = do
    s ← st
    ensure_symlink (ousln_dest ot.service_dir ou x) (path_join (ot.root ∷ ou.name ∷ x.name ∷ [])) s

  -- The loop of ensureOULinks(ou), with the calls of ensureOUSLn().
  unfoldable pub ensure_ouslns : Tree → OrgUnit → List Service → Run E S → Run E S
  unfolding ensure_ousln
  ensure_ouslns ot ou [] st = st
  ensure_ouslns ot ou (x ∷ xs) st =
      ensure_ouslns ot ou xs (if ot.accept x ou then ensure_ousln ot ou x st else st)

  -- The loop of rmUnexpectedLinks(ou, expected): only symlinks.
  unfoldable pub rm_links : Bytes → List Bytes → List Child → S → Run E S
  rm_links dir expected [] s = going s
  rm_links dir expected (c ∷ children) s = elim c.kind [
    | child_dir ↦ rm_links dir expected children s
    | child_other ↦ rm_links dir expected children s
    | child_link ↦ elim (any (λ n. beq n c.name) expected) [
      | true ↦ rm_links dir expected children s
      | false ↦ elim (sys.remove (path_join (dir ∷ c.name ∷ [])) s) [
        | removed s' ↦ rm_links dir expected children s'
        | not_empty e ↦ failed e s
        | remove_failed e ↦ failed e s
      ]
    ]
  ]

  unfoldable pub rm_unexpected_links : Bytes → List Bytes → Run E S → Run E S
  unfolding rm_links
  rm_unexpected_links dir expected st = do
    s ← st
    elim (sys.read_dir dir s) [
      | ok children ↦ rm_links dir expected children s
      | err e ↦ failed e s
      | panic ↦ crashed s
    ]

  -- ensureOULinks(ou)
  unfoldable pub ensure_ou_links : Tree → OrgUnit → Run E S → Run E S
  unfolding ensure_ouslns expected_services rm_unexpected_links
  ensure_ou_links ot ou st =
      rm_unexpected_links (path_join (ot.root ∷ ou.name ∷ [])) (expected_services ot ou ot.services)
        (ensure_ouslns ot ou ot.services st)

  -- EnsureOrgUnitServiceLinks()
  unfoldable pub ensure_org_unit_service_links : Tree → List OrgUnit → Run E S → Run E S
  unfolding ensure_ou_links
  ensure_org_unit_service_links ot [] st = st
  ensure_org_unit_service_links ot (ou ∷ ous) st =
      ensure_org_unit_service_links ot ous (ensure_ou_links ot ou st)

  -- `ensureSubdir(o, d)`
  unfoldable pub ensure_subdir : Bool → Bytes → OrgUnit → DirWithPolicy → Run E S → Run E S
  unfolding run_bash
  ensure_subdir recursive root o d st = do
    s ← st
    let path = path_join (root ∷ o.name ∷ d.name ∷ [])
    s' ← run_bash sys (ensure_org_unit_subdir_sh path o.org_unit_group.gid d.policy) s
    if recursive
        then run_bash sys (ensure_org_unit_subdir_recursive_sh path o.org_unit_group.gid d.policy)
            s'
        else going s'

  unfoldable pub ensure_subdirs : Bool → Bytes → OrgUnit → List DirWithPolicy → Run E S → Run E S
  unfolding ensure_subdir
  ensure_subdirs recursive root o [] st = st
  ensure_subdirs recursive root o (d ∷ ds) st =
      ensure_subdirs recursive root o ds (ensure_subdir recursive root o d st)

  -- EnsureOrgUnitSubdirs()
  unfoldable pub ensure_org_unit_subdirs : Bool → Bytes → List OrgUnit → Run E S → Run E S
  unfolding ensure_subdirs
  ensure_org_unit_subdirs recursive root [] st = st
  ensure_org_unit_subdirs recursive root (o ∷ os) st =
      ensure_org_unit_subdirs recursive root os (ensure_subdirs recursive root o o.subdirs st)

  -- The loop over `cfg.Symlinks`.
  unfoldable pub ensure_symlinks : Bytes → List Symlink → S → Run E S
  unfolding ensure_symlink
  ensure_symlinks root [] s = going s
  ensure_symlinks root (l ∷ ls) s = do
    s' ← ensure_symlink l.target (path_join (root ∷ l.path ∷ [])) s
    ensure_symlinks root ls s'

  -- EnsurePermissions(cfg, org, filter, opts); `root` is the absolute root dir.
  unfoldable pub ensure_permissions :
      Bytes → Root → Organization → (Service → OrgUnit → Bool) → Bool → S → Run E S
  ensure_permissions root cfg org accept recursive s0 = do
    let service_root = path_join (root ∷ cfg.service_dir ∷ [])
    let org_unit_root = path_join (root ∷ cfg.org_unit_dir ∷ [])
    let s_tree : Tree = record {
      root = service_root;
      service_dir = cfg.service_dir;
      services = org.services;
      org_units = org.org_units;
      accept = accept;
    }
    let ou_tree = record s_tree { root = org_unit_root }
    s1 ← ensure_root_dir service_root s0
    s2 ←
        ensure_service_org_unit_dirs recursive s_tree org.services
          (ensure_service_dirs service_root org.services s1)
    s3 ← ensure_root_dir org_unit_root s2
    s4 ← ensure_org_unit_subdirs recursive org_unit_root org.org_units (
        ensure_org_unit_service_links ou_tree org.org_units
          (ensure_org_unit_dirs org_unit_root org.org_units s3))
    ensure_symlinks root cfg.symlinks s4
