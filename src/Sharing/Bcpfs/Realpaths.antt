-- ===== src/Sharing/Bcpfs/Realpaths.antt =====
-- Realpaths of service paths: the two logical paths of a service directory lead to one place.
use bcpfs.Prelude.{List, [], ◌∷◌, ◌≡◌, true, none, some, arith, All, ok}
use bcpfs.Prelude.Bytes.{Bytes, split, join, Lacks}
use bcpfs.Prelude.Dict
use bcpfs.SlashPath.{slash, path_join}
use bcpfs.SlashPath.Names.{split-join}
use bcpfs.Sharing.{ou, ops}
use bcpfs.Sharing.Bcpfs.{
  Bcpfs, facility_of_service_path, is_service_path, is_facility_path, service_groups,
  managing_groups_of_path, realpath,
}

module _ (fs : Bcpfs) (first srv : Bytes) (rest : List Bytes) {fac : Bytes}
    (names : All (Lacks slash) (first ∷ srv ∷ rest))
    (owned : Dict.get fs.facility_by_service srv ≡ some fac) where
  parts_of : split (join (first ∷ srv ∷ rest) slash) slash ≡ first ∷ srv ∷ rest
  parts_of = split-join (first ∷ srv ∷ rest) slash (cc) names

  is_service : is_service_path fs (join (first ∷ srv ∷ rest) slash) ≡ true
  unfolding is_service_path facility_of_service_path
  is_service = ground (arith, parts_of)

  realpath_of_facility :
      Dict.get fs.facility_dirs first ≡ some tt
      → realpath fs (join (first ∷ srv ∷ rest) slash) ≡ path_join (fs.service_dir ∷ srv ∷ rest)
  unfolding realpath is_facility_path
  realpath_of_facility dir = ground (arith, is_service, parts_of)

  realpath_of_org_unit :
      Dict.get fs.facility_dirs first ≡ none
      → realpath fs (join (first ∷ srv ∷ rest) slash)
        ≡ path_join (fs.service_dir ∷ srv ∷ first ∷ rest)
  unfolding realpath is_facility_path
  realpath_of_org_unit dir = ground (arith, is_service, parts_of)

  groups_of_org_unit :
      Dict.get fs.facility_dirs first ≡ none
      → managing_groups_of_path fs (join (first ∷ srv ∷ rest) slash)
        ≡ ok (service_groups fs first srv)
  unfolding managing_groups_of_path is_facility_path
  groups_of_org_unit dir = ground (arith, is_service, parts_of)

groups_of_facility :
    (fs : Bcpfs) (first srv org : Bytes) (rest : List Bytes) {fac : Bytes}
    → All (Lacks slash) (first ∷ srv ∷ org ∷ rest)
    → Dict.get fs.facility_by_service srv ≡ some fac
    → Dict.get fs.facility_dirs first ≡ some tt
    → managing_groups_of_path fs (join (first ∷ srv ∷ org ∷ rest) slash)
      ≡ ok (service_groups fs org srv)
unfolding managing_groups_of_path is_facility_path
groups_of_facility fs first srv org rest names owned dir = ground (
  arith,
  is_service fs first srv (org ∷ rest) names owned,
  parts_of fs first srv (org ∷ rest) names owned,
)

-- For a service that a facility owns, a facility dir `dir` and an org unit `org` that is no facility
-- dir, none of the names with a slash: the logical paths `<dir>/<srv>/<org>/<rest>` and
-- `<org>/<srv>/<rest>` have the same realpath, `<serviceDir>/<srv>/<org>/<rest>`, and the same
-- managing groups, the org unit and the ops of the owning facility.
pub realpath_of_service_path :
    (fs : Bcpfs) (dir org srv fac : Bytes) (rest : List Bytes)
    → All (Lacks slash) (dir ∷ org ∷ srv ∷ rest)
    → Dict.get fs.facility_by_service srv ≡ some fac
    → Dict.get fs.facility_dirs dir ≡ some tt
    → Dict.get fs.facility_dirs org ≡ none
    → (realpath fs (join (dir ∷ srv ∷ org ∷ rest) slash)
        ≡ path_join (fs.service_dir ∷ srv ∷ org ∷ rest))
      × (realpath fs (join (org ∷ srv ∷ rest) slash)
          ≡ path_join (fs.service_dir ∷ srv ∷ org ∷ rest))
      × (managing_groups_of_path fs (join (dir ∷ srv ∷ org ∷ rest) slash)
          ≡ ok (
              record { group_type = ou; name = org }
              ∷ record { group_type = ops; name = fac }
              ∷ []))
      × (managing_groups_of_path fs (join (org ∷ srv ∷ rest) slash)
          ≡ ok (
              record { group_type = ou; name = org }
              ∷ record { group_type = ops; name = fac }
              ∷ []))
unfolding service_groups
realpath_of_service_path fs dir org srv fac rest (hd, (ho, (hs, hr))) owned is_dir no_dir = (
  realpath_of_facility fs dir srv (org ∷ rest) (hd, (hs, (ho, hr))) owned is_dir,
  realpath_of_org_unit fs org srv rest (ho, (hs, hr)) owned no_dir,
  rw owned at (groups_of_facility fs dir srv org rest (hd, (hs, (ho, hr))) owned is_dir),
  rw owned at (groups_of_org_unit fs org srv rest (ho, (hs, hr)) owned no_dir),
)
