-- ===== src/Sharing/ShareTrees/Links.antt =====
-- cmd/bcpfs-perms/bcpsharing/bcpsharing.go: where the links of the shared trees lead.
use bcpfs.Prelude.{
  ◌+◌, ◌-◌, ◌≡◌, ◌≢◌, refl, sym, ◌∙◌, List, [], ◌∷◌, All, All-take, length, take, length-take,
  arith,
}
use bcpfs.Prelude.Bytes.{Bytes, codes, beq}
use bcpfs.SlashPath.{path_join}
use bcpfs.SlashPath.Names.{IsName, is_name, IsName-of_test, path_join-names}
use bcpfs.SlashPath.Relative.{relative_link}
use bcpfs.Sharing.Bcpfs.{Bcpfs}
use bcpfs.Sharing.ShareTrees.{shared_path, link_target}

abbrev shared : Bytes
shared = codes "shared"

shared-IsName : IsName shared
unfolding is_name beq
shared-IsName = IsName-of_test shared refl

length-front :
    (parts : List Bytes) → parts ≢ [] → length (take (length parts - 1) parts) + 1 ≡ length parts
length-front [] h = absurd (h refl)
length-front (p ∷ ps) h = omega (arith, length-take (length (p ∷ ps) - 1) (p ∷ ps))

-- For names: the target of the link that is put at `parts` in the shared tree of an org unit, read
-- from the directory that the link stands in, is the logical path `parts` below the directory of
-- the org units.
pub link_target_lem :
    (fs : Bcpfs) (ou : Bytes) (parts : List Bytes)
    → parts ≢ []
    → IsName fs.org_unit_dir
    → IsName ou
    → All IsName parts
    → path_join (shared_path fs ou (take (length parts - 1) parts) ∷ link_target parts ∷ [])
      ≡ path_join (fs.org_unit_dir ∷ parts)
unfolding shared_path link_target
link_target_lem fs ou [] h ho hu hs = absurd (h refl)
link_target_lem fs ou (p ∷ ps) h ho hu hs =
    let front = take (length (p ∷ ps) - 1) (p ∷ ps) in
    let names_up : All IsName (ou ∷ shared ∷ front) =
      (hu, (shared-IsName, All-take IsName (length (p ∷ ps) - 1) (p ∷ ps) hs)) in
    let count : length (p ∷ ps) + 1 ≡ length (ou ∷ shared ∷ front) =
      omega (arith, length-front (p ∷ ps) h) in
    rw (path_join-names (fs.org_unit_dir ∷ ou ∷ shared ∷ front) (λ e. cc e) (ho, names_up), count)
      (relative_link fs.org_unit_dir [] ou (shared ∷ front) p ps (ho, tt) names_up hs
        ∙ sym (path_join-names (fs.org_unit_dir ∷ p ∷ ps) (λ e. cc e) (ho, hs)))
