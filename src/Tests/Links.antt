-- ===== src/Tests/Links.antt =====
-- The theorem on the links of the shared trees at a concrete input.
use bcpfs.Prelude.{◌≡◌, ◌≢◌, refl, List, [], ◌∷◌, ◌-◌, All, length, take}
use bcpfs.Prelude.Bytes.{Bytes, codes, beq}
use bcpfs.SlashPath.{path_join}
use bcpfs.SlashPath.Names.{IsName, is_name, IsName-of_test}
use bcpfs.Sharing.ShareTrees.{shared_path, link_target}
use bcpfs.Sharing.ShareTrees.Links.{link_target_lem}
use bcpfs.Tests.Samples.{fs}

abbrev foo_parts : List Bytes
foo_parts = codes "ag-bob" ∷ codes "tem" ∷ codes "foo" ∷ []

foo_parts-ne : foo_parts ≢ []
foo_parts-ne e = cc e

org-IsName : IsName fs.org_unit_dir
unfolding is_name beq
org-IsName = IsName-of_test fs.org_unit_dir refl

alice-IsName : IsName (codes "ag-alice")
unfolding is_name beq
alice-IsName = IsName-of_test (codes "ag-alice") refl

foo_parts-IsName : All IsName foo_parts
unfolding is_name beq
foo_parts-IsName = (
  IsName-of_test (codes "ag-bob") refl,
  (IsName-of_test (codes "tem") refl, (IsName-of_test (codes "foo") refl, tt)),
)

link_target_lem_example :
    path_join (
      shared_path fs (codes "ag-alice") (take (length foo_parts - 1) foo_parts)
      ∷ link_target foo_parts
      ∷ [])
    ≡ path_join (fs.org_unit_dir ∷ foo_parts)
link_target_lem_example =
    link_target_lem fs (codes "ag-alice") foo_parts foo_parts-ne org-IsName alice-IsName
      foo_parts-IsName
