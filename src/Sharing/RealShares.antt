-- ===== src/Sharing/RealShares.antt =====
-- cmd/bcpfs-perms/bcpsharing/bcpsharing.go: the shares by realpath, and the traversal ACLs.
pub mod Grants
pub mod Traversal
use bcpfs.Prelude.{ℕ, zero, suc, ◌+◌, ◌-◌, List, [], ◌∷◌, map, if◌then◌else◌, length, take}
use bcpfs.Prelude.Bytes.{Bytes, split}
use bcpfs.Prelude.Indexed.{Indexed, empty, upsert}
use bcpfs.SlashPath.{slash, path_join}
use bcpfs.Sharing.{Acl, ExportEntry, Exports, RealExports}
use bcpfs.Sharing.Acl.{union, groups, new_traversal_acl_with_groups}
use bcpfs.Sharing.Bcpfs.{Bcpfs, part, realpath, is_service_realpath}

-- `xs[idx].Acl = xs[idx].Acl.Union(acl)`
abbrev pub widen : Acl → ExportEntry → ExportEntry
widen acl old = record old { acl = union old.acl acl }

-- The loop of compileRealShares(fs, shares).
unfoldable pub add_real_shares : Bcpfs → Exports → Indexed ExportEntry → Indexed ExportEntry
add_real_shares fs [] reals = reals
add_real_shares fs (shr ∷ shares) reals =
    let rp = realpath fs shr.path in
    add_real_shares fs shares (upsert rp (widen shr.acl) (record shr { path = rp }) reals)

unfoldable pub compile_real_shares : Bcpfs → Exports → RealExports
unfolding add_real_shares
compile_real_shares fs shares = (add_real_shares fs shares empty).items

-- `for i := begin; i < len(parts); i++`, with `n` rounds left.
unfoldable pub add_prefixes :
    Acl → ExportEntry → List Bytes → ℕ → ℕ → Indexed ExportEntry → Indexed ExportEntry
add_prefixes acl r parts zero i travs = travs
add_prefixes acl r parts (suc n) i travs =
    let path = path_join (take i parts) in
    add_prefixes acl r parts n (i + 1)
      (upsert path (widen acl) (record r { path = path; acl = acl }) travs)

-- The first directory below which `--x` entries are added.
unfoldable pub traversal_begin : Bcpfs → Bytes → ℕ
traversal_begin fs path = if is_service_realpath fs path then 3 else 2

-- The first loop of compileTraversal(fs, shares, reals), along the realpaths.
unfoldable pub add_real_traversal : Bcpfs → RealExports → Indexed ExportEntry → Indexed ExportEntry
unfolding add_prefixes
add_real_traversal fs [] travs = travs
add_real_traversal fs (r ∷ reals) travs =
    let acl = new_traversal_acl_with_groups (groups r.acl) in
    let parts = split r.path slash in
    let begin = traversal_begin fs r.path in
    add_real_traversal fs reals (add_prefixes acl r parts (length parts - begin) begin travs)

-- The second loop, for the toplevel directories of the org units.
unfoldable pub add_share_traversal : Bcpfs → Exports → Indexed ExportEntry → Indexed ExportEntry
add_share_traversal fs [] travs = travs
add_share_traversal fs (shr ∷ shares) travs =
    let acl = new_traversal_acl_with_groups (groups shr.acl) in
    let path = path_join (fs.org_unit_dir ∷ part (split shr.path slash) 0 ∷ []) in
    add_share_traversal fs shares
      (upsert path (widen acl) (record { path = path; acl = acl; managing_groups = [] }) travs)

unfoldable pub compile_traversal : Bcpfs → Exports → RealExports → RealExports
unfolding add_real_traversal add_share_traversal
compile_traversal fs shares reals =
    (add_share_traversal fs shares (add_real_traversal fs reals empty)).items
