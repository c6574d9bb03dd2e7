-- ===== src/Lib.antt =====
-- bcpfs: tools that maintain the toplevel directories, permissions and sharing of an organization's
-- filesystem. An organization has org units, facilities and services. `bcpfs-perms` reads them off
-- the Unix groups and a config file, and checks or sets up the trees `<service dir>/<service>/<ou>`
-- and `<org unit dir>/<ou>/<service>`, which are linked to each other. With a `sharing` block in the
-- config, org units export directories to groups, and imports select which exports take effect.
--
-- Which file models which part:
--
--   * Config and Config/Validate: the config of cmd/bcpfs-perms/bcpcfg/bcpcfg.go as Parse() gets it
--     from the HCL decoder, and the checks of Parse() on its items.
--   * Grp: cmd/bcpfs-perms/grp/grp.go, from a line of `getent group` to a list of groups, and their
--     selection. Grp/Members and Grp/Dedup are about DedupGroups().
--   * Org and Org/Parse: cmd/bcpfs-perms/bcp/bcp.go and groups.go, `New()` with its parsers, from
--     groups and config to the organization. Org/Parse/GroupNames is about parseGroupNames().
--   * Filter: cmd/bcpfs-perms/bcpfilter/bcpfilter.go and MustCompileFilter() of main.go, the wanted
--     combinations of service and org unit. Filter/Decisions says which rule decides.
--   * Fsck: the expected entries of cmd/bcpfs-perms/fsck/srvtree.go and outree.go, and in
--     Fsck/Expected CheckPermissions() of fsck.go with the checks of unexpected.go and symlinks.go, on
--     what the filesystem answers. It uses the organization of Org and the filter as a function.
--     Fsck/Text is acl.go: the text of each expected ACL, and the filter of what `getfacl` prints;
--     Foreign, Own and Kept are about which lines the filter drops and keeps, and Passed about a check
--     without complaints.
--   * Fsapply: cmd/bcpfs-perms/fsapply/, EnsurePermissions(). Fsapply/Scripts has the scripts of
--     apply-sh.go as lists of commands, and Fsapply/Trees the methods of apply-srv.go, apply-ou.go and
--     fsapply.go, which share a sticky error: the type Run keeps the state of the filesystem with the error.
--     Fsapply/Plan is their abstract view, a list of steps, and what a run of them is; Fsapply/Agrees compares the scripts with the entries that Fsck expects.
--   * Sharing/Facl and Sharing/Getfacl: cmd/bcpfs-perms/bcpsharing/facl.go, the second its parser of
--     getfacl output.
--   * Apply: cmd/bcpfs-perms/bcpsharingapply/, real-shares.go in Apply itself, traversal.go in
--     Apply/Traversal and share-trees.go in Apply/ShareTrees. The commands of exec.go and the calls of
--     package os are parameters, the records Shell, TraversalShell and Files, which act on a state of
--     the filesystem that is a parameter too. Apply/Facls says which groups are removed and when
--     nothing is done, Apply/Traversal/Ensured which entries are added, Order and Settled below Apply/ShareTrees which files are removed and in which
--     order.
--   * SlashPath: packages `path` and `path/filepath` of Go, as far as they work on the text of a
--     path; the sharing code imports the first as `slashpath`. Names and Relative are about paths
--     that are made of names, and about going up and down from them.
--   * Sharing: cmd/bcpfs-perms/bcpsharing/bcpsharing.go. Sharing/Bcpfs is the type Bcpfs, which knows
--     the realpath and the managing groups of a logical path; Sharing/Acl the ACLs and their union;
--     Sharing/Exports compileExports() with the ACL parser and checkExportAclScopes();
--     Sharing/Naming the naming policy; Sharing/Nesting the two checks that no exported path lies
--     below another; Sharing/Imports the import filter; Sharing/RealShares compileRealShares() and
--     compileTraversal(); Sharing/ShareTrees compileShareTrees(), with Links on where its symlinks
--     lead; and Sharing/Compile puts them together as Compile() does.
--   * Suc: the daemon bcpsucd. Suc/Ucred is pkg/grpc/ucred and the lists of uids of
--     cmd/bcpsucd/bcpsucd.go; Suc/Server the handlers of internal/suc/quotad/quotad.go and
--     internal/suc/statusd/statusd.go, with the request that cmd/bcpctl/bcpctl.go makes; Suc/Limits the
--     parser of cmd/bcpctl/internal/quota/quota.go. The server runs a handler on a connection that
--     the handshake of Suc/Ucred lets in.
--
-- How the code becomes definitions: a Go string is a list of bytes; a map is an association list
-- (Prelude/Dict) with the map's answer for a missing key written out where it is read; a slice with
-- a map from keys to indices, which the code uses to merge entries by key, is Indexed of
-- Prelude/Indexed. A function that returns an error or panics returns an Outcome with the cases ok,
-- err and panic, or, where the filesystem is left in a state, a Run of Fsapply; the errors keep what they are about and not their wording. Each loop is a function
-- by recursion on the list that it ranges over, or, for a loop that counts, on the number of rounds
-- that it makes, which the caller computes from the same bounds as the code; so no loop needs fuel, but for the
-- digits of a decimal number in Prelude/Decimal, where n + 1 rounds are enough for n.
-- Go's package `regexp` is a parameter, the record RegexpPackage of Sharing/Regexp: a compiled
-- pattern answers for each text whether it matches. `strconv.Atoi()` is a parameter of Grp
-- and Suc/Ucred. The commands of the scripts, `os.Symlink()` and their like act on a state that is a
-- parameter, by the record System of Fsapply; what the checks read of it is the record View of
-- Fsck/Expected. The texts that Sharing/Getfacl parses
-- are ASCII where spaces count; Suc/Limits knows the spaces of Unicode in UTF-8.
-- Exported paths are plain where a theorem on realpaths needs it: IsPlain of SlashPath/Names, no
-- empty, `.` or `..` component.
--
-- Not modelled: the HCL parser and decoder, the runs of `getent`, `find`, `getfacl` and `setfacl`, and
-- log messages, which are libraries or I/O; what the commands of the scripts do, which is the
-- shell's; main() of the three commands with their options and signals; and internal/suc/grpcd, which
-- is glue for gRPC.
mod Prelude
pub mod SlashPath
pub mod Config
pub mod Sharing
pub mod Grp
pub mod Filter
pub mod Org
pub mod Fsck
pub mod Fsapply
pub mod Apply
pub mod Suc
mod Tests
