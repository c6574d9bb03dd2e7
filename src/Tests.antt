-- ===== src/Tests.antt =====
-- The theorems at concrete inputs.
mod Samples
mod Sharing
mod Groups
mod Apply
mod Links
mod Checks
mod Trees
mod Daemon
mod Passed
mod Getfacl
mod Organization
mod ShareTrees
