-- ===== src/Sharing.antt =====
-- cmd/bcpfs-perms/bcpsharing/bcpsharing.go: logical sharing. The data types; one child for each part
-- of `Compile()`.
pub mod Acl
pub mod Bcpfs
pub mod Nesting
pub mod Regexp
pub mod Naming
pub mod Imports
pub mod RealShares
pub mod ShareTrees
pub mod Exports
pub mod Facl
pub mod Getfacl
pub mod Compile
use bcpfs.Prelude.{ℕ, List, Bool}
use bcpfs.Prelude.Bytes.{Bytes}
use bcpfs.Prelude.Dict.{Dict}

-- A mode in chmod `rwx` format. Every mode that the program makes has three bytes: `parseAcl()` and
-- `parseGetfaclAceLine()` take it from a text that matches `[r-][w-][x-]$`.
pub record AceMode : Type 0 where
  pub first : ℕ
  pub second : ℕ
  pub third : ℕ

pub record Ace : Type 0 where
  pub group : Bytes
  pub mode : AceMode

abbrev pub Acl : Type 0
Acl = List Ace

pub data GroupType : Type 0 where
  unspecified ou ops : GroupType

pub record Group : Type 0 where
  pub group_type : GroupType
  pub name : Bytes

abbrev pub Groups : Type 0
Groups = List Group

pub record ExportEntry : Type 0 where
  pub path : Bytes
  pub acl : Acl
  pub managing_groups : Groups

-- Logical paths.
abbrev pub Exports : Type 0
Exports = List ExportEntry

-- Realpaths relative to the root dir.
abbrev pub RealExports : Type 0
RealExports = List ExportEntry
