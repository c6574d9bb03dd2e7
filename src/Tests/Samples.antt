-- ===== src/Tests/Samples.antt =====
-- A small config, after the example in the usage text of cmd/bcpfs-perms/main.go.
use bcpfs.Prelude.{[], ◌∷◌, ◌++◌, none, some}
use bcpfs.Prelude.Bytes.{codes, beq}
use bcpfs.Config
use bcpfs.Config.{Root}
use bcpfs.Sharing.{Ace, AceMode, ExportEntry, Exports}
use bcpfs.Sharing.Bcpfs.{Bcpfs}
use bcpfs.Sharing.Regexp.{RegexpPackage}

-- Patterns without special characters: they match themselves.
abbrev pub literal : RegexpPackage
literal = record { compile = λ p. some (λ t. beq (codes "^" ++ t ++ codes "$") p) }

abbrev pub rx : AceMode
rx = record { first = b'r'; second = b'-'; third = b'x' }

abbrev pub rwx : AceMode
rwx = record { first = b'r'; second = b'w'; third = b'x' }

abbrev pub alice_rx : Ace
alice_rx = record { group = codes "ag-alice"; mode = rx }

abbrev pub carol_rwx : Ace
carol_rwx = record { group = codes "ag-carol"; mode = rwx }

abbrev pub root_config : Root
root_config = record {
  rootdir = codes "/orgfs";
  service_dir = codes "srv";
  org_unit_dir = codes "org";
  super_group = [];
  org_unit_prefix = codes "org";
  service_prefix = codes "srv";
  ops_suffix = codes "ops";
  facility_suffix = codes "facility";
  facilities = record { name = codes "em"; services = codes "tem" ∷ []; access = [] } ∷ [];
  org_units = [];
  filter = [];
  symlinks = [];
  sharing = none;
}

abbrev pub fs : Bcpfs
fs = record {
  rootdir = codes "/orgfs";
  service_dir = codes "srv";
  org_unit_dir = codes "org";
  service_group_prefix = codes "srv";
  org_unit_group_prefix = codes "org";
  facility_by_service = (codes "tem", codes "em") ∷ [];
  facility_dirs = (codes "em-facility", tt) ∷ [];
}

abbrev pub sharing_config : Config.Sharing
sharing_config = record {
  naming_policies = record { action = codes "allow"; pattern_text = codes "ag-bob/tem/foo" } ∷ [];
  exports = record { path = codes "ag-bob/tem/foo"; acl = codes "group:ag-alice:r-x" ∷ [] } ∷ [];
  imports =
      record {
        action = codes "accept";
        group = codes "ag-alice";
        pattern_text = codes "ag-bob/tem/foo";
      }
      ∷ [];
}

-- Two logical paths with one realpath.
abbrev pub share_a : ExportEntry
share_a = record { path = codes "ag-bob/tem/foo"; acl = alice_rx ∷ []; managing_groups = [] }

abbrev pub share_b : ExportEntry
share_b = record {
  path = codes "em-facility/tem/ag-bob/foo";
  acl = carol_rwx ∷ [];
  managing_groups = [];
}

abbrev pub two_shares : Exports
two_shares = share_a ∷ share_b ∷ []
