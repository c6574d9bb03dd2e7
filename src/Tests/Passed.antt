-- ===== src/Tests/Passed.antt =====
-- The theorem on CheckPermissions() at a concrete input.
use bcpfs.Prelude.{List, [], ◌∷◌, ◌++◌, false, some, if◌then◌else◌}
use bcpfs.Prelude.Bytes.{Bytes, codes, beq, join}
use bcpfs.Prelude.Dict
use bcpfs.Config.{Root}
use bcpfs.Org.{Organization}
use bcpfs.Fsck.Text.{newline, one_group, rx}
use bcpfs.Fsck.Expected.{View, symlink}
use bcpfs.Tests.Samples.{root_config}

abbrev config : Root
config = record root_config { symlinks = record { path = codes "link"; target = codes "org" } ∷ [] }

abbrev one_org_unit : Organization
one_org_unit = record {
  org_units =
      record {
        name = codes "bob";
        subdirs = [];
        extra_dirs = [];
        is_facility = false;
        facility = [];
        org_unit_group = record { name = codes "org_bob"; gid = 20 };
      }
      ∷ [];
  facilities = [];
  services = [];
}

abbrev toplevel_lines : List Bytes
toplevel_lines =
    codes "# owner: 0"
    ∷ codes "# group: 0"
    ∷ codes "user::rwx"
    ∷ codes "group::r-x"
    ∷ codes "other::r-x"
    ∷ []

abbrev bob_lines : List Bytes
bob_lines = codes "# owner: 0" ∷ codes "# group: 20" ∷ codes "# flags: -s-" ∷ one_group 20 rx rx

-- A filesystem that is as expected.
abbrev view : View
view = record {
  find_paths = λ root. some (root ∷ []);
  lstat = λ path. symlink (codes "org");
  getfacl = λ path. some (
      join
        ((codes "# file: " ++ path)
          ∷ (if beq path (codes "/o/org/bob") then bob_lines else toplevel_lines))
        newline);
}
