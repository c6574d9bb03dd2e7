-- ===== src/Tests/Getfacl.antt =====
-- The theorem on the output of `getfacl` at a concrete input.
use bcpfs.Prelude.{
  ◌≡◌, ◌≢◌, refl, List, [], ◌∷◌, ◌++◌, map, All, all, not, ◌==◌, ok, true, false, arith,
}
use bcpfs.Prelude.Bytes.{Bytes, Lacks, codes, join, has_prefix}
use bcpfs.Sharing.Facl.{FaclAce, ace_text, mode_text}
use bcpfs.Sharing.Getfacl.{is_blank, is_mode, parse_getfacl_text}
use bcpfs.Sharing.Getfacl.RoundTrip.{IsEntry, user_kind, group_kind}
use bcpfs.Sharing.Getfacl.Text.{Printed, IsPrinted, text_lines, parse_getfacl_text-text_lines}
use bcpfs.Tests.Samples.{rx, rwx}

abbrev user_ace : FaclAce
user_ace = record { tag = codes "user:"; mode = rwx }

abbrev alice_ace : FaclAce
alice_ace = record { tag = codes "default:group:org_ag-alice"; mode = rx }

user_ace-IsEntry : IsEntry user_ace
unfolding is_blank is_mode mode_text
user_ace-IsEntry = record {
  dflt = false;
  kind = user_kind;
  name = [];
  is_tag = refl;
  is_word = refl;
  has_mode = refl;
}

alice_ace-IsEntry : IsEntry alice_ace
unfolding is_blank is_mode mode_text
alice_ace-IsEntry = record {
  dflt = true;
  kind = group_kind;
  name = codes "org_ag-alice";
  is_tag = refl;
  is_word = refl;
  has_mode = refl;
}

abbrev tem_file : Printed
tem_file = record {
  file = record { path = codes "srv/tem"; acl = user_ace ∷ [] };
  comments = codes "# owner: root" ∷ codes "# group: srv_tem" ∷ [];
}

abbrev foo_file : Printed
foo_file = record {
  file = record { path = codes "srv/tem/foo"; acl = user_ace ∷ alice_ace ∷ [] };
  comments = codes "# owner: root" ∷ [];
}

files-IsPrinted : All IsPrinted (tem_file ∷ foo_file ∷ [])
unfolding has_prefix
files-IsPrinted = (
  record { has_comments = refl; has_entries = (user_ace-IsEntry, tt); has_lines = refl },
  (
    record {
      has_comments = refl;
      has_entries = (user_ace-IsEntry, (alice_ace-IsEntry, tt));
      has_lines = refl;
    },
    tt,
  ),
)

some_entries : All (λ p. p.file.acl ≢ []) (tem_file ∷ foo_file ∷ [])
some_entries = ((λ e. cc e), ((λ e. cc e), tt))

Lacks-of_test : (s : Bytes) → all (λ c. not (c == b'\n')) s ≡ true → Lacks b'\n' s
Lacks-of_test [] h = tt
Lacks-of_test (c ∷ s) h = (ground arith, Lacks-of_test s (ground arith))

all-Lacks : (ls : List Bytes) → all (all (λ c. not (c == b'\n'))) ls ≡ true → All (Lacks b'\n') ls
all-Lacks [] h = tt
all-Lacks (l ∷ ls) h = (Lacks-of_test l (ground arith), all-Lacks ls (ground arith))

one_lines : All (Lacks b'\n') (text_lines tem_file (foo_file ∷ []))
unfolding ace_text mode_text
one_lines = all-Lacks (text_lines tem_file (foo_file ∷ [])) refl

parse_getfacl_text-text_lines_example :
    parse_getfacl_text (join (text_lines tem_file (foo_file ∷ [])) b'\n' ++ b'\n' ∷ b'\n' ∷ [])
    ≡ ok (map (λ p. p.file) (tem_file ∷ foo_file ∷ []))
parse_getfacl_text-text_lines_example =
    parse_getfacl_text-text_lines tem_file (foo_file ∷ []) files-IsPrinted some_entries one_lines
