-- ===== src/Sharing/Getfacl/Text.antt =====
-- cmd/bcpfs-perms/bcpsharing/facl.go: ParseGetfaclText() on what `getfacl` prints of several files.
use bcpfs.Prelude.{
  ℕ, ◌≡◌, ◌≢◌, refl, ap, sym, ◌∙◌, subst, List, [], ◌∷◌, ◌++◌, map, Bool, true, false, not, all,
  All, length, ltb, ok, arith, append-nil,
}
use bcpfs.Prelude.Bytes.{Bytes, Lacks, codes, has_prefix, split, join}
use bcpfs.SlashPath.Names.{split-join}
use bcpfs.Sharing.Facl.{Facl, FaclAce, ace_text, mode_text}
use bcpfs.Sharing.Getfacl.{
  FileAcl, is_blank, is_mode, file_head, add_line, end_paragraph, paragraphs, parse_ace_lines,
  parse_paragraph, parse_paragraphs, parse_getfacl_text,
}
use bcpfs.Sharing.Getfacl.RoundTrip.{
  IsEntry, Kind, user_kind, group_kind, mask_kind, other_kind, default_text, kind_text,
  ace_text_lem, entry_line_lem, parse_ace_lines-entries, parse_ace_lines-comments,
}
use bcpfs.Sharing.Getfacl.Trim.{space, EndsWell, append-EndsWell, trim_space-EndsWell}

-- A file, with the lines for its owner, group and flags.
pub record Printed : Type 0 where
  pub file : FileAcl
  pub comments : List Bytes

abbrev pub is_comment : Bytes → Bool
is_comment l = has_prefix l (codes "#")

-- The lines that `getfacl` prints of a file.
abbrev pub file_lines : Printed → List Bytes
file_lines p = (file_head ++ p.file.path) ∷ (p.comments ++ map (λ a. ace_text a) p.file.acl)

-- The comments are such lines, the entries are those of an ACL, and there are four lines or more.
pub record IsPrinted (p : Printed) : Type 0 where
  pub has_comments : all is_comment p.comments ≡ true
  pub has_entries : All IsEntry p.file.acl
  pub has_lines : ltb (length (file_lines p)) 4 ≡ false

parse_paragraph-file_lines :
    (p : Printed) → IsPrinted p → parse_paragraph (file_lines p) ≡ ok p.file
unfolding parse_paragraph parse_ace_lines has_prefix
parse_paragraph-file_lines p h =
    rw
      (
        h.has_lines,
        parse_ace_lines-comments p.comments (map (λ a. ace_text a) p.file.acl) h.has_comments,
        parse_ace_lines-entries p.file.acl h.has_entries,
      )
      refl

abbrev filled : Bytes → Bool
filled l = not (all is_blank l)

comment-filled : (l : Bytes) → is_comment l ≡ true → filled l ≡ true
unfolding has_prefix is_blank
comment-filled [] h = absurd (cc h)
comment-filled (c ∷ l) h = ground arith

comments-filled : (ls : List Bytes) → all is_comment ls ≡ true → all filled ls ≡ true
comments-filled [] h = refl
comments-filled (l ∷ ls) h = ground (arith, comment-filled l, comments-filled ls)

kind-filled :
    (dflt : Bool) (kind : Kind) (l : Bytes)
    → filled (default_text dflt ++ (kind_text kind ++ l)) ≡ true
unfolding is_blank
kind-filled true kind l = refl
kind-filled false user_kind l = refl
kind-filled false group_kind l = refl
kind-filled false mask_kind l = refl
kind-filled false other_kind l = refl

entries-filled : (acl : Facl) → All IsEntry acl → all filled (map (λ a. ace_text a) acl) ≡ true
entries-filled [] h = refl
entries-filled (a ∷ acl) (ha, h) =
    let one =
      ap (λ l. filled l) (ace_text_lem a ∙ entry_line_lem a ha) ∙ kind-filled ha.dflt ha.kind _ in
    rw (one) (entries-filled acl h)

all-append :
    (p : Bytes → Bool) (xs ys : List Bytes)
    → all p xs ≡ true
    → all p ys ≡ true
    → all p (xs ++ ys) ≡ true
all-append p [] ys hx hy = hy
all-append p (x ∷ xs) ys hx hy = ground (arith, all-append p xs ys)

file_lines-filled : (p : Printed) → IsPrinted p → all filled (file_lines p) ≡ true
unfolding is_blank
file_lines-filled p h =
    all-append filled p.comments (map (λ a. ace_text a) p.file.acl)
      (comments-filled p.comments h.has_comments) (entries-filled p.file.acl h.has_entries)

-- Lines that are not blank stand in front of the first paragraph of the rest.
paragraphs-filled :
    (ls rest : List Bytes) (par : List Bytes) (pars : List (List Bytes))
    → all filled ls ≡ true
    → paragraphs rest ≡ par ∷ pars
    → paragraphs (ls ++ rest) ≡ (ls ++ par) ∷ pars
unfolding paragraphs add_line
paragraphs-filled [] rest par pars h e = e
paragraphs-filled (l ∷ ls) rest par pars h e =
    let off : all is_blank l ≡ false = ground arith in
    rw (off, paragraphs-filled ls rest par pars (ground arith) e) refl

-- The lines of the whole text, with a blank line between files.
abbrev pub text_lines : Printed → List Printed → List Bytes
text_lines p [] = file_lines p
text_lines p (q ∷ ps) = file_lines p ++ [] ∷ text_lines q ps

paragraphs-text_lines :
    (p : Printed) (ps : List Printed)
    → IsPrinted p
    → All IsPrinted ps
    → paragraphs (text_lines p ps) ≡ map file_lines (p ∷ ps)
unfolding paragraphs end_paragraph
paragraphs-text_lines p [] hp h =
    ap (λ l. paragraphs l) (sym (append-nil (file_lines p)))
    ∙ paragraphs-filled (file_lines p) [] [] [] (file_lines-filled p hp) refl
    ∙ ap (λ l. l ∷ []) (append-nil (file_lines p))
paragraphs-text_lines p (q ∷ ps) hp (hq, h) =
    paragraphs-filled (file_lines p) ([] ∷ text_lines q ps) [] (map file_lines (q ∷ ps))
      (file_lines-filled p hp) (rw (paragraphs-text_lines q ps hq h) refl)
    ∙ ap (λ l. l ∷ map file_lines (q ∷ ps)) (append-nil (file_lines p))

parse_paragraphs-file_lines :
    (ps : List Printed)
    → All IsPrinted ps
    → parse_paragraphs (map file_lines ps) ≡ ok (map (λ p. p.file) ps)
unfolding parse_paragraphs
parse_paragraphs-file_lines [] h = refl
parse_paragraphs-file_lines (p ∷ ps) (hp, h) =
    rw (parse_paragraph-file_lines p hp, parse_paragraphs-file_lines ps h) refl

mode_last : (a b c : ℕ) → is_mode (a ∷ b ∷ c ∷ []) ≡ true → space c ≡ false
unfolding is_mode is_blank
mode_last a b c h = ground arith

ace_text-EndsWell : (ace : FaclAce) → IsEntry ace → EndsWell (ace_text ace)
unfolding mode_text
ace_text-EndsWell ace h = subst EndsWell (sym (ace_text_lem ace)) (
    append-EndsWell ace.tag (b':' ∷ mode_text ace.mode) (record {
      front = b':' ∷ ace.mode.first ∷ ace.mode.second ∷ [];
      last = ace.mode.third;
      parts = refl;
      no_space = mode_last ace.mode.first ace.mode.second ace.mode.third h.has_mode;
    }))

-- The last line ends so.
abbrev LastWell : List Bytes → Type 0
LastWell [] = ⊥
LastWell (l ∷ []) = EndsWell l
LastWell (l ∷ m ∷ ls) = LastWell (m ∷ ls)

append-LastWell : (ls ms : List Bytes) → LastWell ms → LastWell (ls ++ ms)
append-LastWell [] ms h = h
append-LastWell (l ∷ []) [] h = absurd h
append-LastWell (l ∷ []) (m ∷ ms) h = h
append-LastWell (l ∷ k ∷ ls) ms h = append-LastWell (k ∷ ls) ms h

entries-LastWell : (acl : Facl) → acl ≢ [] → All IsEntry acl → LastWell (map (λ a. ace_text a) acl)
entries-LastWell [] some_entry h = absurd (some_entry refl)
entries-LastWell (a ∷ []) some_entry (ha, h) = ace_text-EndsWell a ha
entries-LastWell (a ∷ b ∷ acl) some_entry (ha, h) = entries-LastWell (b ∷ acl) (λ e. cc) h

join-EndsWell : (ls : List Bytes) → LastWell ls → EndsWell (join ls b'\n')
unfolding join
join-EndsWell [] h = absurd h
join-EndsWell (l ∷ []) h = h
join-EndsWell (l ∷ m ∷ ls) h =
    append-EndsWell l (b'\n' ∷ join (m ∷ ls) b'\n')
      (append-EndsWell (b'\n' ∷ []) (join (m ∷ ls) b'\n') (join-EndsWell (m ∷ ls) h))

text_lines-LastWell :
    (p : Printed) (ps : List Printed)
    → All (λ q. q.file.acl ≢ []) (p ∷ ps)
    → All IsPrinted (p ∷ ps)
    → LastWell (text_lines p ps)
text_lines-LastWell p [] (some_entry, h) (hp, _) =
    append-LastWell ((file_head ++ p.file.path) ∷ p.comments) (map (λ a. ace_text a) p.file.acl)
      (entries-LastWell p.file.acl some_entry hp.has_entries)
text_lines-LastWell p (q ∷ ps) (some_entry, h) (hp, hs) =
    append-LastWell (file_lines p) ([] ∷ text_lines q ps)
      (append-LastWell ([] ∷ []) (text_lines q ps) (text_lines-LastWell q ps h hs))

join_head :
    (path : Bytes) (ls : List Bytes)
    → has_prefix (join ((file_head ++ path) ∷ ls) b'\n') (codes "#") ≡ true
unfolding join has_prefix
join_head path [] = refl
join_head path (l ∷ ls) = refl

text_lines-ne : (p : Printed) (ps : List Printed) → text_lines p ps ≢ []
text_lines-ne p [] = λ e. cc
text_lines-ne p (q ∷ ps) = λ e. cc

text_lines-head :
    (p : Printed) (ps : List Printed) → has_prefix (join (text_lines p ps) b'\n') (codes "#") ≡ true
text_lines-head p [] = join_head p.file.path _
text_lines-head p (q ∷ ps) = join_head p.file.path _

-- What `getfacl` prints of files with some entries is read back: the paths with their entries, for
-- lines without newlines in them. A file has lines that start with `#` before its entries, and a
-- blank line after them; there are four lines or more.
pub parse_getfacl_text-text_lines :
    (p : Printed) (ps : List Printed)
    → All IsPrinted (p ∷ ps)
    → All (λ q. q.file.acl ≢ []) (p ∷ ps)
    → All (Lacks b'\n') (text_lines p ps)
    → parse_getfacl_text (join (text_lines p ps) b'\n' ++ b'\n' ∷ b'\n' ∷ [])
      ≡ ok (map (λ q. q.file) (p ∷ ps))
unfolding parse_getfacl_text
parse_getfacl_text-text_lines p ps (hp, h) some_entries lacks =
    let text = join (text_lines p ps) b'\n' in
    ap (λ s. parse_paragraphs (paragraphs (split s b'\n')))
      (trim_space-EndsWell text (text_lines-head p ps)
        (join-EndsWell (text_lines p ps) (text_lines-LastWell p ps some_entries (hp, h))))
    ∙ ap (λ ls. parse_paragraphs (paragraphs ls))
        (split-join (text_lines p ps) b'\n' (text_lines-ne p ps) lacks)
    ∙ ap (λ pars. parse_paragraphs pars) (paragraphs-text_lines p ps hp h)
    ∙ parse_paragraphs-file_lines (p ∷ ps) (hp, h)
