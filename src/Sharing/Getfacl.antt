-- ===== src/Sharing/Getfacl.antt =====
-- cmd/bcpfs-perms/bcpsharing/facl.go: ParseGetfaclText(), the parser of getfacl output.
pub mod RoundTrip
pub mod Trim
pub mod Text
use bcpfs.Prelude.{
  ℕ, ◌+◌, ◌-◌, List, [], ◌∷◌, ◌++◌, Bool, true, false, not, ◌&&◌, ◌||◌, ◌==◌, all, any, leb, ltb,
  length, drop, take, get_or, if◌then◌else◌, Outcome, ok, err, panic, ◌>>=◌, Option, none, some,
}
use mathlib.Core.List.{reverse}
use bcpfs.Prelude.Bytes.{Bytes, codes, beq, has_prefix, split, join}
use bcpfs.Sharing.{AceMode}
use bcpfs.Sharing.Facl.{Facl, FaclAce}

pub record FileAcl : Type 0 where
  pub path : Bytes
  pub acl : Facl

pub data Error : Type 0 where
  missing_file_header malformed_ace_line : Error

-- `\s` of a regular expression: `\t`, `\n`, `\f`, `\r` and the space.
unfoldable pub is_blank : ℕ → Bool
is_blank c = c == 9 || c == 10 || c == 12 || c == 13 || c == 32

-- `(?:user|group|mask|other:)` at the start: what follows.
unfoldable pub match_tags : List Bytes → Bytes → Option Bytes
match_tags [] line = none
match_tags (tag ∷ tags) line =
    let rest = match_tags tags line in
    if has_prefix line tag then some (drop (length tag) line) else rest

abbrev pub tags : List Bytes
tags = codes "user" ∷ codes "group" ∷ codes "mask" ∷ codes "other:" ∷ []

-- `[r-][w-][x-]`
unfoldable pub is_mode : Bytes → Bool
is_mode (a ∷ b ∷ c ∷ []) =
    (a == b'r' || a == b'-') && (b == b'w' || b == b'-') && (c == b'x' || c == b'-')
is_mode _ = false

-- `\S*:[r-][w-][x-]` up to the end.
unfoldable pub match_end : Bytes → Bool
unfolding is_blank is_mode
match_end [] = false
match_end (c ∷ s) = (c == b':' && is_mode s) || (not (is_blank c) && match_end s)

-- The pattern without `(?:default:)?`.
unfoldable pub match_entry : Bytes → Bool
unfolding match_tags match_end
match_entry line = elim (match_tags tags line) [ none ↦ false | some rest ↦ match_end rest ]

-- rgxGetfaclAce.MatchString(line)
unfoldable pub is_ace_line : Bytes → Bool
unfolding match_entry
is_ace_line line =
    (has_prefix line (codes "default:") && match_entry (drop (length (codes "default:")) line))
    || match_entry line

-- `AceMode(line[len(line)-3:])`
unfoldable pub mode_of : Bytes → AceMode
mode_of m = record { first = get_or m 0 0; second = get_or m 1 0; third = get_or m 2 0 }

-- parseGetfaclAceLine(line)
unfoldable pub parse_ace_line : Bytes → Outcome Error FaclAce
unfolding is_ace_line mode_of
parse_ace_line line =
    if not (is_ace_line line)
    then err malformed_ace_line
    else ok
        (record { tag = take (length line - 4) line; mode = mode_of (drop (length line - 3) line) })

-- `for _, l := range lines`
unfoldable pub parse_ace_lines : List Bytes → Outcome Error Facl
unfolding parse_ace_line
parse_ace_lines [] = ok []
parse_ace_lines (l ∷ lines) =
    let rest = parse_ace_lines lines in
    if has_prefix l (codes "#")
    then rest
    else (do ace ← parse_ace_line l; aces ← rest; ok (ace ∷ aces))

abbrev pub file_head : Bytes
file_head = codes "# file: "

-- parseGetfaclParagraph(par), from the lines of `par`. The capacity `len(lines)-4` of the slice must
-- not be negative.
unfoldable pub parse_paragraph : List Bytes → Outcome Error FileAcl
unfolding parse_ace_lines
parse_paragraph lines =
    let head = get_or lines 0 [] in
    if not (has_prefix head file_head)
    then err missing_file_header
    else if ltb (length lines) 4
    then panic
    else (do
      acl ← parse_ace_lines lines
      ok (record { path = drop (length file_head) head; acl = acl }))

-- A paragraph with one more line.
unfoldable pub add_line : Bytes → List (List Bytes) → List (List Bytes)
add_line l [] = (l ∷ []) ∷ []
add_line l (par ∷ pars) = (l ∷ par) ∷ pars

-- A blank line ends a paragraph, unless it follows another one.
unfoldable pub end_paragraph : List (List Bytes) → List (List Bytes)
end_paragraph ([] ∷ pars) = [] ∷ pars
end_paragraph pars = [] ∷ pars

-- rgxSplitGetfaclText.Split(txt, -1), from the lines of a text without spaces at its ends; each
-- paragraph is the list of its lines.
unfoldable pub paragraphs : List Bytes → List (List Bytes)
unfolding is_blank add_line end_paragraph
paragraphs [] = [] ∷ []
paragraphs (l ∷ ls) =
    let rest = paragraphs ls in if all is_blank l then end_paragraph rest else add_line l rest

unfoldable pub parse_paragraphs : List (List Bytes) → Outcome Error (List FileAcl)
unfolding parse_paragraph
parse_paragraphs [] = ok []
parse_paragraphs (par ∷ pars) = do
  acl ← parse_paragraph par
  acls ← parse_paragraphs pars
  ok (acl ∷ acls)

unfoldable pub trim_left_space : Bytes → Bytes
unfolding is_blank
trim_left_space [] = []
trim_left_space (c ∷ s) =
    let rest = trim_left_space s in if is_blank c || c == 11 then rest else c ∷ s

-- strings.TrimSpace(s), for ASCII text
unfoldable pub trim_space : Bytes → Bytes
unfolding trim_left_space
trim_space s = reverse (trim_left_space (reverse (trim_left_space s)))

-- ParseGetfaclText(txt)
unfoldable pub parse_getfacl_text : Bytes → Outcome Error (List FileAcl)
unfolding parse_paragraphs paragraphs trim_space
parse_getfacl_text txt = parse_paragraphs (paragraphs (split (trim_space txt) b'\n'))
