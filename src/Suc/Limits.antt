-- ===== src/Suc/Limits.antt =====
-- cmd/bcpctl/internal/quota/quota.go: Parse(), which reads quota limits from lines of text; and the
-- functions of bufio and strings that it calls, on the bytes of UTF-8.
pub mod RoundTrip
use bcpfs.Prelude.{
  ℕ, zero, suc, ◌+◌, ◌-◌, ltb, List, [], ◌∷◌, Bool, true, false, not, ◌&&◌, ◌||◌, ◌==◌, leb, length,
  Option, none, some, if◌then◌else◌, Outcome, ok, err, ◌>>=◌, ◌>>◌,
}
use bcpfs.Prelude.Bytes.{Bytes, codes, split, push, has_prefix, beq}
use bcpfs.Prelude.Decimal.{parse_uint}

pub record Quota : Type 0 where
  pub xid : Bytes
  pub block_soft_limit : ℕ
  pub block_hard_limit : ℕ
  pub inode_soft_limit : ℕ
  pub inode_hard_limit : ℕ

-- Both have the number of the line, the second that of the field.
pub data Error : Type 0 where
  wrong_number_of_fields : ℕ → Error
  invalid_field : ℕ → ℕ → Error

-- One of `\t`, `\n`, `\v`, `\f`, `\r` and the space.
unfoldable pub is_space : ℕ → Bool
is_space c = (leb 9 c && leb c 13) || c == 32

-- U+0085 and U+00A0, in two bytes.
abbrev is_space2 : ℕ → ℕ → Bool
is_space2 c d = c == 194 && (d == 133 || d == 160)

-- U+1680, U+2000 to U+200A, U+2028, U+2029, U+202F, U+205F and U+3000, in three bytes.
abbrev is_space3 : ℕ → ℕ → ℕ → Bool
is_space3 c d e =
    (c == 225 && d == 154 && e == 128)
    || (c == 226 && d == 128 && (leb 128 e && leb e 138 || e == 168 || e == 169 || e == 175))
    || (c == 226 && d == 129 && e == 159)
    || (c == 227 && d == 128 && e == 128)

abbrev wide_space : ℕ → Bytes → ℕ
wide_space c [] = 0
wide_space c (d ∷ []) = if is_space2 c d then 2 else 0
wide_space c (d ∷ e ∷ s) = if is_space2 c d then 2 else if is_space3 c d e then 3 else 0

-- The number of bytes of the space that the text begins with, by unicode.IsSpace(), or 0.
unfoldable pub space_width : Bytes → ℕ
unfolding is_space
space_width [] = 0
space_width (c ∷ s) = if is_space c then 1 else if ltb c 128 then 0 else wide_space c s

unfoldable pub starts_field : Bytes → Bool
unfolding space_width
starts_field [] = false
starts_field (c ∷ s) = space_width (c ∷ s) == 0

-- The fields after the next `skip` bytes, which are the rest of a space.
unfoldable pub fields_from : ℕ → Bytes → List Bytes
unfolding space_width starts_field push
fields_from skip [] = []
fields_from (suc skip) (c ∷ s) = fields_from skip s
fields_from zero (c ∷ s) =
    let width = space_width (c ∷ s) in
    let rest = fields_from (width - 1) s in
    if width == 0 then (if starts_field s then push c rest else (c ∷ []) ∷ rest) else rest

-- strings.Fields(s)
unfoldable pub fields : Bytes → List Bytes
unfolding fields_from
fields s = fields_from 0 s

-- A carriage return at the end is dropped.
unfoldable pub drop_cr : Bytes → Bytes
drop_cr [] = []
drop_cr (c ∷ []) = if c == b'\r' then [] else c ∷ []
drop_cr (c ∷ d ∷ s) = c ∷ drop_cr (d ∷ s)

-- What follows the last newline is a line unless it is empty.
unfoldable pub is_end : Bytes → List Bytes → Bool
is_end [] [] = true
is_end _ _ = false

-- bufio.MaxScanTokenSize
abbrev pub max_scan_token_size : ℕ
max_scan_token_size = 65536

-- The tokens of a Scanner, from the parts between newlines; a line that is too long ends the scan.
unfoldable pub scan_lines : List Bytes → List Bytes
unfolding drop_cr is_end
scan_lines [] = []
scan_lines (p ∷ ps) =
    let rest = scan_lines ps in
    if is_end p ps || leb max_scan_token_size (length p) then [] else drop_cr p ∷ rest

-- One round of the loop over the fields.
unfoldable pub parse_field : ℕ → ℕ → Bytes → Outcome Error ℕ
parse_field num i tok = elim (parse_uint tok) [
  | none ↦ err (invalid_field num (i + 1))
  | some n ↦ ok n
]

-- From `len(toks) != 5` on.
unfoldable pub parse_toks : ℕ → List Bytes → Outcome Error Quota
unfolding parse_field
parse_toks num (xid ∷ a ∷ b ∷ c ∷ d ∷ []) = do
  block_soft ← parse_field num 1 a
  block_hard ← parse_field num 2 b
  inode_soft ← parse_field num 3 c
  inode_hard ← parse_field num 4 d
  ok (record {
    xid = xid;
    block_soft_limit = block_soft;
    block_hard_limit = block_hard;
    inode_soft_limit = inode_soft;
    inode_hard_limit = inode_hard;
  })
parse_toks num _ = err (wrong_number_of_fields num)

-- The loop; `num` is the number of lines before.
unfoldable pub parse_quotas : ℕ → List Bytes → Outcome Error (List Quota)
unfolding parse_toks
parse_quotas num [] = ok []
parse_quotas num (line ∷ lines) =
    let rest = parse_quotas (suc num) lines in
    if beq line [] || has_prefix line (codes "#")
    then rest
    else (do q ← parse_toks (suc num) (fields line); qs ← rest; ok (q ∷ qs))

-- Parse(fp), for what `fp` reads.
unfoldable pub parse : Bytes → Outcome Error (List Quota)
unfolding scan_lines parse_quotas
parse text = parse_quotas 0 (scan_lines (split text b'\n'))
