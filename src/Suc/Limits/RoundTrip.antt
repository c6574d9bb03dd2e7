-- ===== src/Suc/Limits/RoundTrip.antt =====
-- The text that SetQuota() of internal/suc/quotad/quotad.go feeds to setquota, read back by Parse() of
-- cmd/bcpctl/internal/quota/quota.go.
use bcpfs.Prelude.{
  ℕ, suc, ◌<◌, ◌^◌, ◌≡◌, ◌≢◌, refl, ap, sym, ◌∙◌, List, [], ◌∷◌, ◌++◌, append-nil, Bool, true,
  false, not, ◌&&◌, ◌||◌, ◌==◌, leb, ltb, length, all, All, ok, arith, map,
}
use bcpfs.Prelude.Bytes.{Bytes, Lacks, codes, split, push, has_prefix, beq}
use bcpfs.Prelude.Decimal.{
  decimal, is_digit, decimal-ne-nil, decimal-all_digits, parse_uint-decimal,
}
use bcpfs.SlashPath.Names.{split-Lacks-append}
use bcpfs.Suc.Limits.{
  Quota, is_space, starts_field, space_width, fields_from, fields, drop_cr, is_end, scan_lines,
  max_scan_token_size, parse_field, parse_toks, parse_quotas, parse,
}
use bcpfs.Suc.Server.{limit_line, limits_text, quota_limit}

-- ASCII characters without spaces.
abbrev pub no_space : Bytes → Bool
no_space = all (λ c. not (is_space c) && ltb c 128)

digits-no_space : (s : Bytes) → all is_digit s ≡ true → no_space s ≡ true
unfolding is_space
digits-no_space [] h = refl
digits-no_space (c ∷ s) h = ground (arith, digits-no_space s)

decimal-no_space : (n : ℕ) → no_space (decimal n) ≡ true
decimal-no_space n = digits-no_space (decimal n) (decimal-all_digits n)

-- A word in front of a text that does not go on with it.
fields-word :
    (w s : Bytes)
    → w ≢ []
    → no_space w ≡ true
    → starts_field s ≡ false
    → fields (w ++ s) ≡ w ∷ fields s
unfolding fields fields_from space_width starts_field push
fields-word [] s h n e = absurd (h refl)
fields-word (c ∷ []) s h n e = ground arith
fields-word (c ∷ d ∷ w) s h n e =
    let rest = fields-word (d ∷ w) s (λ x. cc) (ground arith) e in ground (arith, rest)

fields-space : (w s : Bytes) → w ≢ [] → no_space w ≡ true → fields (w ++ b' ' ∷ s) ≡ w ∷ fields s
unfolding fields starts_field space_width is_space
fields-space w s h n = fields-word w (b' ' ∷ s) h n refl

fields-decimal_space : (n : ℕ) (s : Bytes) → fields (decimal n ++ b' ' ∷ s) ≡ decimal n ∷ fields s
fields-decimal_space n s = fields-space (decimal n) s (decimal-ne-nil n) (decimal-no_space n)

fields-decimal : (n : ℕ) → fields (decimal n) ≡ decimal n ∷ []
unfolding fields fields_from starts_field
fields-decimal n =
    ap (λ s. fields s) (sym (append-nil (decimal n)))
    ∙ fields-word (decimal n) [] (decimal-ne-nil n) (decimal-no_space n) refl

-- No byte is a newline or a carriage return.
abbrev pub one_line : Bytes → Bool
one_line = all (λ c. not (c == b'\n') && not (c == b'\r'))

no_space-one_line : (s : Bytes) → no_space s ≡ true → one_line s ≡ true
unfolding is_space
no_space-one_line [] h = refl
no_space-one_line (c ∷ s) h = ground (arith, no_space-one_line s)

one_line-append : (s t : Bytes) → one_line s ≡ true → one_line t ≡ true → one_line (s ++ t) ≡ true
one_line-append [] t hs ht = ht
one_line-append (c ∷ s) t hs ht = ground (arith, one_line-append s t)

one_line-Lacks : (s : Bytes) → one_line s ≡ true → Lacks b'\n' s
one_line-Lacks [] h = tt
one_line-Lacks (c ∷ s) h = (ground arith, one_line-Lacks s (ground arith))

drop_cr-one_line : (s : Bytes) → one_line s ≡ true → drop_cr s ≡ s
unfolding drop_cr
drop_cr-one_line [] h = refl
drop_cr-one_line (c ∷ []) h = ground arith
drop_cr-one_line (c ∷ d ∷ s) h = ap (λ l. c ∷ l) (drop_cr-one_line (d ∷ s) (ground arith))

-- A word, a space and a line without newlines.
one_line-space :
    (w s : Bytes) → no_space w ≡ true → one_line s ≡ true → one_line (w ++ b' ' ∷ s) ≡ true
one_line-space w s hw hs = one_line-append w (b' ' ∷ s) (no_space-one_line w hw) (ground arith)

-- The limits that the text can carry: the name is a word of ASCII characters that does not begin a comment, the numbers
-- are of 64 bits, and the line fits the buffer of the scanner.
pub record IsPrintable (q : Quota) : Type 0 where
  pub is_named : q.xid ≢ []
  pub is_word : no_space q.xid ≡ true
  pub no_comment : has_prefix q.xid (codes "#") ≡ false
  pub block_soft_u64 : q.block_soft_limit < 2 ^ 64
  pub block_hard_u64 : q.block_hard_limit < 2 ^ 64
  pub inode_soft_u64 : q.inode_soft_limit < 2 ^ 64
  pub inode_hard_u64 : q.inode_hard_limit < 2 ^ 64
  pub fits : length (limit_line (quota_limit q)) < max_scan_token_size

-- The rest of the line from each number on.
abbrev from_inode_soft : Quota → Bytes
from_inode_soft q = decimal q.inode_soft_limit ++ b' ' ∷ decimal q.inode_hard_limit

abbrev from_block_hard : Quota → Bytes
from_block_hard q = decimal q.block_hard_limit ++ b' ' ∷ from_inode_soft q

abbrev from_block_soft : Quota → Bytes
from_block_soft q = decimal q.block_soft_limit ++ b' ' ∷ from_block_hard q

limit_line_lem : (q : Quota) → limit_line (quota_limit q) ≡ q.xid ++ b' ' ∷ from_block_soft q
unfolding limit_line quota_limit
limit_line_lem q = refl

module _ (q : Quota) (h : IsPrintable q) where
  line_one_line : one_line (limit_line (quota_limit q)) ≡ true
  line_one_line = rw (limit_line_lem q) (
      one_line-space q.xid (from_block_soft q) h.is_word (
        one_line-space (decimal q.block_soft_limit) (from_block_hard q)
          (decimal-no_space q.block_soft_limit)
          (one_line-space (decimal q.block_hard_limit) (from_inode_soft q)
            (decimal-no_space q.block_hard_limit)
            (one_line-space (decimal q.inode_soft_limit) (decimal q.inode_hard_limit)
              (decimal-no_space q.inode_soft_limit)
              (no_space-one_line (decimal q.inode_hard_limit)
                (decimal-no_space q.inode_hard_limit))))))

  fields-limit_line :
      fields (limit_line (quota_limit q))
      ≡ q.xid
        ∷ decimal q.block_soft_limit
        ∷ decimal q.block_hard_limit
        ∷ decimal q.inode_soft_limit
        ∷ decimal q.inode_hard_limit
        ∷ []
  fields-limit_line =
      rw
        (
          limit_line_lem q,
          fields-space q.xid (from_block_soft q) h.is_named h.is_word,
          fields-decimal_space q.block_soft_limit (from_block_hard q),
          fields-decimal_space q.block_hard_limit (from_inode_soft q),
          fields-decimal_space q.inode_soft_limit (decimal q.inode_hard_limit),
          fields-decimal q.inode_hard_limit,
        )
        refl

  parse_toks-decimal :
      (num : ℕ)
      → parse_toks num (
          q.xid
          ∷ decimal q.block_soft_limit
          ∷ decimal q.block_hard_limit
          ∷ decimal q.inode_soft_limit
          ∷ decimal q.inode_hard_limit
          ∷ [])
        ≡ ok q
  unfolding parse_toks parse_field
  parse_toks-decimal num =
      rw
        (
          parse_toks,
          parse_field,
          parse_uint-decimal q.block_soft_limit h.block_soft_u64,
          parse_uint-decimal q.block_hard_limit h.block_hard_u64,
          parse_uint-decimal q.inode_soft_limit h.inode_soft_u64,
          parse_uint-decimal q.inode_hard_limit h.inode_hard_u64,
        )
        refl

leb-lt : (m n : ℕ) → n < m → leb m n ≡ false
leb-lt m n h = ground arith

scan_lines-cons :
    (line : Bytes) (ps : List Bytes)
    → line ≢ []
    → one_line line ≡ true
    → length line < max_scan_token_size
    → scan_lines (line ∷ ps) ≡ line ∷ scan_lines ps
unfolding scan_lines is_end
scan_lines-cons [] ps h o b = absurd (h refl)
scan_lines-cons (c ∷ line) ps h o b =
    rw (leb-lt max_scan_token_size (length (c ∷ line)) b, drop_cr-one_line (c ∷ line) o) refl

no_comment-append :
    (w s : Bytes)
    → w ≢ []
    → has_prefix w (codes "#") ≡ false
    → (beq (w ++ s) [] ≡ false) × (has_prefix (w ++ s) (codes "#") ≡ false)
unfolding has_prefix beq
no_comment-append [] s h p = absurd (h refl)
no_comment-append (c ∷ w) s h p = (refl, ground arith)

append-ne-nil : (w s : Bytes) → w ≢ [] → (w ++ s) ≢ []
append-ne-nil [] s h = absurd (h refl)
append-ne-nil (c ∷ w) s h = λ e. cc

no_comment-line :
    (q : Quota)
    → IsPrintable q
    → (beq (limit_line (quota_limit q)) [] || has_prefix (limit_line (quota_limit q)) (codes "#"))
      ≡ false
no_comment-line q h =
    let (filled, plain) =
      no_comment-append q.xid (b' ' ∷ from_block_soft q) h.is_named h.no_comment in
    rw (limit_line_lem q, filled, plain) refl

line-ne-nil : (q : Quota) → IsPrintable q → limit_line (quota_limit q) ≢ []
line-ne-nil q h = rw (limit_line_lem q) (append-ne-nil q.xid (b' ' ∷ from_block_soft q) h.is_named)

-- The lines of the text are read back, whatever number they begin with.
parse_quotas-limits_text :
    (num : ℕ) (qs : List Quota)
    → All IsPrintable qs
    → parse_quotas num (scan_lines (split (limits_text (map quota_limit qs)) b'\n')) ≡ ok qs
unfolding limits_text quota_limit split scan_lines is_end parse_quotas
parse_quotas-limits_text num [] h = refl
parse_quotas-limits_text num (q ∷ qs) (hq, hqs) =
    let line = limit_line (quota_limit q) in
    let plain = no_comment-line q hq in
    rw
      (
        split-Lacks-append line (limits_text (map quota_limit qs)) b'\n'
            (one_line-Lacks line (line_one_line q hq)),
        scan_lines-cons line (split (limits_text (map quota_limit qs)) b'\n') (line-ne-nil q hq)
            (line_one_line q hq) hq.fits,
        plain,
        fields-limit_line q hq,
        parse_toks-decimal q hq (suc num),
        parse_quotas-limits_text (suc num) qs hqs,
      )
      refl

-- The text that the server makes of the limits of a request is read back by the client's parser as the
-- limits, for limits with a name that is a word of ASCII characters and does not begin a comment, with
-- 64-bit numbers, and with lines of fewer than 64 KiB.
pub parse-limits_text :
    (qs : List Quota) → All IsPrintable qs → parse (limits_text (map quota_limit qs)) ≡ ok qs
unfolding parse
parse-limits_text qs h = parse_quotas-limits_text 0 qs h
