-- ===== src/Sharing/Getfacl/RoundTrip.antt =====
-- cmd/bcpfs-perms/bcpsharing/facl.go: what `getfacl` prints of a file is read back.
use bcpfs.Prelude.{
  ℕ, ◌-◌, ◌≡◌, refl, ap, sym, ◌∙◌, List, [], ◌∷◌, ◌++◌, map, Bool, true, false, not, ◌||◌, all, All,
  length, drop, take, take-append, length-append, ok, arith, append_assoc,
}
use bcpfs.Prelude.Bytes.{Bytes, codes, has_prefix}
use bcpfs.Sharing.Facl.{Facl, FaclAce, ace_text, mode_text}
use bcpfs.Sharing.Getfacl.{
  is_blank, match_tags, is_mode, match_end, match_entry, is_ace_line, mode_of, parse_ace_line,
  parse_ace_lines,
}

abbrev pub no_blank : Bytes → Bool
no_blank = all (λ c. not (is_blank c))

-- The kinds of entries, with the colon after them.
pub data Kind : Type 0 where
  user_kind group_kind mask_kind other_kind : Kind

abbrev pub kind_text : Kind → Bytes
kind_text user_kind = codes "user:"
kind_text group_kind = codes "group:"
kind_text mask_kind = codes "mask:"
kind_text other_kind = codes "other:"

abbrev pub default_text : Bool → Bytes
default_text true = codes "default:"
default_text false = []

-- The tag is a kind and a name, after `default:` or not.
pub record IsEntry (ace : FaclAce) : Type 0 where
  pub dflt : Bool
  pub kind : Kind
  pub name : Bytes
  pub is_tag : ace.tag ≡ default_text dflt ++ (kind_text kind ++ name)
  pub is_word : no_blank name ≡ true
  pub has_mode : is_mode (mode_text ace.mode) ≡ true

match_end-name :
    (name mode : Bytes)
    → no_blank name ≡ true
    → is_mode mode ≡ true
    → match_end (name ++ b':' ∷ mode) ≡ true
unfolding match_end
match_end-name [] mode hn hm = ground arith
match_end-name (c ∷ name) mode hn hm = ground (arith, match_end-name name mode)

match_entry-kind :
    (kind : Kind) (name mode : Bytes)
    → no_blank name ≡ true
    → is_mode mode ≡ true
    → match_entry (kind_text kind ++ (name ++ b':' ∷ mode)) ≡ true
unfolding match_entry match_tags has_prefix match_end is_blank
match_entry-kind user_kind name mode hn hm = ground (arith, match_end-name name mode hn hm)
match_entry-kind group_kind name mode hn hm = ground (arith, match_end-name name mode hn hm)
match_entry-kind mask_kind name mode hn hm = ground (arith, match_end-name name mode hn hm)
match_entry-kind other_kind name mode hn hm = match_end-name name mode hn hm

or_true_right : (b : Bool) → (b || true) ≡ true
or_true_right b = ground arith

is_ace_line-entry :
    (dflt : Bool) (kind : Kind) (name mode : Bytes)
    → no_blank name ≡ true
    → is_mode mode ≡ true
    → is_ace_line (default_text dflt ++ (kind_text kind ++ (name ++ b':' ∷ mode))) ≡ true
unfolding is_ace_line has_prefix
is_ace_line-entry true kind name mode hn hm = rw (match_entry-kind kind name mode hn hm) refl
is_ace_line-entry false kind name mode hn hm =
    rw (match_entry-kind kind name mode hn hm) (or_true_right _)

pub drop_append : (xs ys : Bytes) → drop (length xs) (xs ++ ys) ≡ ys
drop_append [] ys = refl
drop_append (x ∷ xs) ys = drop_append xs ys

first_lem :
    (dflt : Bool) (kind : Kind) (l : Bytes)
    → has_prefix (default_text dflt ++ (kind_text kind ++ l)) (codes "#") ≡ false
unfolding has_prefix
first_lem true kind l = refl
first_lem false user_kind l = refl
first_lem false group_kind l = refl
first_lem false mask_kind l = refl
first_lem false other_kind l = refl

pub ace_text_lem : (ace : FaclAce) → ace_text ace ≡ ace.tag ++ b':' ∷ mode_text ace.mode
unfolding ace_text
ace_text_lem ace = append_assoc ace.tag (codes ":") (mode_text ace.mode)

module _ (tag : Bytes) (a b c : ℕ) where
  take_tag : take (length (tag ++ b':' ∷ a ∷ b ∷ c ∷ []) - 4) (tag ++ b':' ∷ a ∷ b ∷ c ∷ []) ≡ tag
  take_tag =
      let n : length (tag ++ b':' ∷ a ∷ b ∷ c ∷ []) - 4 ≡ length tag =
        omega (arith, length-append tag (b':' ∷ a ∷ b ∷ c ∷ [])) in
      ap (λ k. take k (tag ++ b':' ∷ a ∷ b ∷ c ∷ [])) n ∙ take-append tag (b':' ∷ a ∷ b ∷ c ∷ [])

  drop_tag :
      drop (length (tag ++ b':' ∷ a ∷ b ∷ c ∷ []) - 3) (tag ++ b':' ∷ a ∷ b ∷ c ∷ [])
      ≡ a ∷ b ∷ c ∷ []
  drop_tag =
      let n : length (tag ++ b':' ∷ a ∷ b ∷ c ∷ []) - 3 ≡ length (tag ++ b':' ∷ []) =
        omega (arith, length-append tag (b':' ∷ a ∷ b ∷ c ∷ []), length-append tag (b':' ∷ [])) in
      ap (λ k. drop k (tag ++ b':' ∷ a ∷ b ∷ c ∷ [])) n
      ∙ ap (λ l. drop (length (tag ++ b':' ∷ [])) l)
          (sym (append_assoc tag (b':' ∷ []) (a ∷ b ∷ c ∷ [])))
      ∙ drop_append (tag ++ b':' ∷ []) (a ∷ b ∷ c ∷ [])

  tag_line :
      is_ace_line (tag ++ b':' ∷ a ∷ b ∷ c ∷ []) ≡ true
      → parse_ace_line (tag ++ b':' ∷ a ∷ b ∷ c ∷ [])
        ≡ ok (record { tag = tag; mode = record { first = a; second = b; third = c } })
  unfolding parse_ace_line mode_of
  tag_line h = rw (h, take_tag, drop_tag) refl

pub entry_line_lem :
    (ace : FaclAce) (h : IsEntry ace)
    → ace.tag ++ b':' ∷ mode_text ace.mode
      ≡ default_text h.dflt ++ (kind_text h.kind ++ (h.name ++ b':' ∷ mode_text ace.mode))
entry_line_lem ace h =
    ap (λ t. t ++ b':' ∷ mode_text ace.mode) h.is_tag
    ∙ append_assoc (default_text h.dflt) (kind_text h.kind ++ h.name) (b':' ∷ mode_text ace.mode)
    ∙ ap (λ l. default_text h.dflt ++ l)
        (append_assoc (kind_text h.kind) h.name (b':' ∷ mode_text ace.mode))

-- A line of an entry is read back.
parse_ace_line-ace_text : (ace : FaclAce) → IsEntry ace → parse_ace_line (ace_text ace) ≡ ok ace
unfolding mode_text
parse_ace_line-ace_text ace h =
    let accepted =
      ap (λ l. is_ace_line l) (entry_line_lem ace h)
      ∙ is_ace_line-entry h.dflt h.kind h.name (mode_text ace.mode) h.is_word h.has_mode in
    ap (λ l. parse_ace_line l) (ace_text_lem ace)
    ∙ tag_line ace.tag ace.mode.first ace.mode.second ace.mode.third accepted

entry_no_comment : (ace : FaclAce) → IsEntry ace → has_prefix (ace_text ace) (codes "#") ≡ false
unfolding has_prefix
entry_no_comment ace h =
    ap (λ l. has_prefix l (codes "#")) (ace_text_lem ace ∙ entry_line_lem ace h)
    ∙ first_lem h.dflt h.kind _

pub parse_ace_lines-entries :
    (acl : Facl) → All IsEntry acl → parse_ace_lines (map (λ a. ace_text a) acl) ≡ ok acl
unfolding parse_ace_lines
parse_ace_lines-entries [] h = refl
parse_ace_lines-entries (ace ∷ acl) (ha, h) =
    rw (entry_no_comment ace ha, parse_ace_line-ace_text ace ha, parse_ace_lines-entries acl h) refl

pub parse_ace_lines-comments :
    (comments lines : List Bytes)
    → all (λ l. has_prefix l (codes "#")) comments ≡ true
    → parse_ace_lines (comments ++ lines) ≡ parse_ace_lines lines
unfolding parse_ace_lines
parse_ace_lines-comments [] lines h = refl
parse_ace_lines-comments (l ∷ comments) lines h =
    let on : has_prefix l (codes "#") ≡ true = ground arith in
    rw on (parse_ace_lines-comments comments lines (ground arith))
