-- ===== src/Fsck/Foreign.antt =====
-- cmd/bcpfs-perms/fsck/acl.go: entries for other named groups, such as those of the sharing.
use Prim.Native.Nat.{◌<◌}
use bcpfs.Prelude.{
  ℕ, ◌^◌, ◌≡◌, ◌≢◌, refl, ap, sym, ◌∙◌, List, [], ◌∷◌, ◌++◌, Bool, true, false, not, ◌&&◌, ◌||◌,
  ◌==◌, any, all, All, inl, inr, Bool-cases, some, arith,
}
use bcpfs.Prelude.Bytes.{Bytes, codes, beq, beq_iff, beq_refl, has_prefix, contains}
use bcpfs.Prelude.Decimal.{
  decimal, is_digit, parse_uint, parse_uint-decimal, decimal-all_digits, decimal-ne-nil,
}
use bcpfs.Fsck.Text.{
  gid_line, group_tag, default_tag, is_named_group_entry, is_other_named_group_entry,
}

-- A text of permissions.
abbrev pub is_perms : Bytes → Bool
is_perms = all (λ c. c == b'r' || (c == b'w' || (c == b'x' || c == b'-')))

-- A text without the byte.
abbrev pub without : ℕ → Bytes → Bool
without b = all (λ c. not (c == b))

pub without-append : (b : ℕ) (s t : Bytes) → without b (s ++ t) ≡ (without b s && without b t)
without-append b [] t = refl
without-append b (c ∷ s) t = ground (arith, without-append b s t)

pub without-digits :
    (b : ℕ) (s : Bytes) → is_digit b ≡ false → all is_digit s ≡ true → without b s ≡ true
without-digits b [] hb h = refl
without-digits b (c ∷ s) hb h = ground (arith, without-digits b s)

pub without-perms :
    (b : ℕ) (s : Bytes) → is_perms (b ∷ []) ≡ false → is_perms s ≡ true → without b s ≡ true
without-perms b [] hb h = refl
without-perms b (c ∷ s) hb h = ground (arith, without-perms b s)

contains-without : (s : Bytes) (b : ℕ) (p : Bytes) → without b s ≡ true → contains s (b ∷ p) ≡ false
unfolding contains has_prefix
contains-without [] b p h = refl
contains-without (c ∷ s) b p h = ground (arith, contains-without s b p)

-- What follows the tag of an entry: the gid and the permissions.
abbrev pub tail_of : ℕ → Bytes → Bytes
tail_of gid perms = decimal gid ++ (b':' ∷ perms)

pub tail_without :
    (b gid : ℕ) (perms : Bytes)
    → is_digit b ≡ false
    → is_perms (b ∷ []) ≡ false
    → (b == b':') ≡ false
    → is_perms perms ≡ true
    → without b (tail_of gid perms) ≡ true
tail_without b gid perms hd hp hc h = ground (
  arith,
  without-append b (decimal gid) (b':' ∷ perms),
  without-digits b (decimal gid) hd (decimal-all_digits gid),
  without-perms b perms hp h,
)

-- The tag of a line with a named group, with or without `default:`.
abbrev pub tag_of : Bool → Bytes
tag_of true = default_tag
tag_of false = group_tag

-- A text that starts with `group:` is found only at the tag.
contains_tag :
    (dflt : Bool) (rest p : Bytes)
    → without b'g' rest ≡ true
    → contains (tag_of dflt ++ rest) (group_tag ++ p) ≡ has_prefix rest p
unfolding contains has_prefix
contains_tag true rest p h = ground (arith, contains-without rest b'g' (codes "roup:" ++ p) h)
contains_tag false rest p h = ground (arith, contains-without rest b'g' (codes "roup:" ++ p) h)

pub no_hash :
    (dflt : Bool) (rest : Bytes)
    → without b'#' rest ≡ true
    → contains (tag_of dflt ++ rest) (codes "# ") ≡ false
unfolding contains has_prefix
no_hash true rest h = ground (arith, contains-without rest b'#' (codes " ") h)
no_hash false rest h = ground (arith, contains-without rest b'#' (codes " ") h)

-- The gid of a tail is read up to the colon.
has_prefix-colon :
    (s t rest : Bytes)
    → without b':' s ≡ true
    → without b':' t ≡ true
    → has_prefix (s ++ (b':' ∷ rest)) (t ++ (b':' ∷ [])) ≡ beq s t
unfolding has_prefix beq
has_prefix-colon [] [] rest hs ht = refl
has_prefix-colon [] (d ∷ t) rest hs ht = ground arith
has_prefix-colon (c ∷ s) [] rest hs ht = ground arith
has_prefix-colon (c ∷ s) (d ∷ t) rest hs ht = ground (arith, has_prefix-colon s t rest)

decimal-beq : (g h : ℕ) → g < 2 ^ 64 → h < 2 ^ 64 → beq (decimal g) (decimal h) ≡ (g == h)
decimal-beq g h bg bh = elim (Bool-cases (beq (decimal g) (decimal h))) [
  | inl e ↦
      let same : some g ≡ some h =
        sym (parse_uint-decimal g bg)
        ∙ ap parse_uint ((beq_iff (decimal g) (decimal h)).0 e)
        ∙ parse_uint-decimal h bh in
      ground arith
  | inr e ↦ elim (Bool-cases (g == h)) [
    | inr off ↦ rw (e, off) refl
    | inl at ↦ absurd (ground (arith, beq_refl (decimal g)))
  ]
]

digits_colon :
    (s rest : Bytes)
    → s ≢ []
    → all is_digit s ≡ true
    → has_prefix (s ++ (b':' ∷ rest)) (b':' ∷ []) ≡ false
unfolding has_prefix
digits_colon [] rest h e = absurd (h refl)
digits_colon (c ∷ s) rest h e = ground arith

is_named_group_entry-gid_line :
    (dflt : Bool) (gid : ℕ) (perms : Bytes)
    → is_perms perms ≡ true
    → is_named_group_entry (gid_line (tag_of dflt) gid perms) ≡ true
unfolding is_named_group_entry gid_line has_prefix
is_named_group_entry-gid_line dflt gid perms h =
    let rest = tail_of gid perms in
    let no_g = tail_without b'g' gid perms refl refl refl h in
    ground (
      arith,
      no_hash dflt rest (tail_without b'#' gid perms refl refl refl h),
      contains_tag dflt rest (codes ":") no_g,
      contains_tag dflt rest [] no_g,
      digits_colon (decimal gid) perms (decimal-ne-nil gid) (decimal-all_digits gid),
    )

names_gid :
    (dflt : Bool) (g h : ℕ) (perms : Bytes)
    → is_perms perms ≡ true
    → g < 2 ^ 64
    → h < 2 ^ 64
    → contains (gid_line (tag_of dflt) g perms) (gid_line group_tag h []) ≡ (g == h)
unfolding gid_line
names_gid dflt g h perms e bg bh =
    contains_tag dflt (tail_of g perms) (tail_of h []) (tail_without b'g' g perms refl refl refl e)
    ∙ has_prefix-colon (decimal g) (decimal h) perms
        (without-digits b':' (decimal g) refl (decimal-all_digits g))
        (without-digits b':' (decimal h) refl (decimal-all_digits h))
    ∙ decimal-beq g h bg bh

any-names_gid :
    (dflt : Bool) (g : ℕ) (perms : Bytes) (gids : List ℕ)
    → is_perms perms ≡ true
    → g < 2 ^ 64
    → All (λ h. h < 2 ^ 64) gids
    → any (λ h. contains (gid_line (tag_of dflt) g perms) (gid_line group_tag h [])) gids
      ≡ any (λ h. g == h) gids
any-names_gid dflt g perms [] e bg bs = refl
any-names_gid dflt g perms (h ∷ gids) e bg (bh, bs) =
    rw (names_gid dflt g h perms e bg bh, any-names_gid dflt g perms gids e bg bs) refl

-- For gids below 2^64: the check ignores a line with a named group, as a normal or as a default
-- entry and with any permissions, exactly if its gid is none of the given ones. That one decimal
-- number is part of another does not matter.
pub is_other_named_group_entry_lem :
    (dflt : Bool) (g : ℕ) (perms : Bytes) (gids : List ℕ)
    → is_perms perms ≡ true
    → g < 2 ^ 64
    → All (λ h. h < 2 ^ 64) gids
    → is_other_named_group_entry (gid_line (tag_of dflt) g perms) gids
      ≡ not (any (λ h. g == h) gids)
unfolding is_other_named_group_entry
is_other_named_group_entry_lem dflt g perms gids e bg bs =
    rw (is_named_group_entry-gid_line dflt g perms e, any-names_gid dflt g perms gids e bg bs) refl
