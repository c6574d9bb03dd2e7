-- ===== src/Fsck/Own.antt =====
-- cmd/bcpfs-perms/fsck/acl.go: the check keeps the lines of the ACLs that it expects.
use Prim.Native.Nat.{◌<◌}
use bcpfs.Prelude.{
  ℕ, ◌^◌, ◌≡◌, refl, ◌∙◌, subst, List, [], ◌∷◌, ◌++◌, Bool, true, false, not, ◌&&◌, ◌==◌, leb, any,
  all, All, inl, inr, Bool-cases, arith, ok, ok-injective,
}
use bcpfs.Prelude.Bytes.{Bytes, codes, has_prefix, contains, Lacks}
use bcpfs.Prelude.Decimal.{decimal, decimal-all_digits}
use bcpfs.Org.{
  access_unspecified, access_per_service, access_all_org_units, is_per_service, is_all_org_units,
}
use bcpfs.Fsck.{
  Acl, simple, service, service_org_unit, org_unit, subdir_group, subdir_owner, subdir_manager,
  named_gids,
}
use bcpfs.Fsck.Text.{
  newline, gid_line, header, sgid_header, first_gid, second_gid, one_group, two_groups, rwx, rx,
  acl_header, acl_entries, is_named_group_entry, is_other_named_group_entry,
}
use bcpfs.Fsck.Foreign.{
  is_perms, without, without-append, without-digits, tag_of, tail_of, tail_without,
  is_other_named_group_entry_lem,
}

-- A line that the check of the ACL looks at.
abbrev pub own : List ℕ → Bytes → Bool
own gids l = not (is_other_named_group_entry l gids) && without newline l

-- The permissions of the ACLs that name a group.
abbrev perms_of : Bool → Bytes
perms_of true = rwx
perms_of false = rx

perms_of_lem : (b : Bool) → is_perms (perms_of b) ≡ true
perms_of_lem true = refl
perms_of_lem false = refl

tag_without : (dflt : Bool) → without newline (tag_of dflt) ≡ true
tag_without true = refl
tag_without false = refl

pub gid_line-without :
    (dflt : Bool) (g : ℕ) (perms : Bytes)
    → is_perms perms ≡ true
    → without newline (gid_line (tag_of dflt) g perms) ≡ true
unfolding gid_line
gid_line-without dflt g perms h =
    without-append newline (tag_of dflt) (tail_of g perms)
    ∙ rw (tag_without dflt, tail_without newline g perms refl refl refl h) refl

pub without-Lacks : (s : Bytes) → without newline s ≡ true → Lacks newline s
without-Lacks [] h = tt
without-Lacks (c ∷ s) h = (ground arith, without-Lacks s (ground arith))

own_line :
    (dflt : Bool) (g : ℕ) (b : Bool) (gids : List ℕ)
    → g < 2 ^ 64
    → All (λ h. h < 2 ^ 64) gids
    → any (λ h. g == h) gids ≡ true
    → own gids (gid_line (tag_of dflt) g (perms_of b)) ≡ true
own_line dflt g b gids bg bs mem =
    rw
      (
        is_other_named_group_entry_lem dflt g (perms_of b) gids (perms_of_lem b) bg bs,
        mem,
        gid_line-without dflt g (perms_of b) (perms_of_lem b),
      )
      refl

own-one_group :
    (g : ℕ) (b d : Bool) (gids : List ℕ)
    → g < 2 ^ 64
    → All (λ h. h < 2 ^ 64) gids
    → any (λ h. g == h) gids ≡ true
    → all (own gids) (one_group g (perms_of b) (perms_of d)) ≡ true
unfolding is_other_named_group_entry is_named_group_entry contains has_prefix
own-one_group g true true gids bg bs mem =
    ground (arith, own_line false g true gids bg bs mem, own_line true g true gids bg bs mem)
own-one_group g true false gids bg bs mem =
    ground (arith, own_line false g true gids bg bs mem, own_line true g false gids bg bs mem)
own-one_group g false true gids bg bs mem =
    ground (arith, own_line false g false gids bg bs mem, own_line true g true gids bg bs mem)
own-one_group g false false gids bg bs mem =
    ground (arith, own_line false g false gids bg bs mem, own_line true g false gids bg bs mem)

own-two_groups :
    (g h : ℕ) (b : Bool) (gids : List ℕ)
    → g < 2 ^ 64
    → h < 2 ^ 64
    → All (λ k. k < 2 ^ 64) gids
    → any (λ k. g == k) gids ≡ true
    → any (λ k. h == k) gids ≡ true
    → all (own gids) (two_groups g h (perms_of b)) ≡ true
unfolding is_other_named_group_entry is_named_group_entry contains has_prefix
own-two_groups g h true gids bg bh bs mg mh = ground (
  arith,
  own_line false g true gids bg bs mg,
  own_line true g true gids bg bs mg,
  own_line false h true gids bh bs mh,
  own_line true h true gids bh bs mh,
)
own-two_groups g h false gids bg bh bs mg mh = ground (
  arith,
  own_line false g false gids bg bs mg,
  own_line true g false gids bg bs mg,
  own_line false h false gids bh bs mh,
  own_line true h false gids bh bs mh,
)

own_sorted :
    (g h : ℕ) (b : Bool) (gids : List ℕ)
    → g < 2 ^ 64
    → h < 2 ^ 64
    → All (λ k. k < 2 ^ 64) gids
    → any (λ k. g == k) gids ≡ true
    → any (λ k. h == k) gids ≡ true
    → all (own gids) (two_groups (first_gid g h) (second_gid g h) (perms_of b)) ≡ true
unfolding first_gid second_gid
own_sorted g h b gids bg bh bs mg mh = elim (Bool-cases (leb g h)) [
  | inl e ↦ rw e (own-two_groups g h b gids bg bh bs mg mh)
  | inr e ↦ rw e (own-two_groups h g b gids bh bg bs mh mg)
]

own-header :
    (g : ℕ) (gids : List ℕ)
    → (all (own gids) (header g) ≡ true) × (all (own gids) (sgid_header g) ≡ true)
unfolding header sgid_header is_other_named_group_entry is_named_group_entry contains has_prefix
own-header g gids =
    let clean : without newline (codes "# group: " ++ decimal g) ≡ true =
      without-append newline (codes "# group: ") (decimal g)
      ∙ without-digits newline (decimal g) refl (decimal-all_digits g) in
    (ground arith, ground arith)

own_toplevel :
    all (own []) ((codes "user::" ++ rwx) ∷ (codes "group::" ++ rx) ∷ (codes "other::" ++ rx) ∷ [])
    ≡ true
unfolding is_other_named_group_entry is_named_group_entry contains has_prefix
own_toplevel = refl

-- The ACLs that CheckPermissions() expects: the gids are those of Unix groups, and the simple ACL is
-- that of the toplevel directories.
abbrev pub IsExpected : Acl → Type 0
IsExpected (simple user group other) = (user ≡ rwx) × (group ≡ rx) × (other ≡ rx)
IsExpected (service gid ops_gid super_gid access) =
    All (λ k. k < 2 ^ 64) (gid ∷ ops_gid ∷ super_gid ∷ [])
IsExpected (service_org_unit ou_gid ops_gid srv_gid super_gid) =
    All (λ k. k < 2 ^ 64) (ou_gid ∷ srv_gid ∷ ops_gid ∷ super_gid ∷ [])
IsExpected (org_unit gid) = gid < 2 ^ 64
IsExpected (subdir_group gid) = gid < 2 ^ 64
IsExpected (subdir_owner gid) = gid < 2 ^ 64
IsExpected (subdir_manager gid) = gid < 2 ^ 64

pub own_acl :
    {E : Type 0} (acl : Acl) (entries : List Bytes)
    → IsExpected acl
    → acl_entries {E = E} acl ≡ ok entries
    → (all (own (named_gids acl)) (acl_header acl) ≡ true)
      × (all (own (named_gids acl)) entries ≡ true)
unfolding acl_header acl_entries named_gids is_per_service is_all_org_units
own_acl (simple user group other) entries (eu, eg, eo) e = (
  (own-header 0 []).0,
  subst (λ l. all (own []) l ≡ true) (ok-injective e) (rw (eu, eg, eo) own_toplevel),
)
own_acl (service gid ops_gid super_gid access_per_service) entries (b1, (b2, (b3, _))) e = (
  (own-header gid _).0,
  subst (λ l. all (own (gid ∷ ops_gid ∷ super_gid ∷ [])) l ≡ true) (ok-injective e)
      (own_sorted gid ops_gid false _ b1 b2 (b1, (b2, (b3, tt))) (ground arith) (ground arith)),
)
own_acl (service gid ops_gid super_gid access_all_org_units) entries (b1, (b2, (b3, _))) e = (
  (own-header gid _).0,
  subst (λ l. all (own (gid ∷ ops_gid ∷ super_gid ∷ [])) l ≡ true) (ok-injective e)
      (own-one_group super_gid false false _ b3 (b1, (b2, (b3, tt))) (ground arith)),
)
own_acl (service gid ops_gid super_gid access_unspecified) entries h e = cc
own_acl (service_org_unit ou_gid ops_gid srv_gid super_gid) entries (b1, (b2, (b3, (b4, _)))) e = (
  (own-header ou_gid _).1,
  subst (λ l. all (own (ou_gid ∷ srv_gid ∷ ops_gid ∷ super_gid ∷ [])) l ≡ true) (ok-injective e)
      (own_sorted ou_gid ops_gid true _ b1 b3 (b1, (b2, (b3, (b4, tt)))) (ground arith)
        (ground arith)),
)
own_acl (org_unit gid) entries h e = (
  (own-header gid _).1,
  subst (λ l. all (own (gid ∷ [])) l ≡ true) (ok-injective e)
      (own-one_group gid false false _ h (h, tt) (ground arith)),
)
own_acl (subdir_group gid) entries h e = (
  (own-header gid _).1,
  subst (λ l. all (own (gid ∷ [])) l ≡ true) (ok-injective e)
      (own-one_group gid true true _ h (h, tt) (ground arith)),
)
own_acl (subdir_owner gid) entries h e = (
  (own-header gid _).1,
  subst (λ l. all (own (gid ∷ [])) l ≡ true) (ok-injective e)
      (own-one_group gid true false _ h (h, tt) (ground arith)),
)
own_acl (subdir_manager gid) entries h e = (
  (own-header gid _).1,
  subst (λ l. all (own (gid ∷ [])) l ≡ true) (ok-injective e)
      (own-one_group gid false false _ h (h, tt) (ground arith)),
)
