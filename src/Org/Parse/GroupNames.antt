-- ===== src/Org/Parse/GroupNames.antt =====
-- cmd/bcpfs-perms/bcp/bcp.go: the names that `parseGroupNames()` reads off the Unix groups.
use mathlib.Core.List.{reverse, reverse-append, reverse-reverse}
use bcpfs.Prelude.{
  ◌-◌, ◌≡◌, refl, ap, sym, ◌∙◌, subst, List, [], ◌∷◌, ◌++◌, Bool, true, not, ◌&&◌, any, length,
  take, drop, take-append, length-append, Bool-cases, inl, inr, arith,
}
use bcpfs.Prelude.Bytes.{Bytes, codes, beq, beq_iff, beq_refl, has_prefix, has_suffix}
use bcpfs.Config.{Root}
use bcpfs.Grp.{Group}
use bcpfs.Org.Parse.{
  parse_org_unit_names, parse_service_names, parse_facility_names, parse_group_names,
}

has_prefix-append : (p rest : Bytes) → has_prefix (p ++ rest) p ≡ true
unfolding has_prefix
has_prefix-append [] rest = refl
has_prefix-append (b ∷ p) rest = ground (arith, has_prefix-append p rest)

-- What follows a prefix.
append-drop_prefix : (n p : Bytes) → has_prefix n p ≡ true → p ++ drop (length p) n ≡ n
unfolding has_prefix
append-drop_prefix n [] e = refl
append-drop_prefix [] (b ∷ p) e = absurd (cc)
append-drop_prefix (a ∷ n) (b ∷ p) e = ground (arith, append-drop_prefix n p)

after_prefix : (n p o : Bytes) → (has_prefix n p && beq (drop (length p) n) o) ≡ beq n (p ++ o)
unfolding has_prefix beq
after_prefix n [] o = refl
after_prefix [] (b ∷ p) o = refl
after_prefix (a ∷ n) (b ∷ p) o = ground (arith, after_prefix n p o)

has_suffix-append : (rest p : Bytes) → has_suffix (rest ++ p) p ≡ true
unfolding has_suffix
has_suffix-append rest p = rw (reverse-append rest p) (has_prefix-append (reverse p) (reverse rest))

take_front : (r p : Bytes) → take (length (r ++ p) - length p) (r ++ p) ≡ r
take_front r p =
    let count : length (r ++ p) - length p ≡ length r = omega (arith, length-append r p) in
    rw count (take-append r p)

-- What stands before a suffix.
append-take_suffix : (n p : Bytes) → has_suffix n p ≡ true → take (length n - length p) n ++ p ≡ n
unfolding has_suffix
append-take_suffix n p e =
    let r = reverse (drop (length (reverse p)) (reverse n)) in
    let parts : r ++ p ≡ n =
      ap (λ q. r ++ q) (sym (reverse-reverse p))
      ∙ sym (reverse-append (reverse p) (drop (length (reverse p)) (reverse n)))
      ∙ ap reverse (append-drop_prefix (reverse n) (reverse p) e)
      ∙ reverse-reverse n in
    subst (λ t. take (length t - length p) t ++ p ≡ t) parts (ap (λ t. t ++ p) (take_front r p))

before_suffix :
    (n p o : Bytes) → (has_suffix n p && beq (take (length n - length p) n) o) ≡ beq n (o ++ p)
before_suffix n p o = elim (Bool-cases (beq n (o ++ p))) [
  | inl same ↦
      let e : n ≡ o ++ p = (beq_iff n (o ++ p)).0 same in
      subst (λ t. (has_suffix t p && beq (take (length t - length p) t) o) ≡ beq t (o ++ p)) (sym e)
        (rw (has_suffix-append o p, take_front o p, beq_refl o, beq_refl (o ++ p)) refl)
  | inr other ↦ elim (Bool-cases (has_suffix n p)) [
    | inr off ↦ rw (off, other) refl
    | inl ends ↦ elim (Bool-cases (beq (take (length n - length p) n) o)) [
      | inr differs ↦ ground arith
      | inl front ↦
          let at : take (length n - length p) n ≡ o = (beq_iff _ o).0 front in
          let all_of : n ≡ o ++ p = sym (append-take_suffix n p ends) ∙ ap (λ t. t ++ p) at in
          absurd (ground (arith, (beq_iff n (o ++ p)).1 all_of))
    ]
  ]
]

-- A group of that name is in the list.
abbrev pub group_exists : List Group → Bytes → Bool
group_exists gs name = any (λ g. beq g.name name) gs

abbrev pub has_name : List Bytes → Bytes → Bool
has_name names x = any (λ n. beq n x) names

module _ (cfg : Root) where
  org_unit_names_exact :
      (gs : List Group) (x : Bytes)
      → has_name (parse_org_unit_names gs cfg) x
        ≡ group_exists gs ((cfg.org_unit_prefix ++ codes "_") ++ x)
  unfolding parse_org_unit_names
  org_unit_names_exact [] x = refl
  org_unit_names_exact (g ∷ gs) x =
      ground
        (arith, org_unit_names_exact gs x, after_prefix g.name (cfg.org_unit_prefix ++ codes "_") x)

  named_suffix :
      (name other suf : Bytes)
      → (beq name other && not (has_suffix name suf))
        ≡ (beq name other && not (has_suffix other suf))
  named_suffix name other suf = elim (Bool-cases (beq name other)) [
    | inl same ↦ ap (λ t. beq name other && not (has_suffix t suf)) ((beq_iff name other).0 same)
    | inr differs ↦ rw differs refl
  ]

  service_names_exact :
      (gs : List Group) (x : Bytes)
      → has_name (parse_service_names gs cfg) x ≡ (
          group_exists gs ((cfg.service_prefix ++ codes "_") ++ x)
          && not
              (has_suffix ((cfg.service_prefix ++ codes "_") ++ x) (codes "-" ++ cfg.ops_suffix)))
  unfolding parse_service_names
  service_names_exact [] x = refl
  service_names_exact (g ∷ gs) x = ground (
    arith,
    service_names_exact gs x,
    after_prefix g.name (cfg.service_prefix ++ codes "_") x,
    named_suffix g.name ((cfg.service_prefix ++ codes "_") ++ x) (codes "-" ++ cfg.ops_suffix),
  )

  facility_names_exact :
      (gs : List Group) (x : Bytes)
      → has_name (parse_facility_names gs cfg) x
        ≡ group_exists gs
            ((cfg.org_unit_prefix ++ codes "_") ++ (x ++ (codes "-" ++ cfg.facility_suffix)))
  unfolding parse_facility_names
  facility_names_exact [] x = refl
  facility_names_exact (g ∷ gs) x =
      let pfx = cfg.org_unit_prefix ++ codes "_" in
      let suf = codes "-" ++ cfg.facility_suffix in
      ground (
        arith,
        facility_names_exact gs x,
        after_prefix g.name pfx (x ++ suf),
        before_suffix (drop (length pfx) g.name) suf x,
      )

-- The names of the org units, services and facilities are read off the groups: `x` is an org unit
-- if and only if there is a group `<org unit prefix>_<x>`, a service if and only if there is a group
-- `<service prefix>_<x>` that does not end in `-<ops suffix>`, and a facility if and only if there
-- is a group `<org unit prefix>_<x>-<facility suffix>`.
pub parse_group_names_exact :
    (gs : List Group) (cfg : Root) (x : Bytes)
    → (has_name (parse_group_names gs cfg).org_units x
        ≡ group_exists gs ((cfg.org_unit_prefix ++ codes "_") ++ x))
      × (has_name (parse_group_names gs cfg).services x ≡ (
          group_exists gs ((cfg.service_prefix ++ codes "_") ++ x)
          && not
              (has_suffix ((cfg.service_prefix ++ codes "_") ++ x) (codes "-" ++ cfg.ops_suffix))))
      × (has_name (parse_group_names gs cfg).facilities x
          ≡ group_exists gs
              ((cfg.org_unit_prefix ++ codes "_") ++ (x ++ (codes "-" ++ cfg.facility_suffix))))
unfolding parse_group_names
parse_group_names_exact gs cfg x =
    (org_unit_names_exact cfg gs x, service_names_exact cfg gs x, facility_names_exact cfg gs x)
