-- ===== src/Grp/Dedup.antt =====
-- cmd/bcpfs-perms/grp/grp.go: what deduplication keeps, and when it fails.
use bcpfs.Prelude.{
  ℕ, ◌≡◌, refl, sym, ◌∙◌, subst, List, [], ◌∷◌, Bool, true, false, not, ◌&&◌, any, all, none, some,
  if◌then◌else◌, Outcome, ok, err, Bool-cases, Option-cases, ◌⊎◌, inl, inr, arith,
}
use bcpfs.Prelude.Bytes.{Bytes, beq_comm}
use bcpfs.Prelude.Dict
use bcpfs.Prelude.Dict.{Dict, get-put}
use bcpfs.Grp.{
  Group, Error, conflicting, same, GidMap, gid_get, check_seen, is_duplicate, dedup, dedup_groups,
}
use bcpfs.Grp.Members.{
  share, conflict, mem, same_iff, conflict_comm, share-same, any-mem, any-witness, unique,
  unique-same, find_name, find_gid, find_name-some, find_name-none, find_gid-some, find_gid-none,
  any-share,
}

-- No two groups of the list conflict.
abbrev pub consistent : List Group → Bool
consistent [] = true
consistent (g ∷ gs) = not (any (conflict g) gs) && consistent gs

-- The groups without those that were there before, in order.
abbrev pub firsts : List Group → List Group → List Group
firsts done [] = []
firsts done (g ∷ gs) =
    let skip = firsts done gs in
    let keep = g ∷ firsts (g ∷ done) gs in if mem g done then skip else keep

-- The maps find the groups `done`, of which no two share a name or a gid.
record IsSeen (by_name : Dict Group) (by_gid : GidMap) (done : List Group) : Type 0 where
  names : (n : Bytes) → Dict.get by_name n ≡ find_name done n
  gids : (k : ℕ) → gid_get by_gid k ≡ find_gid done k
  apart : unique done ≡ true

-- A group with a member of its own keys conflicts with nothing there.
no_conflict :
    (g h : Group) (done : List Group)
    → unique done ≡ true
    → same g h ≡ true
    → mem h done ≡ true
    → any (conflict g) done ≡ false
no_conflict g h done u at m = elim (Bool-cases (any (conflict g) done)) [
  | inr none_clash ↦ none_clash
  | inl clash ↦
      let (w, cw, mw) = any-witness (conflict g) done clash in
      let e = same_iff g h at in
      let sw : same h w ≡ true =
        unique-same done h w u m mw (subst (λ t. share t w ≡ true) e (ground arith)) in
      absurd (ground (arith, subst (λ t. same t w ≡ true) (sym e) sw))
]

no_share-conflict :
    (g : Group) (done : List Group)
    → any (share g) done ≡ false
    → (any (conflict g) done ≡ false) × (mem g done ≡ false)
no_share-conflict g [] e = (refl, refl)
no_share-conflict g (h ∷ done) e =
    let (c, m) = no_share-conflict g done (ground arith) in
    (ground arith, ground (arith, share-same g h))

module _ (g : Group) {by_name : Dict Group} {by_gid : GidMap} {done : List Group}
    (seen : IsSeen by_name by_gid done) where
  duplicate_by_name :
      (h : Group)
      → find_name done g.name ≡ some h
      → is_duplicate by_name by_gid g ≡ (if same g h then ok true else err (conflicting h g))
  unfolding is_duplicate check_seen
  duplicate_by_name h e = rw (seen.names g.name ∙ e, is_duplicate) refl

  duplicate_by_gid :
      (h : Group)
      → find_name done g.name ≡ none
      → find_gid done g.gid ≡ some h
      → is_duplicate by_name by_gid g ≡ (if same g h then ok true else err (conflicting h g))
  unfolding is_duplicate check_seen
  duplicate_by_gid h e e' =
      rw (seen.names g.name ∙ e, is_duplicate) (rw (seen.gids g.gid ∙ e') refl)

  not_duplicate :
      find_name done g.name ≡ none
      → find_gid done g.gid ≡ none
      → is_duplicate by_name by_gid g ≡ ok false
  unfolding is_duplicate check_seen
  not_duplicate e e' = rw (seen.names g.name ∙ e, is_duplicate) (rw (seen.gids g.gid ∙ e') refl)

  -- A member that shares a key with `g` decides.
  by_member :
      (h : Group)
      → share g h ≡ true
      → mem h done ≡ true
      → is_duplicate by_name by_gid g ≡ (if same g h then ok true else err (conflicting h g))
      → ((any (conflict g) done ≡ true) × ((e : Error) × (is_duplicate by_name by_gid g ≡ err e)))
        ⊎ ((any (conflict g) done ≡ false) × (is_duplicate by_name by_gid g ≡ ok (mem g done)))
  by_member h s m run = elim (Bool-cases (same g h)) [
    | inl at ↦
        inr (no_conflict g h done seen.apart at m, run ∙ rw (at, any-mem (same g) h done at m) refl)
    | inr off ↦
        inl (any-mem (conflict g) h done (ground arith) m, (conflicting h g, run ∙ rw off refl))
  ]

  is_duplicate_lem :
      ((any (conflict g) done ≡ true) × ((e : Error) × (is_duplicate by_name by_gid g ≡ err e)))
      ⊎ ((any (conflict g) done ≡ false) × (is_duplicate by_name by_gid g ≡ ok (mem g done)))
  is_duplicate_lem = elim (Option-cases (find_name done g.name)) [
    | inr (h, e) ↦
        let (named, m) = find_name-some done g.name h e in
        by_member h (ground (arith, beq_comm g.name h.name)) m (duplicate_by_name h e)
    | inl e ↦ elim (Option-cases (find_gid done g.gid)) [
      | inr (h, e') ↦
          let (numbered, m) = find_gid-some done g.gid h e' in
          by_member h (ground arith) m (duplicate_by_gid h e e')
      | inl e' ↦
          let (c, m) =
            no_share-conflict g done
              (any-share g done (find_name-none done g.name e) (find_gid-none done g.gid e')) in
          inr (c, not_duplicate e e' ∙ rw m refl)
    ]
  ]

-- A new group joins the maps.
IsSeen-put :
    (g : Group) {by_name : Dict Group} {by_gid : GidMap} {done : List Group}
    → IsSeen by_name by_gid done
    → any (share g) done ≡ false
    → IsSeen (Dict.put by_name g.name g) ((g.gid, g) ∷ by_gid) (g ∷ done)
unfolding gid_get
IsSeen-put g {by_name} {by_gid} {done} seen new = record {
  names = λ n. get-put by_name g.name g n ∙ rw (seen.names n) refl;
  gids = λ k. rw (seen.gids k) refl;
  apart = ground (arith, seen.apart);
}

share_split :
    (g : Group) (done : List Group)
    → any (conflict g) done ≡ false
    → mem g done ≡ false
    → any (share g) done ≡ false
share_split g [] c m = refl
share_split g (h ∷ done) c m = ground (arith, share_split g done)

-- No group of `gs` conflicts with one of `done`.
abbrev clear : List Group → List Group → Bool
clear done gs = all (λ x. not (any (conflict x) done)) gs

clear_cons :
    (g : Group) (done gs : List Group)
    → clear (g ∷ done) gs ≡ (not (any (conflict g) gs) && clear done gs)
clear_cons g done [] = refl
clear_cons g done (x ∷ gs) = ground (arith, clear_cons g done gs, conflict_comm x g)

clear-mem :
    (g : Group) (done gs : List Group)
    → mem g done ≡ true
    → clear done gs ≡ true
    → any (conflict g) gs ≡ false
clear-mem g done [] m e = refl
clear-mem g done (x ∷ gs) m e = elim (Bool-cases (conflict x g)) [
  | inl clash ↦ absurd (ground (arith, any-mem (conflict x) g done clash m))
  | inr apart ↦ ground (arith, clear-mem g done gs m, conflict_comm x g)
]

abbrev Decides : List Group → List Group → Outcome Error (List Group) → Type 0
Decides done gs r =
    (((clear done gs && consistent gs) ≡ true) × (r ≡ ok (firsts done gs)))
    ⊎ (((clear done gs && consistent gs) ≡ false) × ((e : Error) × (r ≡ err e)))

dedup_lem :
    (gs : List Group) {by_name : Dict Group} {by_gid : GidMap} {done : List Group}
    → IsSeen by_name by_gid done
    → Decides done gs (dedup gs by_name by_gid)
unfolding dedup
dedup_lem [] seen = inl (refl, refl)
dedup_lem (g ∷ gs) {by_name} {by_gid} {done} seen = elim (is_duplicate_lem g seen) [
  | inl (clash, (e, at)) ↦ inr (ground arith, (e, rw at refl))
  | inr (clear_g, at) ↦ elim (Bool-cases (mem g done)) [
    | inl there ↦ elim (dedup_lem gs seen) [
      | inl (good, run) ↦ inl (ground (arith, clear-mem g done gs there), rw (at, there) run)
      | inr (bad, (e, run)) ↦ inr (ground arith, (e, rw (at, there) run))
    ]
    | inr new ↦ elim (dedup_lem gs (IsSeen-put g seen (share_split g done clear_g new))) [
      | inl (good, run) ↦ inl (ground (arith, clear_cons g done gs), rw (at, new, run) refl)
      | inr (bad, (e, run)) ↦
          inr (ground (arith, clear_cons g done gs), (e, rw (at, new, run) refl))
    ]
  ]
]

clear_nil : (gs : List Group) → clear [] gs ≡ true
clear_nil [] = refl
clear_nil (g ∷ gs) = clear_nil gs

-- DedupGroups() succeeds if no two groups of the list share a name or a gid and differ in the
-- other, and then returns the groups in order, each at its first place only; else it returns an
-- error.
pub dedup_groups_exact :
    (gs : List Group)
    → ((consistent gs ≡ true) × (dedup_groups gs ≡ ok (firsts [] gs)))
      ⊎ ((consistent gs ≡ false) × ((e : Error) × (dedup_groups gs ≡ err e)))
unfolding dedup_groups gid_get Dict.get
dedup_groups_exact gs =
    let start : IsSeen [] [] [] = record { names = λ n. refl; gids = λ k. refl; apart = refl } in
    elim (dedup_lem gs start) [
      | inl (good, run) ↦ inl (ground (arith, clear_nil gs), run)
      | inr (bad, run) ↦ inr (ground (arith, clear_nil gs), run)
    ]
