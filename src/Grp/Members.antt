-- ===== src/Grp/Members.antt =====
-- Lists of groups: members, and the groups that the maps of the deduplication find.
use bcpfs.Prelude.{
  ℕ, ◌≡◌, refl, ap, sym, ◌∙◌, subst, List, [], ◌∷◌, Bool, true, false, not, ◌||◌, ◌&&◌, ◌==◌, any,
  Option, none, some, if◌then◌else◌, Bool-cases, inl, inr, arith,
}
use bcpfs.Prelude.Bytes.{Bytes, beq, beq_iff, beq_refl, beq_comm}
use bcpfs.Grp.{Group, same}

-- The groups have the same name or the same gid.
abbrev pub share : Group → Group → Bool
share g h = beq g.name h.name || g.gid == h.gid

-- They share the one, and are not the same group.
abbrev pub conflict : Group → Group → Bool
conflict g h = share g h && not (same g h)

abbrev pub mem : Group → List Group → Bool
mem g gs = any (same g) gs

pub same_iff : (g h : Group) → same g h ≡ true → g ≡ h
unfolding same
same_iff g h e = ground (arith, beq_iff g.name h.name)

pub same_refl : (g : Group) → same g g ≡ true
unfolding same
same_refl g = ground (arith, beq_refl g.name)

pub same_comm : (g h : Group) → same g h ≡ same h g
unfolding same
same_comm g h = ground (arith, beq_comm g.name h.name)

pub share_comm : (g h : Group) → share g h ≡ share h g
share_comm g h = ground (arith, beq_comm g.name h.name)

pub conflict_comm : (g h : Group) → conflict g h ≡ conflict h g
conflict_comm g h = ground (arith, share_comm g h, same_comm g h)

pub share-same : (g h : Group) → same g h ≡ true → share g h ≡ true
unfolding same
share-same g h e = ground arith

pub any-mem :
    (f : Group → Bool) (h : Group) (gs : List Group)
    → f h ≡ true
    → mem h gs ≡ true
    → any f gs ≡ true
any-mem f h [] e m = m
any-mem f h (g ∷ gs) e m = elim (Bool-cases (same h g)) [
  | inl at ↦ rw (sym (same_iff h g at), e) refl
  | inr off ↦ ground (arith, any-mem f h gs)
]

pub any-witness :
    (f : Group → Bool) (gs : List Group)
    → any f gs ≡ true
    → (h : Group) × (f h ≡ true) × (mem h gs ≡ true)
any-witness f [] e = absurd (cc)
any-witness f (g ∷ gs) e = elim (Bool-cases (f g)) [
  | inl here ↦ (g, here, ground (arith, same_refl g))
  | inr not_here ↦ let (h, fh, m) = any-witness f gs (ground arith) in (h, fh, ground arith)
]

-- No two members share a name or a gid.
abbrev pub unique : List Group → Bool
unique [] = true
unique (g ∷ gs) = not (any (share g) gs) && unique gs

pub unique-same :
    (gs : List Group) (a b : Group)
    → unique gs ≡ true
    → mem a gs ≡ true
    → mem b gs ≡ true
    → share a b ≡ true
    → same a b ≡ true
unique-same [] a b u ma mb s = absurd (cc)
unique-same (g ∷ gs) a b u ma mb s = elim (Bool-cases (same a g)) [
  | inl a_here ↦
      let ea = same_iff a g a_here in
      elim (Bool-cases (same b g)) [
        | inl b_here ↦ subst (λ t. same a t ≡ true) (ea ∙ sym (same_iff b g b_here)) (same_refl a)
        | inr b_later ↦
            absurd (ground (arith, any-mem (share a) b gs s, ap (λ t. any (share t) gs) ea))
      ]
  | inr a_later ↦ elim (Bool-cases (same b g)) [
    | inl b_here ↦ absurd (
        ground (
          arith,
          any-mem (share b) a gs,
          share_comm a b,
          ap (λ t. any (share t) gs) (same_iff b g b_here),
        ))
    | inr b_later ↦ unique-same gs a b (ground arith) (ground arith) (ground arith) s
  ]
]

abbrev pub find_name : List Group → Bytes → Option Group
find_name [] n = none
find_name (h ∷ gs) n = if beq h.name n then some h else find_name gs n

abbrev pub find_gid : List Group → ℕ → Option Group
find_gid [] k = none
find_gid (h ∷ gs) k = if h.gid == k then some h else find_gid gs k

pub find_name-some :
    (gs : List Group) (n : Bytes) (h : Group)
    → find_name gs n ≡ some h
    → (beq h.name n ≡ true) × (mem h gs ≡ true)
find_name-some [] n h e = absurd (cc)
find_name-some (g ∷ gs) n h e = elim (Bool-cases (beq g.name n)) [
  | inl here ↦
      let at : g ≡ h = ground arith in
      (
        subst (λ t. beq t.name n ≡ true) at here,
        subst (λ t. mem t (g ∷ gs) ≡ true) at (ground (arith, same_refl g)),
      )
  | inr off ↦ let (named, m) = find_name-some gs n h (ground arith) in (named, ground arith)
]

pub find_name-none :
    (gs : List Group) (n : Bytes) → find_name gs n ≡ none → any (λ h. beq h.name n) gs ≡ false
find_name-none [] n e = refl
find_name-none (g ∷ gs) n e = ground (arith, find_name-none gs n)

pub find_gid-some :
    (gs : List Group) (k : ℕ) (h : Group)
    → find_gid gs k ≡ some h
    → ((h.gid == k) ≡ true) × (mem h gs ≡ true)
find_gid-some [] k h e = absurd (cc)
find_gid-some (g ∷ gs) k h e = elim (Bool-cases (g.gid == k)) [
  | inl here ↦
      let at : g ≡ h = ground arith in
      (
        subst (λ t. (t.gid == k) ≡ true) at here,
        subst (λ t. mem t (g ∷ gs) ≡ true) at (ground (arith, same_refl g)),
      )
  | inr off ↦ let (numbered, m) = find_gid-some gs k h (ground arith) in (numbered, ground arith)
]

pub find_gid-none :
    (gs : List Group) (k : ℕ) → find_gid gs k ≡ none → any (λ h. h.gid == k) gs ≡ false
find_gid-none [] k e = refl
find_gid-none (g ∷ gs) k e = ground (arith, find_gid-none gs k)

pub any-share :
    (g : Group) (gs : List Group)
    → any (λ h. beq h.name g.name) gs ≡ false
    → any (λ h. h.gid == g.gid) gs ≡ false
    → any (share g) gs ≡ false
any-share g [] hn hg = refl
any-share g (h ∷ gs) hn hg = ground (arith, any-share g gs, beq_comm g.name h.name)
