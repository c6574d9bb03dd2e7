-- ===== src/Sharing/Nesting/Apart.antt =====
-- Paths that lie apart: none is another one, or below it.
use bcpfs.Prelude.{
  ◌≡◌, refl, subst, List, [], ◌∷◌, Bool, true, false, not, ◌||◌, ◌&&◌, arith, Bool-cases, inl, inr,
  any, All,
}
use bcpfs.Prelude.Bytes.{Bytes, beq, beq_iff}
use bcpfs.SlashPath.Names.{IsPlain}
use bcpfs.Sharing.Nesting.Ancestors.{below, below_self}
use bcpfs.Sharing.Nesting.Tree.{mem}

-- One of the two paths lies properly below the other.
abbrev pub nested : Bytes → Bytes → Bool
nested p q = below p q || below q p

-- The same path, or one below the other.
abbrev pub clash : Bytes → Bytes → Bool
clash p q = beq p q || nested p q

-- No two paths of the list, at different places in it, are in the relation.
abbrev pub apart : (Bytes → Bytes → Bool) → List Bytes → Bool
apart c [] = true
apart c (p ∷ ps) = not (any (c p) ps) && apart c ps

pub any-or :
    (f g : Bytes → Bool) (ps : List Bytes) → any (λ q. f q || g q) ps ≡ (any f ps || any g ps)
any-or f g [] = refl
any-or f g (p ∷ ps) = ground (arith, any-or f g ps)

pub any-never : (ps : List Bytes) → any (λ q. false) ps ≡ false
any-never [] = refl
any-never (p ∷ ps) = any-never ps

pub any-same :
    (f g : Bytes → Bool) (ps : List Bytes) → ((q : Bytes) → f q ≡ g q) → any f ps ≡ any g ps
any-same f g [] h = refl
any-same f g (p ∷ ps) h = ground (arith, h p, any-same f g ps h)

pub any-mem :
    (f : Bytes → Bool) (k : Bytes) (ps : List Bytes)
    → any f ps ≡ false
    → mem k ps ≡ true
    → f k ≡ false
any-mem f k [] h m = absurd (cc)
any-mem f k (p ∷ ps) h m = elim (Bool-cases (beq p k)) [
  | inl same ↦ subst (λ t. f t ≡ false) ((beq_iff p k).0 same) (ground arith)
  | inr other ↦ any-mem f k ps (ground arith) (ground arith)
]

-- A test that implies another one, on paths that are made of names.
pub any-plain :
    (f g : Bytes → Bool) (ps : List Bytes)
    → All IsPlain ps
    → ((q : Bytes) → IsPlain q → f q ≡ true → g q ≡ true)
    → any f ps ≡ true
    → any g ps ≡ true
any-plain f g [] plain h a = a
any-plain f g (p ∷ ps) (hp, hps) h a = ground (arith, h p hp, any-plain f g ps hps h)

pub any-below :
    (q : Bytes) (ps : List Bytes) → any (nested q) ps ≡ false → any (λ d. below d q) ps ≡ false
any-below q ps h = ground (arith, any-or (λ d. below q d) (λ d. below d q) ps)

pub nested_comm : (p q : Bytes) → nested p q ≡ nested q p
nested_comm p q = ground arith

-- A path of a list whose paths lie apart is nested with none of them.
pub apart-nested :
    (k : Bytes) (done : List Bytes)
    → All IsPlain done
    → apart nested done ≡ true
    → mem k done ≡ true
    → any (nested k) done ≡ false
apart-nested k [] plain ap_done m = refl
apart-nested k (q ∷ done) (hq, hs) ap_done m = elim (Bool-cases (beq q k)) [
  | inl same ↦
      subst (λ t. any (nested t) (q ∷ done) ≡ false) ((beq_iff q k).0 same)
        (ground (arith, below_self q hq))
  | inr other ↦ ground (arith, apart-nested k done hs, any-mem (nested q) k done, nested_comm k q)
]
