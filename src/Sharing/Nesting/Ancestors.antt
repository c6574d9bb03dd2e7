-- ===== src/Sharing/Nesting/Ancestors.antt =====
-- The proper ancestors of a path that is made of names.
use bcpfs.Prelude.{
  ℕ, zero, suc, ◌-◌, ◌≤◌, ◌<◌, ◌≡◌, ◌≢◌, refl, ap, sym, ◌∙◌, subst, List, [], ◌∷◌, Bool, true,
  false, ◌||◌, length, take, arith, length-take, take-take, All-take, take-append, take-append-drop,
  length-append, length-drop, drop, ◌++◌, ◌↔◌, Bool-cases, inl, inr,
}
use bcpfs.Prelude.Bytes.{Bytes, split, beq, beq_iff, beq_refl, beq-ne}
use bcpfs.SlashPath.{slash, path_join}
use bcpfs.SlashPath.Names.{IsName, IsPlain, split_names, path_join-names, join-split, split-ne-nil}
use bcpfs.Sharing.Nesting.{ancestor}

-- The number of components.
abbrev pub depth : Bytes → ℕ
depth p = length (split p slash)

-- Whether `k` is one of the first `i` ancestors of `p`, from the top.
unfoldable pub is_ancestor : Bytes → ℕ → Bytes → Bool
is_ancestor p zero k = false
is_ancestor p (suc i) k = beq (ancestor p (suc i)) k || is_ancestor p i k

-- Whether `p` lies properly below `k`.
unfoldable pub below : Bytes → Bytes → Bool
below p k = is_ancestor p (depth p - 1) k

take-ne-nil : (i : ℕ) (cs : List Bytes) → suc i ≤ length cs → take (suc i) cs ≢ []
take-ne-nil i [] h = absurd (omega arith)
take-ne-nil i (c ∷ cs) h = λ e. cc e

module _ (p : Bytes) (plain : IsPlain p) where
  pub split-ancestor :
      (i : ℕ) → suc i ≤ depth p → split (ancestor p (suc i)) slash ≡ take (suc i) (split p slash)
  unfolding ancestor
  split-ancestor i h =
      let cs = take (suc i) (split p slash) in
      let some_name = take-ne-nil i (split p slash) h in
      let names = All-take IsName (suc i) (split p slash) plain in
      ap (λ t. split t slash) (path_join-names cs some_name names) ∙ split_names cs some_name names

  pub depth-ancestor : (i : ℕ) → suc i ≤ depth p → depth (ancestor p (suc i)) ≡ suc i
  depth-ancestor i h = omega (
    arith,
    ap (λ (l : List Bytes). length l) (split-ancestor i h),
    length-take (suc i) (split p slash),
  )

  pub ancestor-ancestor :
      (i j : ℕ) → j ≤ suc i → suc i ≤ depth p → ancestor (ancestor p (suc i)) j ≡ ancestor p j
  ancestor-ancestor i j le h =
      unfold ancestor in
      ap path_join (ap (take j) (split-ancestor i h) ∙ take-take j (suc i) (split p slash) le)

  -- Ancestors of different depth differ.
  pub beq-ancestor_ne :
      (i j : ℕ)
      → suc i ≤ depth p
      → suc j ≤ depth p
      → i ≢ j
      → beq (ancestor p (suc i)) (ancestor p (suc j)) ≡ false
  beq-ancestor_ne i j hi hj ne = beq-ne (λ e.
      ne (omega (arith, ap (λ (t : Bytes). depth t) e, depth-ancestor i hi, depth-ancestor j hj)))

  pub beq-ancestor_self : (i : ℕ) → suc i < depth p → beq (ancestor p (suc i)) p ≡ false
  beq-ancestor_self i h =
      beq-ne (λ e. omega (arith, ap (λ (t : Bytes). depth t) e, depth-ancestor i (omega arith)))

-- What is an ancestor is one at its own depth.
pub is_ancestor_at :
    (p : Bytes) (i : ℕ) (k : Bytes)
    → is_ancestor p i k ≡ true
    → (j : ℕ) × (suc j ≤ i) × (ancestor p (suc j) ≡ k)
unfolding is_ancestor
is_ancestor_at p zero k h = absurd (cc)
is_ancestor_at p (suc i) k h = elim (Bool-cases (beq (ancestor p (suc i)) k)) [
  | inl same ↦ (i, omega arith, (beq_iff _ k).0 same)
  | inr other ↦ let (j, le, e) = is_ancestor_at p i k (rw other at h) in (j, omega arith, e)
]

pub at_is_ancestor : (p : Bytes) (i j : ℕ) → suc j ≤ i → is_ancestor p i (ancestor p (suc j)) ≡ true
unfolding is_ancestor
at_is_ancestor p zero j h = absurd (omega arith)
at_is_ancestor p (suc i) j h = elim (Bool-cases (beq (ancestor p (suc i)) (ancestor p (suc j)))) [
  | inl same ↦ rw same
  | inr other ↦ rw other (at_is_ancestor p i j (ground (arith, beq_refl (ancestor p (suc i)))))
]

-- An ancestor of an ancestor is an ancestor: `k` above the ancestor `a` of `p` at depth `suc j`.
pub below-closed :
    (q p : Bytes) (j : ℕ) (k : Bytes)
    → IsPlain q
    → IsPlain p
    → suc j ≤ depth p
    → below q (ancestor p (suc j)) ≡ true
    → is_ancestor p j k ≡ true
    → below q k ≡ true
unfolding below
below-closed q p j k plain_q plain_p hj b above =
    let (m, le, e) = is_ancestor_at q (depth q - 1) (ancestor p (suc j)) b in
    let (n, le', e') = is_ancestor_at p j k above in
    let same : m ≡ j = omega (
      arith,
      ap (λ (t : Bytes). depth t) e,
      depth-ancestor q plain_q m (omega arith),
      depth-ancestor p plain_p j hj,
    ) in
    let same_k : ancestor q (suc n) ≡ k =
      sym (ancestor-ancestor q plain_q m (suc n) (omega arith) (omega arith))
      ∙ ap (λ t. ancestor t (suc n)) e
      ∙ ancestor-ancestor p plain_p j (suc n) (omega arith) hj
      ∙ e' in
    subst (λ t. is_ancestor q (depth q - 1) t ≡ true) same_k
      (at_is_ancestor q (depth q - 1) n (omega arith))

-- A path does not lie below itself.
pub below_self : (p : Bytes) → IsPlain p → below p p ≡ false
unfolding below
below_self p plain = elim (Bool-cases (is_ancestor p (depth p - 1) p)) [
  | inl bad ↦
      let (j, le, e) = is_ancestor_at p (depth p - 1) p bad in
      absurd (omega (arith, ap (λ (t : Bytes). depth t) e, depth-ancestor p plain j (omega arith)))
  | inr good ↦ good
]

split-depth : (p : Bytes) → (m : ℕ) × (depth p ≡ suc m)
split-depth p = at_least (split p slash) (split-ne-nil p slash)
  where
    at_least : (cs : List Bytes) → cs ≢ [] → (m : ℕ) × (length cs ≡ suc m)
    at_least [] h = absurd (h refl)
    at_least (c ∷ cs) h = (length cs, refl)

module _ (p k : Bytes) (plain_p : IsPlain p) (plain_k : IsPlain k) where
  below_sound :
      below p k ≡ true → (rest : List Bytes) × (rest ≢ []) × (split p slash ≡ split k slash ++ rest)
  unfolding below
  below_sound b =
      let (j, le, e) = is_ancestor_at p (depth p - 1) k b in
      let prefix : take (suc j) (split p slash) ≡ split k slash =
        sym (split-ancestor p plain_p j (omega arith)) ∙ ap (λ t. split t slash) e in
      (
        drop (suc j) (split p slash),
        (λ none_left. omega (
          arith,
          length-drop (suc j) (split p slash),
          ap (λ (l : List Bytes). length l) none_left,
        )),
        sym (take-append-drop (suc j) (split p slash))
            ∙ ap (λ l. l ++ drop (suc j) (split p slash)) prefix,
      )

  below_complete :
      (rest : List Bytes) → rest ≢ [] → split p slash ≡ split k slash ++ rest → below p k ≡ true
  unfolding below ancestor
  below_complete [] ne e = absurd (ne refl)
  below_complete (c ∷ rest) ne e =
      let (m, at) = split-depth k in
      let same : ancestor p (suc m) ≡ k =
        ap path_join (
          ap (λ l. take (suc m) l) e
          ∙ ap (λ n. take n (split k slash ++ c ∷ rest)) (sym at)
          ∙ take-append (split k slash) (c ∷ rest))
        ∙ path_join-names (split k slash) (split-ne-nil k slash) plain_k
        ∙ join-split k slash in
      subst (λ t. is_ancestor p (depth p - 1) t ≡ true) same
        (at_is_ancestor p (depth p - 1) m (
          omega
            (arith, ap (λ (l : List Bytes). length l) e, length-append (split k slash) (c ∷ rest))))

-- Of two paths that are made of names, one is among the ancestors that the check marks for the other
-- exactly if its components are a proper prefix of the other's.
pub below_iff :
    (p k : Bytes)
    → IsPlain p
    → IsPlain k
    → (below p k ≡ true)
      ↔ ((rest : List Bytes) × (rest ≢ []) × (split p slash ≡ split k slash ++ rest))
below_iff p k plain_p plain_k =
    (below_sound p k plain_p plain_k, λ (rest, ne, e). below_complete p k plain_p plain_k rest ne e)
