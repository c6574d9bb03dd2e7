-- ===== src/Sharing/Nesting/Tree.antt =====
-- The tree that the nesting checks build, against the list of the paths that went into it.
use bcpfs.Prelude.{
  ℕ, zero, suc, ◌≤◌, ◌≡◌, refl, ◌∙◌, List, Bool, true, false, ◌||◌, arith, inl, inr, ◌⊎◌,
  if◌then◌else◌, any, ok, err,
}
use bcpfs.Prelude.Bytes.{Bytes, beq, beq_iff}
use bcpfs.Prelude.Dict
use bcpfs.Prelude.Dict.{Dict, get-put}
use bcpfs.SlashPath.Names.{IsPlain}
use bcpfs.Sharing.Nesting.{
  NodeType, unspecified, inner, leaf, NestingError, node_at, ancestor, mark_ancestors,
}
use bcpfs.Sharing.Nesting.Ancestors.{depth, is_ancestor, below, beq-ancestor_ne, at_is_ancestor}

abbrev pub mem : Bytes → List Bytes → Bool
mem k done = any (λ q. beq q k) done

-- The node that the paths `done` give to `k`.
unfoldable pub node_of : List Bytes → Bytes → NodeType
node_of done k =
    if any (λ q. below q k) done then inner else if mem k done then leaf else unspecified

pub record IsTree (tree : Dict NodeType) (done : List Bytes) : Type 0 where
  pub at : (k : Bytes) → node_at tree k ≡ node_of done k

pub node_at-put :
    (tree : Dict NodeType) (k : Bytes) (n : NodeType) (j : Bytes)
    → node_at (Dict.put tree k n) j ≡ (if beq k j then n else node_at tree j)
unfolding node_at
node_at-put tree k n j = ground (arith, get-put tree k n j)

unfoldable pub is_leaf : NodeType → Bool
is_leaf leaf = true
is_leaf inner = false
is_leaf unspecified = false

-- Whether one of the first `i` ancestors of `p` is a leaf.
unfoldable pub leaf_above : Bytes → ℕ → Dict NodeType → Bool
leaf_above p zero tree = false
leaf_above p (suc i) tree = is_leaf (node_at tree (ancestor p (suc i))) || leaf_above p i tree

-- Below an inner ancestor, towards the root, all ancestors are inner.
pub record IsClosed (p : Bytes) (i : ℕ) (tree : Dict NodeType) : Type 0 where
  pub up :
      (j : ℕ) (k : Bytes)
      → suc j ≤ i
      → node_at tree (ancestor p (suc j)) ≡ inner
      → is_ancestor p j k ≡ true
      → node_at tree k ≡ inner

leaf_above-inner :
    (p : Bytes) (i : ℕ) (tree : Dict NodeType)
    → ((k : Bytes) → is_ancestor p i k ≡ true → node_at tree k ≡ inner)
    → leaf_above p i tree ≡ false
unfolding leaf_above is_leaf
leaf_above-inner p zero tree h = refl
leaf_above-inner p (suc i) tree h = ground (
  arith,
  h (ancestor p (suc i)) (at_is_ancestor p (suc i) i (omega arith)),
  leaf_above-inner p i tree (λ k a. h k (unfold is_ancestor in ground arith)),
)

-- An inner node in place of an unspecified one makes no leaf and removes none.
leaf_above-put :
    (p : Bytes) (i : ℕ) (a : Bytes) (tree : Dict NodeType)
    → node_at tree a ≡ unspecified
    → leaf_above p i (Dict.put tree a inner) ≡ leaf_above p i tree
unfolding leaf_above is_leaf
leaf_above-put p zero a tree h = refl
leaf_above-put p (suc i) a tree h = ground (
  arith,
  node_at-put tree a inner (ancestor p (suc i)),
  beq_iff a (ancestor p (suc i)),
  leaf_above-put p i a tree h,
)

-- What a successful round of marking leaves at each key.
pub record IsMarked (p : Bytes) (i : ℕ) (before after : Dict NodeType) : Type 0 where
  pub at : (k : Bytes) → node_at after k ≡ (if is_ancestor p i k then inner else node_at before k)

abbrev pub MarkResult : NestingError → Bytes → ℕ → Dict NodeType → Type 0
MarkResult e p i tree =
    ((leaf_above p i tree ≡ true) × (mark_ancestors e p i tree ≡ err e))
    ⊎ ((leaf_above p i tree ≡ false)
        × ((after : Dict NodeType) × (mark_ancestors e p i tree ≡ ok after)
            × IsMarked p i tree after))

node-cases : (n : NodeType) → (n ≡ unspecified) ⊎ ((n ≡ inner) ⊎ (n ≡ leaf))
node-cases unspecified = inl refl
node-cases inner = inr (inl refl)
node-cases leaf = inr (inr refl)

module _ (e : NestingError) (p : Bytes) (plain : IsPlain p) where
  closed-put :
      (i : ℕ) (tree : Dict NodeType)
      → suc i ≤ depth p
      → IsClosed p (suc i) tree
      → IsClosed p i (Dict.put tree (ancestor p (suc i)) inner)
  closed-put i tree hi closed = record {
    up = λ j k hj at_j above. ground (
      arith,
      node_at-put tree (ancestor p (suc i)) inner (ancestor p (suc j)),
      node_at-put tree (ancestor p (suc i)) inner k,
      beq-ancestor_ne p plain i j hi (omega arith) (omega arith),
      closed.up j k (omega arith),
    );
  }

  mark_free :
      (i : ℕ) (tree : Dict NodeType)
      → node_at tree (ancestor p (suc i)) ≡ unspecified
      → mark_ancestors e p (suc i) tree
        ≡ mark_ancestors e p i (Dict.put tree (ancestor p (suc i)) inner)
  unfolding mark_ancestors
  mark_free i tree is = rw (is, mark_ancestors)

  mark_inner :
      (i : ℕ) (tree : Dict NodeType)
      → node_at tree (ancestor p (suc i)) ≡ inner
      → mark_ancestors e p (suc i) tree ≡ ok tree
  unfolding mark_ancestors
  mark_inner i tree is = rw (is, mark_ancestors)

  mark_leaf :
      (i : ℕ) (tree : Dict NodeType)
      → node_at tree (ancestor p (suc i)) ≡ leaf
      → mark_ancestors e p (suc i) tree ≡ err e
  unfolding mark_ancestors
  mark_leaf i tree is = rw (is, mark_ancestors)

  mark_step :
      (i : ℕ) (tree : Dict NodeType)
      → node_at tree (ancestor p (suc i)) ≡ unspecified
      → MarkResult e p i (Dict.put tree (ancestor p (suc i)) inner)
      → MarkResult e p (suc i) tree
  unfolding leaf_above is_leaf
  mark_step i tree free (inl (found, stop)) = inl (
    ground (arith, leaf_above-put p i (ancestor p (suc i)) tree free),
    mark_free i tree free ∙ stop,
  )
  mark_step i tree free (inr (clear, (after, run, marked))) = inr (
    ground (arith, leaf_above-put p i (ancestor p (suc i)) tree free),
    (
      after,
      mark_free i tree free ∙ run,
      record {
        at = λ k.
            unfold is_ancestor in
            ground (arith, marked.at k, node_at-put tree (ancestor p (suc i)) inner k);
      },
    ),
  )

  -- The early return: what the rest of the loop would do is done.
  mark_stop :
      (i : ℕ) (tree : Dict NodeType)
      → node_at tree (ancestor p (suc i)) ≡ inner
      → IsClosed p (suc i) tree
      → MarkResult e p (suc i) tree
  unfolding leaf_above is_leaf is_ancestor
  mark_stop i tree is closed =
      let all_inner = λ (k : Bytes). closed.up i k (omega arith) is in
      inr (
        ground (arith, leaf_above-inner p i tree all_inner),
        (
          tree,
          mark_inner i tree is,
          record { at = λ k. ground (arith, all_inner k, beq_iff (ancestor p (suc i)) k) },
        ),
      )

  -- The loop fails exactly if an ancestor is a leaf; else all ancestors become inner nodes, also
  -- where it stops early.
  pub mark_ancestors_lem :
      (i : ℕ) (tree : Dict NodeType) → i ≤ depth p → IsClosed p i tree → MarkResult e p i tree
  unfolding leaf_above is_leaf is_ancestor mark_ancestors
  mark_ancestors_lem zero tree hi closed = inr (refl, (tree, refl, record { at = λ k. refl }))
  mark_ancestors_lem (suc i) tree hi closed =
      elim (node-cases (node_at tree (ancestor p (suc i)))) [
        | inl is ↦ mark_step i tree is (
            mark_ancestors_lem i (Dict.put tree (ancestor p (suc i)) inner) (omega arith)
              (closed-put i tree hi closed))
        | inr (inl is) ↦ mark_stop i tree is closed
        | inr (inr is) ↦ inl (rw is, mark_leaf i tree is)
      ]
