-- ===== src/Sharing/Nesting/Step.antt =====
-- One round of a nesting check: what it answers, and the tree that it leaves.
use bcpfs.Prelude.{
  ℕ, zero, suc, ◌-◌, ◌≤◌, ◌≡◌, ap, sym, ◌∙◌, subst, List, ◌∷◌, true, false, ◌||◌, arith, Bool-cases,
  inl, inr, ◌⊎◌, if◌then◌else◌, any, All, ok, err,
}
use bcpfs.Prelude.Bytes.{Bytes, beq, beq_iff, beq_refl, beq_comm}
use bcpfs.Prelude.Dict
use bcpfs.Prelude.Dict.{Dict}
use bcpfs.SlashPath.Names.{IsPlain}
use bcpfs.Sharing.Nesting.{
  NodeType, unspecified, inner, leaf, NestingError, node_at, ancestor, mark_ancestors,
  duplicate_export, nested_export_prefix, nested_export_suffix, nested_realpath_prefix,
  nested_realpath_suffix, check_export_nesting, check_realpath_nesting,
}
use bcpfs.Sharing.Nesting.Ancestors.{
  depth, is_ancestor, below, beq-ancestor_self, below-closed, below_self, is_ancestor_at,
}
use bcpfs.Sharing.Nesting.Tree.{
  mem, node_of, IsTree, node_at-put, is_leaf, leaf_above, IsClosed, IsMarked, mark_ancestors_lem,
}
use bcpfs.Sharing.Nesting.Apart.{
  nested, clash, apart, any-never, any-or, any-same, any-mem, any-plain, any-below, apart-nested,
}

-- The paths of the tree so far, and a new path.
module _ (p : Bytes) (plain : IsPlain p) {tree : Dict NodeType} {done : List Bytes}
    (is_tree : IsTree tree done) (all_plain : All IsPlain done)
    (done_apart : apart nested done ≡ true) where
  put_tree : Dict NodeType
  put_tree = Dict.put tree p leaf

  node_of-inner : (k : Bytes) → node_of done k ≡ inner → any (λ q. below q k) done ≡ true
  unfolding node_of
  node_of-inner k h = ground arith

  ancestor_ne : (j : ℕ) → suc j ≤ depth p - 1 → beq p (ancestor p (suc j)) ≡ false
  ancestor_ne j h = beq_comm p (ancestor p (suc j)) ∙ beq-ancestor_self p plain j (omega arith)

  above_ne : (j : ℕ) (k : Bytes) → j ≤ depth p - 1 → is_ancestor p j k ≡ true → beq p k ≡ false
  above_ne j k h above =
      let (m, le, e) = is_ancestor_at p j k above in
      subst (λ t. beq p t ≡ false) e (ancestor_ne m (omega arith))

  put_tree-at : (k : Bytes) → node_at put_tree k ≡ (if beq p k then leaf else node_of done k)
  unfolding put_tree
  put_tree-at k = ground (arith, node_at-put tree p leaf k, is_tree.at k)

  put_tree-IsClosed : IsClosed p (depth p - 1) put_tree
  put_tree-IsClosed = record {
    up = λ j k h at_j above.
        let here : any (λ q. below q (ancestor p (suc j))) done ≡ true = ground (
          arith,
          put_tree-at (ancestor p (suc j)),
          ancestor_ne j h,
          node_of-inner (ancestor p (suc j)),
        ) in
        let higher : any (λ q. below q k) done ≡ true =
          any-plain (λ q. below q (ancestor p (suc j))) (λ q. below q k) done all_plain
            (λ q hq b. below-closed q p j k hq plain (omega arith) b above) here in
        unfold node_of in ground (arith, put_tree-at k, above_ne j k (omega arith) above);
  }

  is_leaf-node_of : (k : Bytes) → is_leaf (node_of done k) ≡ mem k done
  unfolding is_leaf node_of
  is_leaf-node_of k = ground (arith, apart-nested k done all_plain done_apart, any-below k done)

  leaf_above-put_tree :
      (i : ℕ) → i ≤ depth p - 1 → leaf_above p i put_tree ≡ any (λ q. is_ancestor p i q) done
  unfolding leaf_above is_ancestor
  leaf_above-put_tree zero h = sym (any-never done)
  leaf_above-put_tree (suc i) h =
      let a = ancestor p (suc i) in
      ground (
        arith,
        ap is_leaf (put_tree-at a),
        ancestor_ne i h,
        is_leaf-node_of a,
        any-or (λ q. beq a q) (λ q. is_ancestor p i q) done,
        any-same (λ q. beq a q) (λ q. beq q a) done (λ q. beq_comm a q),
        leaf_above-put_tree i (omega arith),
      )

  -- The tree after a path that fits.
  marked-IsTree :
      {after : Dict NodeType}
      → any (λ q. below q p) done ≡ false
      → IsMarked p (depth p - 1) put_tree after
      → IsTree after (p ∷ done)
  unfolding node_of below
  marked-IsTree {after} free marked = record {
    at = λ k. elim (Bool-cases (beq p k)) [
      | inl same ↦
          let e = (beq_iff p k).0 same in
          subst (λ t. node_at after t ≡ node_of (p ∷ done) t) e
            (ground (arith, marked.at p, put_tree-at p, beq_refl p, below_self p plain))
      | inr other ↦ ground (arith, marked.at k, put_tree-at k)
    ];
  }

  -- What the body of both checks does for a path that is not in the tree.
  mark_fresh :
      (e : NestingError)
      → any (λ q. below q p) done ≡ false
      → ((any (λ q. below p q) done ≡ true) × (mark_ancestors e p (depth p - 1) put_tree ≡ err e))
        ⊎ ((any (λ q. below p q) done ≡ false)
            × ((after : Dict NodeType) × (mark_ancestors e p (depth p - 1) put_tree ≡ ok after)
                × IsTree after (p ∷ done)))
  unfolding below
  mark_fresh e free =
      elim (mark_ancestors_lem e p plain (depth p - 1) put_tree (omega arith) put_tree-IsClosed) [
        | inl (found, stop) ↦
            inl (sym (leaf_above-put_tree (depth p - 1) (omega arith)) ∙ found, stop)
        | inr (clear, (after, run, marked)) ↦ inr (
          sym (leaf_above-put_tree (depth p - 1) (omega arith)) ∙ clear,
          (after, run, marked-IsTree free marked),
        )
      ]

  clash-parts :
      any (clash p) done ≡ (mem p done || (any (λ q. below p q) done || any (λ q. below q p) done))
  clash-parts = ground (
    arith,
    any-or (λ q. beq p q) (nested p) done,
    any-or (λ q. below p q) (λ q. below q p) done,
    any-same (λ q. beq p q) (λ q. beq q p) done (λ q. beq_comm p q),
  )

  node_at-p :
      node_at tree p
      ≡ (if any (λ q. below q p) done then inner else if mem p done then leaf else unspecified)
  unfolding node_of
  node_at-p = is_tree.at p

  export_fresh :
      any (λ q. below q p) done ≡ false
      → mem p done ≡ false
      → check_export_nesting p tree
        ≡ mark_ancestors (nested_export_suffix p) p (depth p - 1) put_tree
  unfolding check_export_nesting put_tree
  export_fresh hb hm = rw (node_at-p, check_export_nesting, hb, hm)

  -- One round of `checkNoNesting()`.
  pub check_export_nesting_lem :
      ((any (clash p) done ≡ true) × ((e : NestingError) × (check_export_nesting p tree ≡ err e)))
      ⊎ ((any (clash p) done ≡ false)
          × ((after : Dict NodeType) × (check_export_nesting p tree ≡ ok after)
              × IsTree after (p ∷ done)))
  check_export_nesting_lem = elim (Bool-cases (any (λ q. below q p) done)) [
    | inl hb ↦ inl (
      ground (arith, clash-parts),
      (
        nested_export_prefix p,
        unfold check_export_nesting in rw (node_at-p, check_export_nesting, hb),
      ),
    )
    | inr hb ↦ elim (Bool-cases (mem p done)) [
      | inl hm ↦ inl (
        ground (arith, clash-parts),
        (
          duplicate_export p,
          unfold check_export_nesting in rw (node_at-p, check_export_nesting, hb, hm),
        ),
      )
      | inr hm ↦ elim (mark_fresh (nested_export_suffix p) hb) [
        | inl (found, stop) ↦
            inl (ground (arith, clash-parts), (nested_export_suffix p, export_fresh hb hm ∙ stop))
        | inr (clear, (after, run, is)) ↦
            inr (ground (arith, clash-parts), (after, export_fresh hb hm ∙ run, is))
      ]
    ]
  ]

  nested-parts : any (nested p) done ≡ (any (λ q. below p q) done || any (λ q. below q p) done)
  nested-parts = any-or (λ q. below p q) (λ q. below q p) done

  realpath_fresh :
      any (λ q. below q p) done ≡ false
      → mem p done ≡ false
      → check_realpath_nesting p tree
        ≡ mark_ancestors (nested_realpath_suffix p) p (depth p - 1) put_tree
  unfolding check_realpath_nesting put_tree
  realpath_fresh hb hm = rw (node_at-p, check_realpath_nesting, hb, hm)

  -- A path that is in the tree changes nothing.
  again-IsTree : mem p done ≡ true → IsTree tree (p ∷ done)
  unfolding node_of
  again-IsTree m = record {
    at = λ k.
        ground
          (arith, is_tree.at k, any-mem (λ q. below q k) p done, any-mem (λ q. beq q k) p done);
  }

  -- One round of `checkNoRealpathNesting()`.
  pub check_realpath_nesting_lem :
      ((any (nested p) done ≡ true)
        × ((e : NestingError) × (check_realpath_nesting p tree ≡ err e)))
      ⊎ ((any (nested p) done ≡ false)
          × ((after : Dict NodeType) × (check_realpath_nesting p tree ≡ ok after)
              × IsTree after (p ∷ done)))
  check_realpath_nesting_lem = elim (Bool-cases (any (λ q. below q p) done)) [
    | inl hb ↦ inl (
      ground (arith, nested-parts),
      (
        nested_realpath_prefix p,
        unfold check_realpath_nesting in rw (node_at-p, check_realpath_nesting, hb),
      ),
    )
    | inr hb ↦ elim (Bool-cases (mem p done)) [
      | inl hm ↦ inr (
        apart-nested p done all_plain done_apart hm,
        (
          tree,
          unfold check_realpath_nesting in rw (node_at-p, check_realpath_nesting, hb, hm),
          again-IsTree hm,
        ),
      )
      | inr hm ↦ elim (mark_fresh (nested_realpath_suffix p) hb) [
        | inl (found, stop) ↦
            inl (
              ground (arith, nested-parts),
              (nested_realpath_suffix p, realpath_fresh hb hm ∙ stop),
            )
        | inr (clear, (after, run, is)) ↦
            inr (ground (arith, nested-parts), (after, realpath_fresh hb hm ∙ run, is))
      ]
    ]
  ]
