-- ===== src/Apply/Traversal/Missing.antt =====
-- cmd/bcpfs-perms/bcpsharingapply/traversal.go: which paths get an entry for which group.
use bcpfs.Prelude.{
  ◌≡◌, refl, ap, sym, ◌∙◌, List, [], ◌∷◌, ◌++◌, Bool, true, false, not, ◌&&◌, ◌||◌, any, any-append,
  Bool-cases, inl, inr, Option, none, some, Option-cases, arith, or_assoc,
}
use bcpfs.Prelude.Bytes.{Bytes, codes, beq, beq_iff}
use bcpfs.Prelude.Dict
use bcpfs.Prelude.Dict.{Dict, get-put}
use bcpfs.Sharing.{Acl, ExportEntry, RealExports}
use bcpfs.Sharing.Bcpfs.{Bcpfs, fs_group_org_unit}
use bcpfs.Sharing.Facl.{Facl, is_named_group_normal, select_named_group_normal_entries, ace_text}
use bcpfs.Apply.{Set, add_texts, contains}
use bcpfs.Apply.Facls.{contains_nil, contains-add_texts}
use bcpfs.Apply.Traversal.{paths_of, traversal_text, add_missing, paths_by_group}

-- The path is one of those of the group.
abbrev pub lists : Dict (List Bytes) → Bytes → Bytes → Bool
lists m group q = any (λ p. beq p q) (paths_of m group)

or_false_end : (a b : Bool) → (a || (b || false)) ≡ (a || b)
or_false_end a b = ground arith

later : (a here miss rest : Bool) → miss ≡ false → (a || rest) ≡ (a || ((here && miss) || rest))
later a here miss rest h = rw h (ground arith)

or_false_right : (a : Bool) → a ≡ (a || false)
or_false_right a = ground arith

lists-put :
    (m : Dict (List Bytes)) (k path group q : Bytes)
    → lists (Dict.put m k (paths_of m k ++ path ∷ [])) group q
      ≡ (lists m group q || (beq k group && beq path q))
unfolding paths_of
lists-put m k path group q = elim (Bool-cases (beq k group)) [
  | inl same ↦
      let e : k ≡ group = (beq_iff k group).0 same in
      rw
        (
          paths_of,
          get-put m k (paths_of m k ++ path ∷ []) group,
          same,
          e,
          any-append (λ p. beq p q) (paths_of m group) (path ∷ []),
        )
        (or_false_end (lists m group q) (beq path q))
  | inr other ↦
      rw (paths_of, get-put m k (paths_of m k ++ path ∷ []) group, other)
        (or_false_right (lists m group q))
]

-- The ACL has a normal entry with the text.
abbrev pub has_entry : Facl → Bytes → Bool
has_entry facl text = any (λ a. is_named_group_normal a && beq (ace_text a) text) facl

any-select :
    (facl : Facl) (text : Bytes)
    → any (λ a. beq (ace_text a) text) (select_named_group_normal_entries facl)
      ≡ has_entry facl text
unfolding select_named_group_normal_entries
any-select [] text = refl
any-select (a ∷ facl) text = ground (arith, any-select facl text)

contains-has_entry :
    (facl : Facl) (text : Bytes)
    → contains (add_texts (select_named_group_normal_entries facl) []) text ≡ has_entry facl text
contains-has_entry facl text =
    contains-add_texts (select_named_group_normal_entries facl) [] text
    ∙ rw (any-select facl text, contains_nil text) (sym (or_false_right (has_entry facl text)))

-- The ACL names the group.
abbrev pub names : Bcpfs → Acl → Bytes → Bool
names fs acl group = any (λ ace. beq (fs_group_org_unit fs ace.group) group) acl

same_text :
    (have : Set) (k group : Bytes) {b : Bool}
    → beq k group ≡ true
    → contains have (traversal_text k) ≡ b
    → contains have (traversal_text group) ≡ b
same_text have k group e h =
    ap (λ g. contains have (traversal_text g)) (sym ((beq_iff k group).0 e)) ∙ h

step_on :
    (a here named same entry : Bool)
    → ((same ≡ true) → entry ≡ true)
    → (a || (here && (named && not entry))) ≡ (a || (here && ((same || named) && not entry)))
step_on a here named true entry h = rw (h refl) (ground arith)
step_on a here named false entry h = refl

step_off :
    (a here named same entry : Bool)
    → ((same ≡ true) → entry ≡ false)
    → ((a || (same && here)) || (here && (named && not entry)))
      ≡ (a || (here && ((same || named) && not entry)))
step_off a here named true entry h = rw (h refl) (ground arith)
step_off a here named false entry h = rw (sym (or_false_right a)) refl

lists-add_missing :
    (fs : Bcpfs) (have : Set) (path : Bytes) (acl : Acl) (m : Dict (List Bytes)) (group q : Bytes)
    → lists (add_missing fs have path acl m) group q ≡ (
        lists m group q
        || (beq path q && (names fs acl group && not (contains have (traversal_text group)))))
unfolding add_missing
lists-add_missing fs have path [] m group q = ground arith
lists-add_missing fs have path (ace ∷ acl) m group q =
    let k = fs_group_org_unit fs ace.group in
    elim (Bool-cases (contains have (traversal_text k))) [
      | inl on ↦ rw on (
          lists-add_missing fs have path acl m group q
          ∙ step_on (lists m group q) (beq path q) (names fs acl group) (beq k group)
              (contains have (traversal_text group)) (λ e. same_text have k group e on))
      | inr off ↦ rw off (
          lists-add_missing fs have path acl (Dict.put m k (paths_of m k ++ path ∷ [])) group q
          ∙ rw (lists-put m k path group q) (
              step_off (lists m group q) (beq path q) (names fs acl group) (beq k group)
                (contains have (traversal_text group)) (λ e. same_text have k group e off)))
    ]

-- The path was found, its ACL for the traversal names the group, and what `getfacl` shows has no
-- entry `group:<group>:--x`.
abbrev pub lacks_entry : Bcpfs → Option Facl → Bytes → ExportEntry → Bool
lacks_entry fs shown group tr = elim shown [
  | none ↦ false
  | some actual ↦
      names fs tr.acl group && not (has_entry actual (codes "group:" ++ (group ++ codes ":--x")))
]

abbrev pub misses_entry : Bcpfs → Dict Facl → Bytes → ExportEntry → Bool
misses_entry fs facls group tr = lacks_entry fs (Dict.get facls tr.path) group tr

module _ (fs : Bcpfs) (facls : Dict Facl) where
  not_found :
      (x : ExportEntry) (traversal : RealExports) (m : Dict (List Bytes)) (group : Bytes)
      → Dict.get facls x.path ≡ none
      → (paths_by_group fs facls (x ∷ traversal) m ≡ paths_by_group fs facls traversal m)
        × (misses_entry fs facls group x ≡ false)
  unfolding paths_by_group
  not_found x traversal m group e = (rw (paths_by_group, e) refl, rw (misses_entry, e) refl)

  found :
      (x : ExportEntry) (traversal : RealExports) (m : Dict (List Bytes)) (group : Bytes)
      (actual : Facl)
      → Dict.get facls x.path ≡ some actual
      → (paths_by_group fs facls (x ∷ traversal) m
          ≡ paths_by_group fs facls traversal (
              add_missing fs
                (add_texts (select_named_group_normal_entries actual) [])
                x.path
                x.acl
                m))
        × (misses_entry fs facls group x
            ≡ (names fs x.acl group && not (has_entry actual (traversal_text group))))
  unfolding paths_by_group traversal_text
  found x traversal m group actual e = (rw (paths_by_group, e) refl, rw (misses_entry, e) refl)

  lists-paths_by_group :
      (traversal : RealExports) (m : Dict (List Bytes)) (group q : Bytes)
      → lists (paths_by_group fs facls traversal m) group q
        ≡ (lists m group q || any (λ x. beq x.path q && misses_entry fs facls group x) traversal)
  unfolding paths_by_group
  lists-paths_by_group [] m group q = or_false_right (lists m group q)
  lists-paths_by_group (x ∷ traversal) m group q = elim (Option-cases (Dict.get facls x.path)) [
    | inl off ↦
        let (e, f) = not_found x traversal m group off in
        ap (λ k. lists k group q) e
        ∙ lists-paths_by_group traversal m group q
        ∙ later (lists m group q) (beq x.path q) (misses_entry fs facls group x) _ f
    | inr (actual, at) ↦
        let (e, f) = found x traversal m group actual at in
        let have = add_texts (select_named_group_normal_entries actual) [] in
        ap (λ k. lists k group q) e
        ∙ lists-paths_by_group traversal (add_missing fs have x.path x.acl m) group q
        ∙ ap (λ k. k || any (λ y. beq y.path q && misses_entry fs facls group y) traversal)
            (lists-add_missing fs have x.path x.acl m group q
              ∙ ap (λ c. lists m group q || (beq x.path q && (names fs x.acl group && not c)))
                  (contains-has_entry actual (traversal_text group))
              ∙ ap (λ c. lists m group q || (beq x.path q && c)) (sym f))
        ∙ or_assoc (lists m group q) (beq x.path q && misses_entry fs facls group x) _
  ]

  -- The paths that EnsureTraversal() hands to `setfacl` for a group are exactly those of the
  -- traversal that were found, whose ACL in the traversal names the group, and whose ACL as
  -- `getfacl` shows it has no entry `--x` for the group.
  pub paths_by_group_exact :
      (traversal : RealExports) (group q : Bytes)
      → lists (paths_by_group fs facls traversal []) group q
        ≡ any (λ x. beq x.path q && misses_entry fs facls group x) traversal
  unfolding paths_of Dict.get
  paths_by_group_exact traversal group q = lists-paths_by_group traversal [] group q
