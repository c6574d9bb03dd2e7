-- ===== src/Apply/Facls.antt =====
-- cmd/bcpfs-perms/bcpsharingapply/real-shares.go: when an ACL is modified, and which groups are
-- removed from it.
use bcpfs.Prelude.{
  ◌≡◌, refl, ap, ◌∙◌, List, [], ◌∷◌, ◌++◌, map, Bool, true, false, not, ◌&&◌, ◌||◌, any, all, ok,
  Bool-cases, inl, inr, arith,
}
use bcpfs.Prelude.Bytes.{Bytes, codes, beq, beq_iff, beq_refl}
use bcpfs.Prelude.Sort.{any-sort_by}
use bcpfs.Prelude.Dict
use bcpfs.Prelude.Dict.{Dict, get-put, get-remove}
use bcpfs.Sharing.Facl.{
  Facl, FaclAce, is_named_group, select_named_group_entries, ace_text, group_name,
}
use bcpfs.Apply.{
  Set, contains, add_texts, misses, facl_need_modify, add_groups_of, delete_groups_of, delete_all,
  facl_groups_to_remove, Shell, ensure_facl,
}

pub contains_nil : (x : Bytes) → contains [] x ≡ false
unfolding contains Dict.get
contains_nil x = refl

pub contains-put :
    (s : Set) (k j : Bytes) → contains (Dict.put s k tt) j ≡ (beq k j || contains s j)
unfolding contains
contains-put s k j = rw (get-put s k tt j, contains) (ground arith)

contains-remove :
    (s : Set) (k j : Bytes) → contains (Dict.remove s k) j ≡ (not (beq k j) && contains s j)
unfolding contains
contains-remove s k j = rw (get-remove s k j, contains) (ground arith)

any-keys : (s : Set) (x : Bytes) → any (λ g. beq g x) (map (λ e. e.0) s) ≡ contains s x
unfolding contains Dict.get
any-keys [] x = refl
any-keys ((k, u) ∷ s) x = ground (arith, any-keys s x)

pub contains-add_texts :
    (facl : Facl) (s : Set) (x : Bytes)
    → contains (add_texts facl s) x ≡ (any (λ ace. beq (ace_text ace) x) facl || contains s x)
unfolding add_texts
contains-add_texts [] s x = refl
contains-add_texts (ace ∷ facl) s x = ground (
  arith,
  contains-add_texts facl (Dict.put s (ace_text ace) tt) x,
  contains-put s (ace_text ace) x,
)

contains-add_groups_of :
    (facl : Facl) (s : Set) (x : Bytes)
    → contains (add_groups_of facl s) x ≡ (any (λ ace. beq (group_name ace) x) facl || contains s x)
unfolding add_groups_of
contains-add_groups_of [] s x = refl
contains-add_groups_of (ace ∷ facl) s x = ground (
  arith,
  contains-add_groups_of facl (Dict.put s (group_name ace) tt) x,
  contains-put s (group_name ace) x,
)

contains-delete_groups_of :
    (facl : Facl) (s : Set) (x : Bytes)
    → contains (delete_groups_of facl s) x
      ≡ (not (any (λ ace. beq (group_name ace) x) facl) && contains s x)
unfolding delete_groups_of
contains-delete_groups_of [] s x = refl
contains-delete_groups_of (ace ∷ facl) s x = ground (
  arith,
  contains-delete_groups_of facl (Dict.remove s (group_name ace)) x,
  contains-remove s (group_name ace) x,
)

contains-delete_all :
    (gs : List Bytes) (s : Set) (x : Bytes)
    → contains (delete_all gs s) x ≡ (not (any (λ g. beq g x) gs) && contains s x)
unfolding delete_all
contains-delete_all [] s x = refl
contains-delete_all (g ∷ gs) s x =
    ground (arith, contains-delete_all gs (Dict.remove s g) x, contains-remove s g x)

any-select :
    (p : FaclAce → Bool) (facl : Facl)
    → any p (select_named_group_entries facl) ≡ any (λ ace. is_named_group ace && p ace) facl
unfolding select_named_group_entries
any-select p [] = refl
any-select p (ace ∷ facl) = ground (arith, any-select p facl)

-- A named group entry of the ACL, for its group or with its whole text.
abbrev pub names_group : Facl → Bytes → Bool
names_group facl g = any (λ ace. is_named_group ace && beq (group_name ace) g) facl

abbrev pub has_entry : Facl → Bytes → Bool
has_entry facl text = any (λ ace. is_named_group ace && beq (ace_text ace) text) facl

-- faclGroupsToRemove() returns exactly the groups that a named group entry of the actual ACL is for,
-- default entries included, and that neither an entry of the desired ACL nor the additional groups
-- name.
pub facl_groups_to_remove_exact :
    (actual desired : Facl) (additional : List Bytes) (g : Bytes)
    → any (λ x. beq x g) (facl_groups_to_remove actual desired additional)
      ≡ (names_group actual g && not (names_group desired g) && not (any (λ x. beq x g) additional))
unfolding facl_groups_to_remove
facl_groups_to_remove_exact actual desired additional g =
    let have = add_groups_of (select_named_group_entries actual) [] in
    let left = delete_groups_of (select_named_group_entries desired) have in
    any-sort_by (λ x. beq x g) (λ x. x) (map (λ e. e.0) (delete_all additional left))
    ∙ any-keys (delete_all additional left) g
    ∙ contains-delete_all additional left g
    ∙ ground (
      arith,
      contains-delete_groups_of (select_named_group_entries desired) have g,
      contains-add_groups_of (select_named_group_entries actual) [] g,
      contains_nil g,
      any-select (λ ace. beq (group_name ace) g) actual,
      any-select (λ ace. beq (group_name ace) g) desired,
    )

misses_lem :
    (actual desired : Facl)
    → misses (add_texts (select_named_group_entries actual) []) desired
      ≡ not (
          all
            (λ ace.
              has_entry actual (ace_text ace)
              && has_entry actual (codes "default:" ++ ace_text ace))
            desired)
unfolding misses
misses_lem actual [] = refl
misses_lem actual (ace ∷ desired) =
    let text = ace_text ace in
    let named = select_named_group_entries actual in
    ground (
      arith,
      misses_lem actual desired,
      contains_nil text,
      contains_nil (codes "default:" ++ text),
      contains-add_texts named [] text,
      contains-add_texts named [] (codes "default:" ++ text),
      any-select (λ a. beq (ace_text a) text) actual,
      any-select (λ a. beq (ace_text a) (codes "default:" ++ text)) actual,
    )

-- No command is needed: the actual ACL has every desired entry, as a normal and as a default entry,
-- and every group that it names is desired or additional.
abbrev pub settled : Facl → Facl → List Bytes → Bool
settled actual desired additional =
    all
      (λ ace.
        has_entry actual (ace_text ace) && has_entry actual (codes "default:" ++ ace_text ace))
      desired
    && all
        (λ ace.
          not (is_named_group ace)
          || names_group desired (group_name ace)
          || any (λ x. beq x (group_name ace)) additional)
        actual

covered :
    (actual desired : Facl) (additional : List Bytes) (g : Bytes)
    → all
        (λ ace.
          not (is_named_group ace)
          || names_group desired (group_name ace)
          || any (λ x. beq x (group_name ace)) additional)
        actual
      ≡ true
    → (names_group actual g && not (names_group desired g) && not (any (λ x. beq x g) additional))
      ≡ false
covered [] desired additional g h = refl
covered (ace ∷ actual) desired additional g h = elim (Bool-cases (beq (group_name ace) g)) [
  | inr off ↦ ground (arith, covered actual desired additional g)
  | inl at ↦
      let e = (beq_iff (group_name ace) g).0 at in
      ground (
        arith,
        covered actual desired additional g,
        ap (λ t. names_group desired t) e,
        ap (λ t. any (λ x. beq x t) additional) e,
      )
]

no_members : (gs : List Bytes) → ((g : Bytes) → any (λ x. beq x g) gs ≡ false) → gs ≡ []
no_members [] h = refl
no_members (g ∷ gs) h = absurd (ground (arith, h g, beq_refl g))

module _ {E S : Type 0} (sh : Shell E S) where
  -- For an actual ACL that is settled, ensureFacl() runs no command: it succeeds with the state of
  -- the filesystem unchanged, whatever the commands would do.
  pub ensure_facl-settled :
      (root path : Bytes) (actual desired : Facl) (additional : List Bytes) (s : S)
      → settled actual desired additional ≡ true
      → ensure_facl sh root path actual desired additional s ≡ ok s
  unfolding facl_need_modify ensure_facl
  ensure_facl-settled root path actual desired additional s h =
      let keeps : facl_need_modify actual desired ≡ false =
        ground (arith, misses_lem actual desired) in
      let none_left : facl_groups_to_remove actual desired additional ≡ [] =
        no_members (facl_groups_to_remove actual desired additional) (λ g.
          facl_groups_to_remove_exact actual desired additional g
          ∙ covered actual desired additional g (ground arith)) in
      rw (keeps, none_left, ensure_facl) refl
