-- ===== src/Sharing/Acl/Grants.antt =====
-- What an ACL grants, and what the union of two ACLs grants.
use bcpfs.Prelude.{
  ℕ, ◌≡◌, refl, ap, sym, ◌∙◌, [], ◌∷◌, ◌++◌, Bool, ◌||◌, ◌&&◌, ◌==◌, length, any, arith, or_assoc,
  append-nil, append_assoc, length-append,
}
use bcpfs.Prelude.Bytes.{Bytes, beq}
use bcpfs.Prelude.Dict
use bcpfs.Prelude.Dict.{Dict, get-put}
use bcpfs.Prelude.Indexed.{
  Indexed, IsIndexed, upsert, any-upsert, upsert-IsIndexed, append-IsIndexed, empty-IsIndexed,
}
use bcpfs.Sharing.{AceMode, Ace, Acl}
use bcpfs.Sharing.Acl.{union_mode, index_groups, merge, union}

-- The three permissions of a mode.
pub data Permission : Type 0 where
  read write execute : Permission

unfoldable pub mode_grants : AceMode → Permission → Bool
mode_grants m read = m.first == b'r'
mode_grants m write = m.second == b'w'
mode_grants m execute = m.third == b'x'

-- Whether some entry of the ACL gives `p` to `group`.
abbrev pub grants : Acl → Bytes → Permission → Bool
grants acl group p = any (λ ace. beq ace.group group && mode_grants ace.mode p) acl

pub mode_grants-union_mode :
    (a b : Ace) (p : Permission)
    → mode_grants (union_mode a b) p ≡ (mode_grants a.mode p || mode_grants b.mode p)
unfolding mode_grants union_mode
mode_grants-union_mode a b read = ground arith
mode_grants-union_mode a b write = ground arith
mode_grants-union_mode a b execute = ground arith

grants-merge :
    (b : Acl) (u : Indexed Ace) (group : Bytes) (p : Permission)
    → IsIndexed (λ ace. ace.group) u
    → grants (merge b u).items group p ≡ (grants u.items group p || grants b group p)
unfolding merge
grants-merge [] u group p inv = ground arith
grants-merge (ace ∷ b) u group p inv =
    let raised = λ (old : Ace). record old { mode = union_mode old ace } in
    grants-merge b (upsert ace.group raised ace u) group p
      (upsert-IsIndexed (λ x. x.group) ace.group raised ace inv (λ a. refl) refl)
    ∙ ap (λ c. c || grants b group p)
        (any-upsert (λ x. x.group) (λ x. mode_grants x.mode p) (mode_grants ace.mode p) group
          ace.group raised ace inv (λ a. refl) refl (λ a. mode_grants-union_mode a ace p) refl)
    ∙ or_assoc (grants u.items group p) _ (grants b group p)

index_groups_more :
    (done u : Acl) (index : Dict ℕ)
    → IsIndexed (λ ace. ace.group) (record { items = done; index = index })
    → IsIndexed
        (λ ace. ace.group)
        (record { items = done ++ u; index = index_groups (length done) u index })
unfolding index_groups
index_groups_more done [] index inv = rw append-nil inv
index_groups_more done (ace ∷ u) index inv =
    rw (sym (length-append done (ace ∷ [])), sym (append_assoc done (ace ∷ []) u))
      (index_groups_more (done ++ ace ∷ []) u (Dict.put index ace.group (length done))
        (append-IsIndexed (λ x. x.group) ace.group ace inv refl))

index_groups-IsIndexed :
    (a : Acl) → IsIndexed (λ ace. ace.group) (record { items = a; index = index_groups 0 a [] })
index_groups-IsIndexed a = index_groups_more [] a [] (empty-IsIndexed (λ ace. ace.group))

-- The union of two ACLs grants a group exactly what one of the two grants it.
pub grants-union :
    (a b : Acl) (group : Bytes) (p : Permission)
    → grants (union a b) group p ≡ (grants a group p || grants b group p)
unfolding union
grants-union a b group p = grants-merge b _ group p (index_groups-IsIndexed a)
