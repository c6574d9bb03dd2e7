-- ===== src/Fsapply/Plan/Cleaning.antt =====
-- cmd/bcpfs-perms/fsapply/: rmUnexpectedSubdirs() and rmUnexpectedLinks().
use bcpfs.Prelude.{
  ◌≡◌, refl, List, [], ◌∷◌, any, if◌then◌else◌, Bool-cases, ◌⊎◌, inl, inr, Outcome, ok, err, panic,
  true, false, Bool,
}
use bcpfs.Prelude.Bytes.{Bytes, beq}
use bcpfs.SlashPath.{path_join}
use bcpfs.Fsapply.{
  System, Run, going, failed, crashed, Removal, removed, not_empty, remove_failed, Child, ChildKind,
  child_dir, child_link, child_other,
}
use bcpfs.Fsapply.Trees.{rm_subdirs, rm_unexpected_subdirs, rm_links, rm_unexpected_links}
use bcpfs.Fsapply.Plan.{is_child_dir, is_child_link, unwanted, remove_all, clean_children}

dir-cases : (k : ChildKind) → (k ≡ child_dir) ⊎ ((k ≡ child_link) ⊎ (k ≡ child_other))
dir-cases child_dir = inl refl
dir-cases child_link = inr (inl refl)
dir-cases child_other = inr (inr refl)

link-cases : (k : ChildKind) → (k ≡ child_link) ⊎ ((k ≡ child_dir) ⊎ (k ≡ child_other))
link-cases child_link = inl refl
link-cases child_dir = inr (inl refl)
link-cases child_other = inr (inr refl)

module _ {E S : Type 0} (sys : System E S) where
  -- What follows one removal.
  same_after :
      (may_keep : Bool) (f g : S → Run E S) (r : Removal E S) (s : S)
      → ((s : S) → f s ≡ g s)
      → Path
          (Run E S)
          (elim r [
            | removed s' ↦ f s'
            | not_empty e ↦ if may_keep then f s else failed e s
            | remove_failed e ↦ failed e s
          ])
          (elim r [
            | removed s' ↦ g s'
            | not_empty e ↦ if may_keep then g s else failed e s
            | remove_failed e ↦ failed e s
          ])
  same_after may_keep f g (removed s') s h = h s'
  same_after true f g (not_empty e) s h = h s
  same_after false f g (not_empty e) s h = refl
  same_after may_keep f g (remove_failed e) s h = refl

  rm_subdirs_lem :
      (dir : Bytes) (expected : List Bytes) (children : List Child) (s : S)
      → rm_subdirs sys dir expected children s
        ≡ remove_all sys true dir (unwanted is_child_dir expected children) s
  unfolding rm_subdirs
  rm_subdirs_lem dir expected [] s = refl
  rm_subdirs_lem dir expected (c ∷ children) s = elim (dir-cases c.kind) [
    | inl wanted_kind ↦ rw wanted_kind (elim (Bool-cases (any (λ n. beq n c.name) expected)) [
      | inl on ↦ rw on (rm_subdirs_lem dir expected children s)
      | inr off ↦ rw off (
          same_after true _ _ (sys.remove (path_join (dir ∷ c.name ∷ [])) s) s
            (rm_subdirs_lem dir expected children))
    ])
    | inr other_kind ↦ elim other_kind [
      | inl link_kind ↦ rw link_kind (rm_subdirs_lem dir expected children s)
      | inr rest_kind ↦ rw rest_kind (rm_subdirs_lem dir expected children s)
    ]
  ]

  rm_links_lem :
      (dir : Bytes) (expected : List Bytes) (children : List Child) (s : S)
      → rm_links sys dir expected children s
        ≡ remove_all sys false dir (unwanted is_child_link expected children) s
  unfolding rm_links
  rm_links_lem dir expected [] s = refl
  rm_links_lem dir expected (c ∷ children) s = elim (link-cases c.kind) [
    | inl wanted_kind ↦ rw wanted_kind (elim (Bool-cases (any (λ n. beq n c.name) expected)) [
      | inl on ↦ rw on (rm_links_lem dir expected children s)
      | inr off ↦ rw off (
          same_after false _ _ (sys.remove (path_join (dir ∷ c.name ∷ [])) s) s
            (rm_links_lem dir expected children))
    ])
    | inr other_kind ↦ elim other_kind [
      | inl dir_kind ↦ rw dir_kind (rm_links_lem dir expected children s)
      | inr rest_kind ↦ rw rest_kind (rm_links_lem dir expected children s)
    ]
  ]

  same_listing :
      (f g : List Child → Run E S) (listing : Outcome E (List Child)) (s : S)
      → ((children : List Child) → f children ≡ g children)
      → Path
          (Run E S)
          (elim listing [ ok children ↦ f children | err e ↦ failed e s | panic ↦ crashed s ])
          (elim listing [ ok children ↦ g children | err e ↦ failed e s | panic ↦ crashed s ])
  same_listing f g (ok children) s h = h children
  same_listing f g (err e) s h = refl
  same_listing f g panic s h = refl

  pub rm_unexpected_subdirs_lem :
      (dir : Bytes) (expected : List Bytes) (s : S)
      → rm_unexpected_subdirs sys dir expected (going s)
        ≡ clean_children sys true is_child_dir dir expected s
  unfolding rm_unexpected_subdirs
  rm_unexpected_subdirs_lem dir expected s =
      same_listing _ _ (sys.read_dir dir s) s (λ children. rm_subdirs_lem dir expected children s)

  pub rm_unexpected_links_lem :
      (dir : Bytes) (expected : List Bytes) (s : S)
      → rm_unexpected_links sys dir expected (going s)
        ≡ clean_children sys false is_child_link dir expected s
  unfolding rm_unexpected_links
  rm_unexpected_links_lem dir expected s =
      same_listing _ _ (sys.read_dir dir s) s (λ children. rm_links_lem dir expected children s)
