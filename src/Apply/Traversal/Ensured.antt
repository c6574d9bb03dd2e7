-- ===== src/Apply/Traversal/Ensured.antt =====
-- cmd/bcpfs-perms/bcpsharingapply/traversal.go: the calls of `setfacl` that EnsureTraversal() makes.
use bcpfs.Prelude.{
  Option, some, if◌then◌else◌, ◌≡◌, refl, ap, sym, ◌∙◌, List, [], ◌∷◌, ◌++◌, append_assoc,
  append-nil, map, Bool, true, false, ◌&&◌, ◌||◌, any, Bool-cases, inl, inr, none, Option-cases, ok,
}
use bcpfs.Prelude.Bytes.{Bytes, beq, beq_iff, beq_comm}
use bcpfs.Prelude.Dict
use bcpfs.Prelude.Dict.{Dict, get-put}
use bcpfs.Sharing.{ExportEntry, Acl, RealExports}
use bcpfs.Sharing.Bcpfs.{Bcpfs, fs_group_org_unit}
use bcpfs.Sharing.Facl.{Facl, select_named_group_normal_entries}
use bcpfs.Apply.{Set, add_texts, contains}
use bcpfs.Apply.Traversal.{
  TraversalShell, facls_by_path, paths_of, traversal_text, add_missing, paths_by_group,
  set_traversals, ensure_traversal,
}
use bcpfs.Apply.Traversal.Missing.{lists, lacks_entry, paths_by_group_exact}

-- A call of `setfacl`: the root, the group and the paths.
abbrev pub Call : Type 0
Call = Bytes × (Bytes × List Bytes)

-- A shell that shows the ACLs `shown` of the paths in the root dir, and that notes the calls of `setfacl`.
abbrev pub noting :
    {E : Type 0} → (Bytes → List Bytes → List (Bytes × Facl)) → TraversalShell E (List Call)
noting shown = record {
  getfacl = λ root paths calls. ok (shown root paths);
  setfacl = λ root paths group calls. ok (calls ++ (root, (group, paths)) ∷ []);
}

-- The path is handed over for the group.
abbrev pub hands : List (Bytes × List Bytes) → Bytes → Bytes → Bool
hands calls group q = any (λ c. beq c.0 group && any (λ p. beq p q) c.1) calls

-- The keys of a map are different.
abbrev Keyed : Dict (List Bytes) → Type 0
Keyed [] = Unit
Keyed ((k, ps) ∷ m) = (Dict.get m k ≡ none) × Keyed m

Keyed-put :
    (m : Dict (List Bytes)) (k : Bytes) (ps : List Bytes) → Keyed m → Keyed (Dict.put m k ps)
unfolding Dict.put Dict.get
Keyed-put [] k ps h = (refl, tt)
Keyed-put ((j, qs) ∷ m) k ps (h, hm) = elim (Bool-cases (beq j k)) [
  | inl same ↦ rw same (ap (Dict.get m) (sym ((beq_iff j k).0 same)) ∙ h, hm)
  | inr other ↦ rw other (get-put m k ps j ∙ rw (beq_comm k j, other) h, Keyed-put m k ps hm)
]

Keyed-add_missing :
    (fs : Bcpfs) (have : Set) (path : Bytes) (acl : Acl) (m : Dict (List Bytes))
    → Keyed m
    → Keyed (add_missing fs have path acl m)
unfolding add_missing
Keyed-add_missing fs have path [] m h = h
Keyed-add_missing fs have path (ace ∷ acl) m h =
    let k = fs_group_org_unit fs ace.group in
    elim (Bool-cases (contains have (traversal_text k))) [
      | inl on ↦ rw on (Keyed-add_missing fs have path acl m h)
      | inr off ↦ rw off (
          Keyed-add_missing fs have path acl (Dict.put m k (paths_of m k ++ path ∷ []))
            (Keyed-put m k (paths_of m k ++ path ∷ []) h))
    ]

Keyed-paths_by_group :
    (fs : Bcpfs) (facls : Dict Facl) (traversal : RealExports) (m : Dict (List Bytes))
    → Keyed m
    → Keyed (paths_by_group fs facls traversal m)
unfolding paths_by_group
Keyed-paths_by_group fs facls [] m h = h
Keyed-paths_by_group fs facls (x ∷ traversal) m h = elim (Option-cases (Dict.get facls x.path)) [
  | inl off ↦ rw (paths_by_group, off) (Keyed-paths_by_group fs facls traversal m h)
  | inr (actual, at) ↦
      rw (paths_by_group, at)
        (Keyed-paths_by_group fs facls traversal
          (add_missing fs (add_texts (select_named_group_normal_entries actual) []) x.path x.acl m)
          (Keyed-add_missing fs (add_texts (select_named_group_normal_entries actual) []) x.path
            x.acl m h))
]

lists-none :
    (m : Dict (List Bytes)) (group q : Bytes) → Dict.get m group ≡ none → lists m group q ≡ false
unfolding paths_of
lists-none m group q h = rw (paths_of, h) refl

lists-head :
    (k : Bytes) (ps : List Bytes) (m : Dict (List Bytes)) (group q : Bytes)
    → beq k group ≡ true
    → lists ((k, ps) ∷ m) group q ≡ any (λ p. beq p q) ps
unfolding paths_of Dict.get
lists-head k ps m group q h = rw (paths_of, Dict.get, h) refl

lists-tail :
    (k : Bytes) (ps : List Bytes) (m : Dict (List Bytes)) (group q : Bytes)
    → beq k group ≡ false
    → lists ((k, ps) ∷ m) group q ≡ lists m group q
unfolding paths_of Dict.get
lists-tail k ps m group q h = rw (paths_of, Dict.get, h) refl

or_false : (a : Bool) → (a || false) ≡ a
or_false true = refl
or_false false = refl

-- Ranging over a map hands over the paths of each group.
hands-lists :
    (m : Dict (List Bytes)) (group q : Bytes) → Keyed m → hands m group q ≡ lists m group q
unfolding paths_of Dict.get
hands-lists [] group q h = refl
hands-lists ((k, ps) ∷ m) group q (h, hm) = elim (Bool-cases (beq k group)) [
  | inl same ↦ rw same (
      ap (λ b. any (λ p. beq p q) ps || b)
        (hands-lists m group q hm
          ∙ lists-none m group q (ap (Dict.get m) (sym ((beq_iff k group).0 same)) ∙ h))
      ∙ or_false (any (λ p. beq p q) ps)
      ∙ sym (lists-head k ps m group q same))
  | inr other ↦ rw other (hands-lists m group q hm ∙ sym (lists-tail k ps m group q other))
]

set_traversals-noting :
    {E : Type 0} (shown : Bytes → List Bytes → List (Bytes × Facl)) (root : Bytes)
    (groups : List (Bytes × List Bytes)) (calls : List Call)
    → set_traversals {E = E} (noting shown) root groups calls
      ≡ ok (calls ++ map (λ g. (root, g)) groups)
unfolding set_traversals
set_traversals-noting shown root [] calls = ap ok (sym (append-nil calls))
set_traversals-noting shown root ((group, paths) ∷ groups) calls =
    set_traversals-noting shown root groups (calls ++ (root, (group, paths)) ∷ [])
    ∙ ap ok (append_assoc calls ((root, (group, paths)) ∷ []) (map (λ g. (root, g)) groups))

-- What the shell shows last for the path.
abbrev pub shown_acl : List (Bytes × Facl) → Bytes → Option Facl
shown_acl [] path = none
shown_acl ((p, acl) ∷ facls) path = elim (shown_acl facls path) [
  | none ↦ if beq p path then some acl else none
  | some last ↦ some last
]

abbrev or_else : Option Facl → Option Facl → Option Facl
or_else none other = other
or_else (some acl) other = some acl

later_or :
    (last : Option Facl) (here : Bool) (acl : Facl) (old : Option Facl)
    → or_else last (if here then some acl else old)
      ≡ or_else (elim last [ none ↦ if here then some acl else none | some a ↦ some a ]) old
later_or none true acl old = refl
later_or none false acl old = refl
later_or (some a) here acl old = refl

or_none : (a : Option Facl) → or_else a none ≡ a
or_none none = refl
or_none (some a) = refl

get-facls_by_path :
    (facls : List (Bytes × Facl)) (m : Dict Facl) (path : Bytes)
    → Dict.get (facls_by_path facls m) path ≡ or_else (shown_acl facls path) (Dict.get m path)
unfolding facls_by_path
get-facls_by_path [] m path = refl
get-facls_by_path ((p, acl) ∷ facls) m path =
    get-facls_by_path facls (Dict.put m p acl) path
    ∙ ap (or_else (shown_acl facls path)) (get-put m p acl path)
    ∙ later_or (shown_acl facls path) (beq p path) acl (Dict.get m path)

shown-facls_by_path :
    (facls : List (Bytes × Facl)) (path : Bytes)
    → Dict.get (facls_by_path facls []) path ≡ shown_acl facls path
unfolding Dict.get
shown-facls_by_path facls path = get-facls_by_path facls [] path ∙ or_none (shown_acl facls path)

any_same :
    (p q : ExportEntry → Bool) (xs : RealExports)
    → ((x : ExportEntry) → p x ≡ q x)
    → any p xs ≡ any q xs
any_same p q [] h = refl
any_same p q (x ∷ xs) h = rw (h x, any_same p q xs h) refl

-- EnsureTraversal() calls `setfacl` in the root dir only, and hands it over for each group exactly those
-- paths of the traversal that `getfacl` shows, whose ACL in the traversal names the group, and whose ACL
-- as shown has no entry `group:<group>:--x`; for any order with which Go ranges over the entries of its
-- map.
pub ensure_traversal_exact :
    {E : Type 0} (order : Dict (List Bytes) → List (Bytes × List Bytes)) (fs : Bcpfs)
    (traversal : RealExports) (shown : Bytes → List Bytes → List (Bytes × Facl))
    → ((m : Dict (List Bytes)) (p : Bytes × List Bytes → Bool) → any p (order m) ≡ any p m)
    → (calls : List (Bytes × List Bytes)) × (ensure_traversal {E = E}
          (noting shown)
          order
          fs
          traversal
          []
        ≡ ok (map (λ c. (fs.rootdir, c)) calls))
      × ((group q : Bytes)
          → hands calls group q
            ≡ any
                (λ x.
                  beq x.path q
                  && lacks_entry fs
                      (shown_acl (shown fs.rootdir (map (λ tr. tr.path) traversal)) x.path)
                      group
                      x)
                traversal)
unfolding ensure_traversal
ensure_traversal_exact order fs traversal shown same =
    let m =
      paths_by_group fs (facls_by_path (shown fs.rootdir (map (λ tr. tr.path) traversal)) [])
        traversal [] in
    (
      order m,
      set_traversals-noting shown fs.rootdir (order m) [],
      λ group q.
          same m (λ c. beq c.0 group && any (λ p. beq p q) c.1)
          ∙ hands-lists m group q (
              Keyed-paths_by_group fs
                (facls_by_path (shown fs.rootdir (map (λ tr. tr.path) traversal)) []) traversal []
                tt)
          ∙ paths_by_group_exact fs
              (facls_by_path (shown fs.rootdir (map (λ tr. tr.path) traversal)) []) traversal group
              q
          ∙ any_same _ _ traversal (λ x.
            ap (λ a. beq x.path q && lacks_entry fs a group x)
              (shown-facls_by_path (shown fs.rootdir (map (λ tr. tr.path) traversal)) x.path)),
    )
