-- ===== src/Apply/ShareTrees/Settled.antt =====
-- cmd/bcpfs-perms/bcpsharingapply/share-trees.go: which files ensureShareTree() removes and creates.
use bcpfs.Prelude.{
  ℕ, ◌+◌, ◌≡◌, refl, ap, sym, ◌∙◌, subst, Option, none, some, List, [], ◌∷◌, ◌++◌, Bool, true,
  false, not, ◌&&◌, ◌||◌, any, any-append, all, Bool-cases, inl, inr, arith, ok, err, panic,
  >>=-eq-ok, ok-injective, drop, length, ltb,
}
use bcpfs.Prelude.Bytes.{Bytes, beq, codes}
use bcpfs.Prelude.Sort.{sort_by}
use bcpfs.Prelude.Dict
use bcpfs.Prelude.Dict.{Dict}
use bcpfs.SlashPath.{path_join}
use bcpfs.Sharing.Bcpfs.{Bcpfs}
use bcpfs.Sharing.ShareTrees.{ShareFile, ShareTree}
use bcpfs.Apply.{contains}
use bcpfs.Apply.Facls.{contains-put}
use bcpfs.Apply.ShareTrees.{
  FileInfo, a_dir, a_file, a_symlink, Files, Found, expected_files, is_expected, walk_files,
  removal_order, remove_files, create_files, ensure_share_tree,
}

-- The entry is expected: a directory for an empty target, or a symlink with the target.
abbrev pub as_expected : {E : Type 0} → Option Bytes → FileInfo E → Bool
as_expected (some []) a_dir = true
as_expected (some []) a_file = false
as_expected (some []) (a_symlink t) = false
as_expected (some (c ∷ target)) a_dir = false
as_expected (some (c ∷ target)) a_file = false
as_expected (some (c ∷ target)) (a_symlink (ok t)) = beq t (c ∷ target)
as_expected (some (c ∷ target)) (a_symlink (err e)) = false
as_expected (some (c ∷ target)) (a_symlink panic) = false
as_expected none info = false

is_expected-as_expected :
    {E : Type 0} (o : Option Bytes) (info : FileInfo E) (good : Bool)
    → is_expected o info ≡ ok good
    → as_expected o info ≡ good
unfolding is_expected
is_expected-as_expected none info good h = ok-injective h
is_expected-as_expected (some []) a_dir good h = ok-injective h
is_expected-as_expected (some []) a_file good h = ok-injective h
is_expected-as_expected (some []) (a_symlink t) good h = ok-injective h
is_expected-as_expected (some (c ∷ target)) a_dir good h = ok-injective h
is_expected-as_expected (some (c ∷ target)) a_file good h = ok-injective h
is_expected-as_expected (some (c ∷ target)) (a_symlink (ok t)) good h = ok-injective h
is_expected-as_expected (some (c ∷ target)) (a_symlink (err e)) good h = absurd (cc h)
is_expected-as_expected (some (c ∷ target)) (a_symlink panic) good h = absurd (cc h)

as_expected-is_expected :
    {E : Type 0} (o : Option Bytes) (info : FileInfo E)
    → as_expected o info ≡ true
    → is_expected o info ≡ ok true
unfolding is_expected
as_expected-is_expected none info h = absurd (cc h)
as_expected-is_expected (some []) a_dir h = refl
as_expected-is_expected (some []) a_file h = absurd (cc h)
as_expected-is_expected (some []) (a_symlink t) h = absurd (cc h)
as_expected-is_expected (some (c ∷ target)) a_dir h = absurd (cc h)
as_expected-is_expected (some (c ∷ target)) a_file h = absurd (cc h)
as_expected-is_expected (some (c ∷ target)) (a_symlink (ok t)) h = ap ok h
as_expected-is_expected (some (c ∷ target)) (a_symlink (err e)) h = absurd (cc h)
as_expected-is_expected (some (c ∷ target)) (a_symlink panic) h = absurd (cc h)

-- The order of the tests.
move : (a b c : Bool) → ((a || b) || c) ≡ (b || (a || c))
move true true c = refl
move true false c = refl
move false true c = refl
move false false c = refl

last_or : (a b c : Bool) → ((a || (b || false)) || c) ≡ (a || (b || c))
last_or true b c = refl
last_or false true c = refl
last_or false false c = refl

-- `treeRoot`
abbrev pub tree_root_of : Bcpfs → ShareTree → Bytes
tree_root_of fs tree =
    path_join (fs.rootdir ∷ fs.org_unit_dir ∷ tree.org_unit ∷ codes "shared" ∷ [])

module _ {E : Type 0} (tree_root : Bytes) (root_len : ℕ) (expected : Dict Bytes) where
  -- A walked file, but for the root of the tree, that is as expected; and one that is not.
  abbrev pub keeps : Bytes × FileInfo E → Bool
  keeps (path, info) =
      not (beq path tree_root) && as_expected (Dict.get expected (drop (root_len + 1) path)) info

  abbrev pub drops : Bytes × FileInfo E → Bool
  drops (path, info) =
      not (beq path tree_root)
      && not (as_expected (Dict.get expected (drop (root_len + 1) path)) info)

  -- A walk that succeeds collects the paths of the files that are not as expected, and the relative
  -- paths of those that are: the directories of the tree, and its symlinks if they have the target.
  pub walk_files_exact :
      (files : List (Bytes × FileInfo E)) (found last : Found) (q : Bytes)
      → walk_files tree_root root_len expected files found ≡ ok last
      → (any (λ p. beq p q) last.rm
          ≡ (any (λ p. beq p q) found.rm || any (λ f. drops f && beq f.0 q) files))
        × (contains last.existing q ≡ (
            contains found.existing q
            || any (λ f. keeps f && beq (drop (root_len + 1) f.0) q) files))
  unfolding walk_files
  walk_files_exact [] found last q e =
      subst
        (λ (k : Found).
          (any (λ p. beq p q) k.rm ≡ (any (λ p. beq p q) found.rm || false))
          × (contains k.existing q ≡ (contains found.existing q || false)))
        (ok-injective e) (ground arith, ground arith)
  walk_files_exact ((path, info) ∷ files) found last q e = elim (Bool-cases (beq path tree_root)) [
    | inl root ↦ rw root (walk_files_exact files found last q (rw (root, walk_files) at e))
    | inr below ↦ elim (Bool-cases (ltb (length path) (root_len + 1))) [
      | inl short ↦ absurd (cc (rw (below, walk_files, short) at e))
      | inr long ↦
          let (good, pg, e1) =
            >>=-eq-ok (is_expected (Dict.get expected (drop (root_len + 1) path)) info) _
              (rw (below, walk_files, long) at e) in
          let spec : as_expected (Dict.get expected (drop (root_len + 1) path)) info ≡ good =
            is_expected-as_expected (Dict.get expected (drop (root_len + 1) path)) info good pg in
          elim (Bool-cases good) [
            | inl on ↦
                let (r, x) =
                  walk_files_exact files
                    (record found {
                      existing = Dict.put found.existing (drop (root_len + 1) path) tt;
                    })
                    last q (rw on at e1) in
                rw (below, spec, on)
                  (
                    r,
                    x
                        ∙ rw (contains-put found.existing (drop (root_len + 1) path) q) (
                            move (beq (drop (root_len + 1) path) q) (contains found.existing q)
                              (any (λ f. keeps f && beq (drop (root_len + 1) f.0) q) files)),
                  )
            | inr off ↦
                let (r, x) =
                  walk_files_exact files (record found { rm = found.rm ++ path ∷ [] }) last q
                    (rw off at e1) in
                rw (below, spec, off)
                  (
                    r
                        ∙ rw (any-append (λ p. beq p q) found.rm (path ∷ [])) (
                            last_or (any (λ p. beq p q) found.rm) (beq path q)
                              (any (λ f. drops f && beq f.0 q) files)),
                    x,
                  )
          ]
    ]
  ]

  -- The root of the tree, or a file that is as expected, below the root dir.
  abbrev pub is_settled : Bytes × FileInfo E → Bool
  is_settled (path, info) =
      beq path tree_root || (keeps (path, info) && not (ltb (length path) (root_len + 1)))

  walk_files-settled :
      (files : List (Bytes × FileInfo E)) (found : Found)
      → all is_settled files ≡ true
      → (last : Found) × (walk_files tree_root root_len expected files found ≡ ok last)
        × (last.rm ≡ found.rm)
  unfolding walk_files
  walk_files-settled [] found h = (found, refl, refl)
  walk_files-settled ((path, info) ∷ files) found h = elim (Bool-cases (beq path tree_root)) [
    | inl root ↦ rw root (walk_files-settled files found (ground arith))
    | inr below ↦
        let good : is_expected (Dict.get expected (drop (root_len + 1) path)) info ≡ ok true =
          as_expected-is_expected (Dict.get expected (drop (root_len + 1) path)) info
            (ground arith) in
        let long : ltb (length path) (root_len + 1) ≡ false = ground arith in
        let (last, run, same) =
          walk_files-settled files
            (record found { existing = Dict.put found.existing (drop (root_len + 1) path) tt })
            (ground arith) in
        rw (below, long, good) (last, run, same)
  ]

all_same :
    {A : Type 0} (p q : A → Bool) (xs : List A)
    → ((x : A) → p x ≡ q x)
    → all p xs ≡ true
    → all q xs ≡ true
all_same p q [] same h = refl
all_same p q (x ∷ xs) same h = ground (arith, same x, all_same p q xs same)

module _ {E S : Type 0} (sys : Files E S) where
  create_files-settled :
      (rootdir : Bytes) (existing : Dict (Unit {0})) (files : List ShareFile) (s : S)
      → all (λ f. contains existing f.path) files ≡ true
      → create_files sys rootdir existing files s ≡ ok s
  unfolding create_files
  create_files-settled rootdir existing [] s h = refl
  create_files-settled rootdir existing (f ∷ files) s h =
      let on : contains existing f.path ≡ true = ground arith in
      rw (on) (create_files-settled rootdir existing files s (ground arith))

  -- A tree that is as expected is left alone: if each file that the walk finds is as expected, and
  -- each file of the tree is found, then ensureShareTree() changes nothing.
  pub ensure_share_tree-settled :
      (fs : Bcpfs) (tree : ShareTree) (s : S) (files : List (Bytes × FileInfo E))
      → sys.walk (tree_root_of fs tree) s ≡ ok files
      → all
          (is_settled (tree_root_of fs tree) (length fs.rootdir) (expected_files tree.files []))
          files
        ≡ true
      → all
          (λ f.
            any
              (λ w.
                keeps (tree_root_of fs tree) (length fs.rootdir) (expected_files tree.files []) w
                && beq (drop (length fs.rootdir + 1) w.0) f.path)
              files)
          tree.files
        ≡ true
      → ensure_share_tree sys fs tree s ≡ ok s
  unfolding ensure_share_tree removal_order remove_files Dict.get sort_by
  ensure_share_tree-settled fs tree s files walked good found_all =
      let (last, run, no_rm) =
        walk_files-settled (tree_root_of fs tree) (length fs.rootdir) (expected_files tree.files [])
          files (record { rm = []; existing = [] }) good in
      let existing : all (λ f. contains last.existing f.path) tree.files ≡ true =
        all_same _ _ tree.files
          (λ f. sym (
            (walk_files_exact (tree_root_of fs tree) (length fs.rootdir)
              (expected_files tree.files []) files (record { rm = []; existing = [] }) last f.path
              run).1))
          found_all in
      rw (walked, run, no_rm) (create_files-settled fs.rootdir last.existing tree.files s existing)
