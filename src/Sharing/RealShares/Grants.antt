-- ===== src/Sharing/RealShares/Grants.antt =====
-- What the shares grant on realpaths, and what the traversal entries grant.
use bcpfs.Prelude.{
  ◌≡◌, refl, ap, ◌∙◌, List, [], ◌∷◌, map, Bool, true, false, subst, ◌||◌, ◌&&◌, any, arith,
  or_assoc, not, any-append, Bool-cases, inl, inr, ◌++◌,
}
use bcpfs.Prelude.Bytes.{Bytes, beq, beq_iff, beq_comm}
use bcpfs.Prelude.Indexed.{
  Indexed, IsIndexed, empty, empty-IsIndexed, upsert, upsert-IsIndexed, any-upsert, keys-upsert,
}
use bcpfs.Sharing.{Acl, ExportEntry, Exports}
use bcpfs.Sharing.Acl.Grants.{Permission, grants, grants-union}
use bcpfs.Sharing.Bcpfs.{Bcpfs, realpath}
use bcpfs.Sharing.Imports.Selected.{path_grants}
use bcpfs.Sharing.RealShares.{widen, add_real_shares, compile_real_shares}

abbrev pub path_of : ExportEntry → Bytes
path_of exp = exp.path

-- One update of a slice of entries by path.
pub path_grants-upsert :
    (path : Bytes) (acl : Acl) (new : ExportEntry) {xs : Indexed ExportEntry} (at group : Bytes)
    (p : Permission)
    → IsIndexed path_of xs
    → new.path ≡ path
    → new.acl ≡ acl
    → path_grants (upsert path (widen acl) new xs).items at group p
      ≡ (path_grants xs.items at group p || (beq path at && grants acl group p))
path_grants-upsert path acl new at group p inv own same =
    any-upsert path_of (λ exp. grants exp.acl group p) (grants acl group p) at path (widen acl) new
      inv (λ b. refl) own (λ b. grants-union b.acl acl group p) (ap (λ a. grants a group p) same)

-- Whether some share grants the permission on the realpath `rp`.
abbrev pub realpath_grants : Bcpfs → Exports → Bytes → Bytes → Permission → Bool
realpath_grants fs shares rp group p =
    any (λ shr. beq (realpath fs shr.path) rp && grants shr.acl group p) shares

add_real_shares_lem :
    (fs : Bcpfs) (shares : Exports) (reals : Indexed ExportEntry) (rp group : Bytes)
    (p : Permission)
    → IsIndexed path_of reals
    → path_grants (add_real_shares fs shares reals).items rp group p
      ≡ (path_grants reals.items rp group p || realpath_grants fs shares rp group p)
unfolding add_real_shares
add_real_shares_lem fs [] reals rp group p inv = ground arith
add_real_shares_lem fs (shr ∷ shares) reals rp group p inv =
    let at = realpath fs shr.path in
    let new = record shr { path = at } in
    add_real_shares_lem fs shares (upsert at (widen shr.acl) new reals) rp group p
      (upsert-IsIndexed path_of at (widen shr.acl) new inv (λ a. refl) refl)
    ∙ ap (λ b. b || realpath_grants fs shares rp group p)
        (path_grants-upsert at shr.acl new rp group p inv refl refl)
    ∙ or_assoc (path_grants reals.items rp group p) _ (realpath_grants fs shares rp group p)

-- `compileRealShares()` grants a group a permission on a realpath exactly if some share whose path has
-- that realpath grants it, whatever number of shares meet there.
pub path_grants-compile_real_shares :
    (fs : Bcpfs) (shares : Exports) (rp group : Bytes) (p : Permission)
    → path_grants (compile_real_shares fs shares) rp group p ≡ realpath_grants fs shares rp group p
unfolding compile_real_shares
path_grants-compile_real_shares fs shares rp group p =
    add_real_shares_lem fs shares empty rp group p (empty-IsIndexed path_of)

-- No key of the list comes twice.
abbrev pub no_repeat : List Bytes → Bool
no_repeat [] = true
no_repeat (k ∷ ks) = not (any (λ j. beq j k) ks) && no_repeat ks

no_repeat-last :
    (ks : List Bytes) (k : Bytes)
    → no_repeat (ks ++ k ∷ []) ≡ (no_repeat ks && not (any (λ j. beq j k) ks))
no_repeat-last [] k = refl
no_repeat-last (j ∷ ks) k =
    ground (arith, no_repeat-last ks k, any-append (λ i. beq i j) ks (k ∷ []), beq_comm j k)

any-map :
    (xs : List ExportEntry) (k : Bytes)
    → any (λ j. beq j k) (map path_of xs) ≡ any (λ x. beq (path_of x) k) xs
any-map [] k = refl
any-map (x ∷ xs) k = ground (arith, any-map xs k)

no_repeat-upsert :
    (path : Bytes) (acl : Acl) (new : ExportEntry) {xs : Indexed ExportEntry}
    → IsIndexed path_of xs
    → new.path ≡ path
    → no_repeat (map path_of xs.items) ≡ true
    → no_repeat (map path_of (upsert path (widen acl) new xs).items) ≡ true
no_repeat-upsert path acl new {xs} inv own h =
    rw (keys-upsert path_of path (widen acl) new inv (λ b. refl) own)
      (elim (Bool-cases (any (λ b. beq (path_of b) path) xs.items)) [
        | inl old ↦ rw old h
        | inr fresh ↦
            rw fresh
              (ground (arith, no_repeat-last (map path_of xs.items) path, any-map xs.items path))
      ])

no_repeat-add_real_shares :
    (fs : Bcpfs) (shares : Exports) (reals : Indexed ExportEntry)
    → IsIndexed path_of reals
    → no_repeat (map path_of reals.items) ≡ true
    → no_repeat (map path_of (add_real_shares fs shares reals).items) ≡ true
unfolding add_real_shares
no_repeat-add_real_shares fs [] reals inv h = h
no_repeat-add_real_shares fs (shr ∷ shares) reals inv h =
    let at = realpath fs shr.path in
    let new = record shr { path = at } in
    no_repeat-add_real_shares fs shares (upsert at (widen shr.acl) new reals)
      (upsert-IsIndexed path_of at (widen shr.acl) new inv (λ a. refl) refl)
      (no_repeat-upsert at shr.acl new inv refl h)

-- Some key is `k`.
abbrev pub has_key : List Bytes → Bytes → Bool
has_key ks k = any (λ j. beq j k) ks

taken : (x y : Bool) → (y ≡ true → x ≡ true) → x ≡ (x || y)
taken true y h = refl
taken false true h = h refl
taken false false h = refl

or_last : (x y : Bool) → (x || (y || false)) ≡ (x || y)
or_last true y = refl
or_last false true = refl
or_last false false = refl

has_key-upsert :
    (path : Bytes) (acl : Acl) (new : ExportEntry) {xs : Indexed ExportEntry} (k : Bytes)
    → IsIndexed path_of xs
    → new.path ≡ path
    → has_key (map path_of (upsert path (widen acl) new xs).items) k
      ≡ (has_key (map path_of xs.items) k || beq path k)
has_key-upsert path acl new {xs} k inv own =
    rw (keys-upsert path_of path (widen acl) new inv (λ b. refl) own)
      (elim (Bool-cases (any (λ b. beq (path_of b) path) xs.items)) [
        | inl old ↦ rw old (
            taken (has_key (map path_of xs.items) k) (beq path k) (λ same.
              any-map xs.items k
              ∙ subst (λ j. any (λ b. beq (path_of b) j) xs.items ≡ true) ((beq_iff path k).0 same)
                  old))
        | inr fresh ↦ rw fresh (
            any-append (λ j. beq j k) (map path_of xs.items) (path ∷ [])
            ∙ or_last (has_key (map path_of xs.items) k) (beq path k))
      ])

has_key-add_real_shares :
    (fs : Bcpfs) (shares : Exports) (reals : Indexed ExportEntry) (rp : Bytes)
    → IsIndexed path_of reals
    → has_key (map path_of (add_real_shares fs shares reals).items) rp
      ≡ (has_key (map path_of reals.items) rp || any (λ shr. beq (realpath fs shr.path) rp) shares)
unfolding add_real_shares
has_key-add_real_shares fs [] reals rp inv = ground arith
has_key-add_real_shares fs (shr ∷ shares) reals rp inv =
    let at = realpath fs shr.path in
    let new = record shr { path = at } in
    has_key-add_real_shares fs shares (upsert at (widen shr.acl) new reals) rp
      (upsert-IsIndexed path_of at (widen shr.acl) new inv (λ a. refl) refl)
    ∙ ap (λ b. b || any (λ x. beq (realpath fs x.path) rp) shares)
        (has_key-upsert at shr.acl new rp inv refl)
    ∙ or_assoc (has_key (map path_of reals.items) rp) (beq at rp) _

-- `compileRealShares()` has exactly one entry for the realpath of each share, also of a share with an
-- empty ACL, and no entry for another path.
pub no_repeat-compile_real_shares :
    (fs : Bcpfs) (shares : Exports)
    → (no_repeat (map (λ exp. exp.path) (compile_real_shares fs shares)) ≡ true)
      × ((rp : Bytes)
          → has_key (map (λ exp. exp.path) (compile_real_shares fs shares)) rp
            ≡ any (λ shr. beq (realpath fs shr.path) rp) shares)
unfolding compile_real_shares
no_repeat-compile_real_shares fs shares = (
  no_repeat-add_real_shares fs shares empty (empty-IsIndexed path_of) refl,
  λ rp. has_key-add_real_shares fs shares empty rp (empty-IsIndexed path_of),
)
