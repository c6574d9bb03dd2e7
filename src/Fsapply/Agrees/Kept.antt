-- ===== src/Fsapply/Agrees/Kept.antt =====
-- cmd/bcpfs-perms/fsapply/ and cmd/bcpfs-perms/fsck/: what EnsurePermissions() runs, and what
-- CheckPermissions() expects, where no directory has the same group in two roles.
use bcpfs.Prelude.{ℕ, ◌≡◌, List, [], ◌∷◌, Bool, true, not, ◌&&◌, ◌==◌, any}
use bcpfs.Prelude.Bytes.{Bytes}
use bcpfs.Fsck.{Acl, named_gids}
use bcpfs.Fsapply.{Script}
use bcpfs.Fsapply.Agrees.{Keeps}

-- No gid comes twice.
abbrev pub distinct : List ℕ → Bool
distinct [] = true
distinct (g ∷ gids) = not (any (λ r. r == g) gids) && distinct gids

-- The groups that the ACL names are different ones.
abbrev pub IsDistinct : Bytes × Acl → Type 0
IsDistinct d = distinct (named_gids d.1) ≡ true

-- One script for each directory, which keeps the entries of its groups.
abbrev pub KeepAll : List Script → List (Bytes × Acl) → Type 0
KeepAll [] [] = Unit
KeepAll [] (d ∷ ds) = ⊥
KeepAll (script ∷ scripts) [] = ⊥
KeepAll (script ∷ scripts) (d ∷ ds) = Keeps d.0 d.1 script × KeepAll scripts ds
