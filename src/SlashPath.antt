-- ===== src/SlashPath.antt =====
-- Packages `path` and `path/filepath` on Unix: `Clean()` and `Join()`, which work on the text alone.
pub mod Names
pub mod Relative
use bcpfs.Prelude.{
  ℕ, List, [], ◌∷◌, ◌++◌, Bool, true, false, ◌≡◌, refl, ◌==◌, ◌||◌, ◌&&◌, if◌then◌else◌,
}
use bcpfs.Prelude.Bytes.{Bytes, codes, beq, split, join}
use mathlib.Core.List.{reverse}

abbrev pub slash : ℕ
slash = b'/'

abbrev pub dot : Bytes
dot = b'.' ∷ []

abbrev pub dot_dot : Bytes
dot_dot = b'.' ∷ b'.' ∷ []

-- filepath.IsAbs(p)
unfoldable pub is_abs : Bytes → Bool
is_abs [] = false
is_abs (c ∷ p) = c == slash

-- `..` removes the last kept component; there is none to remove at the root, and below a relative
-- path's start it is kept.
unfoldable pub up : Bool → List Bytes → List Bytes
up rooted [] = if rooted then [] else dot_dot ∷ []
up rooted (d ∷ kept) = if beq d dot_dot then dot_dot ∷ d ∷ kept else kept

-- The components that `Clean()` keeps, the last one first.
unfoldable pub squeeze : Bool → List Bytes → List Bytes → List Bytes
squeeze rooted [] kept = kept
squeeze rooted (c ∷ cs) kept =
    squeeze rooted cs
      (if beq c [] || beq c dot then kept else if beq c dot_dot then up rooted kept else c ∷ kept)

unfoldable pub spell : Bool → List Bytes → Bytes
spell true kept = slash ∷ join (reverse kept) slash
spell false [] = dot
spell false (c ∷ kept) = join (reverse (c ∷ kept)) slash

-- path.Clean(p)
unfoldable pub clean : Bytes → Bytes
unfolding is_abs up squeeze spell split join beq
clean p = spell (is_abs p) (squeeze (is_abs p) (split p slash) [])

-- path.Join(elems...): `Clean()` from the first element that is not empty.
unfoldable pub path_join : List Bytes → Bytes
unfolding clean
path_join [] = []
path_join (e ∷ es) = if beq e [] then path_join es else clean (join (e ∷ es) slash)
