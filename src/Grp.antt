-- ===== src/Grp.antt =====
-- cmd/bcpfs-perms/grp/grp.go: Unix groups, their selection and deduplication.
pub mod Members
pub mod Dedup
use bcpfs.Prelude.{
  ℕ, List, [], ◌∷◌, ◌++◌, Bool, true, false, ◌||◌, ◌&&◌, ◌==◌, any, Option, none, some,
  if◌then◌else◌, Outcome, ok, err, panic, ◌>>=◌, length,
}
use bcpfs.Prelude.Bytes.{Bytes, beq, split, has_prefix}
use bcpfs.Prelude.Dict
use bcpfs.Prelude.Dict.{Dict}

pub record Group : Type 0 where
  pub name : Bytes
  pub gid : ℕ

pub data Error : Type 0 where
  conflicting : Group → Group → Error
  invalid_output invalid_gid : Bytes → Error

-- `a == b` for two groups.
unfoldable pub same : Group → Group → Bool
same a b = beq a.name b.name && a.gid == b.gid

-- `len(fs) != 4`, and the gid; `atoi` stands for `strconv.Atoi()`.
unfoldable pub by_fields : (Bytes → Option ℕ) → Bytes → List Bytes → Outcome Error Group
by_fields atoi line (name ∷ password ∷ gid_text ∷ members ∷ []) = elim (atoi gid_text) [
  | none ↦ err (invalid_gid gid_text)
  | some gid ↦ ok (record { name = name; gid = gid })
]
by_fields atoi line _ = err (invalid_output line)

-- One line of `getent group`.
unfoldable pub parse_line : (Bytes → Option ℕ) → Bytes → Outcome Error Group
unfolding by_fields
parse_line atoi line = by_fields atoi line (split line b':')

-- The loop of Groups() over the lines of the output.
unfoldable pub parse_lines : (Bytes → Option ℕ) → List Bytes → Outcome Error (List Group)
parse_lines atoi [] = ok []
parse_lines atoi (line ∷ lines) = do
  g ← parse_line atoi line
  gs ← parse_lines atoi lines
  ok (g ∷ gs)

-- `isEqual(s)`
unfoldable pub is_equal : List Bytes → Bytes → Bool
is_equal equals s = any (λ e. beq e s) equals

-- `hasPrefix(n)`
unfoldable pub has_any_prefix : List Bytes → Bytes → Bool
has_any_prefix prefixes n = any (λ p. has_prefix n p) prefixes

-- SelectGroups(groups, prefixes, equals)
unfoldable pub select_groups : List Group → List Bytes → List Bytes → List Group
unfolding is_equal has_any_prefix
select_groups [] prefixes equals = []
select_groups (g ∷ groups) prefixes equals =
    let rest = select_groups groups prefixes equals in
    if is_equal equals g.name || has_any_prefix prefixes g.name then g ∷ rest else rest

-- A map with the gid for a key.
abbrev pub GidMap : Type 0
GidMap = List (ℕ × Group)

unfoldable pub gid_get : GidMap → ℕ → Option Group
gid_get [] k = none
gid_get ((j, g) ∷ m) k = if j == k then some g else gid_get m k

-- `seen` is the group with the same key; a group that differs from it is a conflict.
unfoldable pub check_seen : Group → Option Group → Outcome Error Bool
unfolding same
check_seen g none = ok false
check_seen g (some seen) = if same g seen then ok true else err (conflicting seen g)

-- `isDuplicate(g)`: the name decides, and the gid if the name is new.
unfoldable pub is_duplicate : Dict Group → GidMap → Group → Outcome Error Bool
unfolding check_seen
is_duplicate by_name by_gid g = elim (Dict.get by_name g.name) [
  | some seen ↦ check_seen g (some seen)
  | none ↦ check_seen g (gid_get by_gid g.gid)
]

-- The loop of DedupGroups(groups). A key that is put is new, so that both maps grow at the front.
unfoldable pub dedup : List Group → Dict Group → GidMap → Outcome Error (List Group)
unfolding is_duplicate
dedup [] by_name by_gid = ok []
dedup (g ∷ groups) by_name by_gid =
    let skip = dedup groups by_name by_gid in
    let keep = dedup groups (Dict.put by_name g.name g) ((g.gid, g) ∷ by_gid) in
    do
      is_dup ← is_duplicate by_name by_gid g
      if is_dup then skip else (do rest ← keep; ok (g ∷ rest))

unfoldable pub dedup_groups : List Group → Outcome Error (List Group)
unfolding dedup
dedup_groups groups = dedup groups [] []
