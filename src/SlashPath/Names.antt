-- ===== src/SlashPath/Names.antt =====
-- Paths that are made of plain names: `Clean()` leaves them alone, and `Split()` undoes `Join()`.
use bcpfs.Prelude.{
  ℕ, List, [], ◌∷◌, ◌++◌, Bool, true, false, ◌≡◌, ◌≢◌, refl, ap, sym, ◌∙◌, ◌==◌, ◌&&◌, All, all,
  not, arith, append_assoc, append-nil,
}
use bcpfs.Prelude.Bytes.{Bytes, beq, beq_iff, beq-ne, split, push, join, Lacks}
use bcpfs.SlashPath.{slash, dot, dot_dot, is_abs, squeeze, spell, clean, path_join}
use mathlib.Core.List.{reverse, reverse-append, reverse-reverse}

-- A file name: not empty, not `.` or `..`, and without a slash.
pub record IsName (c : Bytes) : Type 0 where
  pub not_empty : c ≢ []
  pub not_dot : c ≢ dot
  pub not_dot_dot : c ≢ dot_dot
  pub no_slash : Lacks slash c

pub squeeze-names :
    (rooted : Bool) (cs kept : List Bytes)
    → All IsName cs
    → squeeze rooted cs kept ≡ reverse cs ++ kept
unfolding squeeze
squeeze-names rooted [] kept h = refl
squeeze-names rooted (c ∷ cs) kept (hc, hs) =
    rw (beq-ne hc.not_empty, beq-ne hc.not_dot, beq-ne hc.not_dot_dot)
      (squeeze-names rooted cs (c ∷ kept) hs
        ∙ sym (append_assoc (reverse cs) (c ∷ []) kept)
        ∙ ap (λ l. l ++ kept) (sym (reverse-append (c ∷ []) cs)))

split-Lacks : (c : Bytes) (sep : ℕ) → Lacks sep c → split c sep ≡ c ∷ []
unfolding split
split-Lacks [] sep h = refl
split-Lacks (x ∷ c) sep (hx, hc) = rw (split-Lacks c sep hc) (ground arith)

pub split-Lacks-append :
    (c rest : Bytes) (sep : ℕ) → Lacks sep c → split (c ++ sep ∷ rest) sep ≡ c ∷ split rest sep
unfolding split
split-Lacks-append [] rest sep h = ground arith
split-Lacks-append (x ∷ c) rest sep (hx, hc) = rw (split-Lacks-append c rest sep hc) (ground arith)

-- Splitting a join gives the parts back.
pub split-join : (cs : List Bytes) (c : ℕ) → cs ≢ [] → All (Lacks c) cs → split (join cs c) c ≡ cs
unfolding join
split-join [] c some_name lacks = absurd (some_name refl)
split-join (a ∷ []) c some_name (here, lacks) = split-Lacks a c here
split-join (a ∷ b ∷ cs) c some_name (here, lacks) =
    let tail_kept = split-join (b ∷ cs) c (cc) lacks in
    split-Lacks-append a (join (b ∷ cs) c) c here ∙ ap (λ l. a ∷ l) tail_kept

pub names-Lack : (cs : List Bytes) → All IsName cs → All (Lacks slash) cs
names-Lack [] h = tt
names-Lack (c ∷ cs) (hc, hs) = (hc.no_slash, names-Lack cs hs)

-- A path that is made of names.
abbrev pub IsPlain : Bytes → Type 0
IsPlain p = All IsName (split p slash)

pub split_names : (cs : List Bytes) → cs ≢ [] → All IsName cs → split (join cs slash) slash ≡ cs
split_names cs h hs = split-join cs slash h (names-Lack cs hs)

is_abs-join : (cs : List Bytes) → cs ≢ [] → All IsName cs → is_abs (join cs slash) ≡ false
unfolding is_abs join
is_abs-join [] h hs = absurd (h refl)
is_abs-join ([] ∷ cs) h (hc, hs) = absurd (hc.not_empty refl)
is_abs-join ((x ∷ c) ∷ []) h (hc, hs) = ground (arith, hc.no_slash)
is_abs-join ((x ∷ c) ∷ d ∷ cs) h (hc, hs) = ground (arith, hc.no_slash)

spell_kept : (kept : List Bytes) → kept ≢ [] → spell false kept ≡ join (reverse kept) slash
unfolding spell
spell_kept [] h = absurd (h refl)
spell_kept (c ∷ kept) h = refl

pub spell-reverse : (cs : List Bytes) → cs ≢ [] → spell false (reverse cs) ≡ join cs slash
spell-reverse cs h =
    spell_kept (reverse cs) (λ e. h (sym (reverse-reverse cs) ∙ ap reverse e))
    ∙ ap (λ l. join l slash) (reverse-reverse cs)

-- `Clean()` keeps a path that is made of names.
pub clean-join : (cs : List Bytes) → cs ≢ [] → All IsName cs → clean (join cs slash) ≡ join cs slash
unfolding clean
clean-join cs h hs =
    rw (is_abs-join cs h hs, split_names cs h hs, squeeze-names false cs [] hs, append-nil)
      (spell-reverse cs h)

-- `Join()` of names puts slashes between them.
pub path_join-names : (cs : List Bytes) → cs ≢ [] → All IsName cs → path_join cs ≡ join cs slash
unfolding path_join
path_join-names [] h hs = absurd (h refl)
path_join-names (c ∷ cs) h (hc, hs) = rw (beq-ne hc.not_empty) (clean-join (c ∷ cs) h (hc, hs))

join-push : (c : ℕ) (ps : List Bytes) (sep : ℕ) → ps ≢ [] → join (push c ps) sep ≡ c ∷ join ps sep
unfolding join push
join-push c [] sep h = absurd (h refl)
join-push c (p ∷ []) sep h = refl
join-push c (p ∷ q ∷ ps) sep h = refl

pub split-ne-nil : (s : Bytes) (sep : ℕ) → split s sep ≢ []
unfolding split push
split-ne-nil [] sep = λ e. cc e
split-ne-nil (c ∷ s) sep = ground arith

join-nil_cons : (ps : List Bytes) (sep : ℕ) → ps ≢ [] → join ([] ∷ ps) sep ≡ sep ∷ join ps sep
unfolding join
join-nil_cons [] sep h = absurd (h refl)
join-nil_cons (p ∷ ps) sep h = refl

-- Joining the parts of a split gives the text back.
pub join-split : (s : Bytes) (sep : ℕ) → join (split s sep) sep ≡ s
unfolding split join
join-split [] sep = refl
join-split (c ∷ s) sep = ground (
  arith,
  join-nil_cons (split s sep) sep (split-ne-nil s sep),
  join-push c (split s sep) sep (split-ne-nil s sep),
  join-split s sep,
)

-- The test for a name.
unfoldable pub is_name : Bytes → Bool
is_name c =
    not (beq c []) && (not (beq c dot) && (not (beq c dot_dot) && all (λ x. not (x == slash)) c))

Lacks-of_all : (c : Bytes) → all (λ x. not (x == slash)) c ≡ true → Lacks slash c
Lacks-of_all [] h = tt
Lacks-of_all (x ∷ c) h = (ground arith, Lacks-of_all c (ground arith))

pub IsName-of_test : (c : Bytes) → is_name c ≡ true → IsName c
unfolding is_name
IsName-of_test c h = record {
  not_empty = λ e. ground (arith, beq_iff c []);
  not_dot = λ e. ground (arith, beq_iff c dot);
  not_dot_dot = λ e. ground (arith, beq_iff c dot_dot);
  no_slash = Lacks-of_all c (ground arith);
}

IsName-all : (cs : List Bytes) → all is_name cs ≡ true → All IsName cs
IsName-all [] h = tt
IsName-all (c ∷ cs) h = (IsName-of_test c (ground arith), IsName-all cs (ground arith))

-- A path is made of names if its parts pass the test.
pub IsPlain-of_test : (p : Bytes) → all is_name (split p slash) ≡ true → IsPlain p
IsPlain-of_test p h = IsName-all (split p slash) h
