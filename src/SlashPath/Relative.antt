-- ===== src/SlashPath/Relative.antt =====
-- Relative links: where a path leads that goes up to a directory and down from it.
use bcpfs.Prelude.{
  ℕ, zero, suc, ◌+◌, ◌≡◌, ◌≢◌, refl, ap, sym, ◌∙◌, subst, List, [], ◌∷◌, ◌++◌, Bool, false, All,
  All-append, length, replicate, length-append, arith, append_assoc, append-nil,
}
use bcpfs.Prelude.Bytes.{Bytes, beq, beq-ne, join, Lacks}
use bcpfs.SlashPath.{slash, dot_dot, is_abs, up, squeeze, spell, clean, path_join}
use bcpfs.SlashPath.Names.{IsName, squeeze-names, spell-reverse, split-join, names-Lack}
use mathlib.Core.List.{reverse, reverse-append}

squeeze-append :
    (rooted : Bool) (cs ds kept : List Bytes)
    → squeeze rooted (cs ++ ds) kept ≡ squeeze rooted ds (squeeze rooted cs kept)
unfolding squeeze
squeeze-append rooted [] ds kept = refl
squeeze-append rooted (c ∷ cs) ds kept = squeeze-append rooted cs ds _

-- Going up from a directory of names leaves what was before it.
squeeze-up :
    (rooted : Bool) (cs kept : List Bytes)
    → All IsName cs
    → squeeze rooted (replicate (length cs) dot_dot) (cs ++ kept) ≡ kept
unfolding squeeze up beq
squeeze-up rooted [] kept h = refl
squeeze-up rooted (c ∷ cs) kept (hc, hs) =
    rw (beq-ne hc.not_dot_dot, squeeze) (squeeze-up rooted cs kept hs)

All-reverse : (cs : List Bytes) → All IsName cs → All IsName (reverse cs)
All-reverse [] h = tt
All-reverse (c ∷ cs) (hc, hs) =
    subst (All IsName) (sym (reverse-append (c ∷ []) cs))
      (All-append IsName (reverse cs) (c ∷ []) (All-reverse cs hs) (hc, tt))

length-reverse : (cs : List Bytes) → length (reverse cs) ≡ length cs
length-reverse [] = refl
length-reverse (c ∷ cs) =
    ap length (reverse-append (c ∷ []) cs)
    ∙ omega (arith, length-append (reverse cs) (c ∷ []), length-reverse cs)

-- `..` at the start of a relative path is kept.
squeeze-dots :
    (n m : ℕ)
    → squeeze false (replicate n dot_dot) (replicate m dot_dot) ≡ replicate (n + m) dot_dot
unfolding squeeze up beq
squeeze-dots zero m = ap (λ k. replicate k dot_dot) (omega arith)
squeeze-dots (suc n) zero = squeeze-dots n 1 ∙ ap (λ k. replicate k dot_dot) (omega arith)
squeeze-dots (suc n) (suc m) =
    squeeze-dots n (suc (suc m)) ∙ ap (λ k. replicate k dot_dot) (omega arith)

replicate-end : (n : ℕ) → replicate n dot_dot ++ dot_dot ∷ [] ≡ replicate (suc n) dot_dot
replicate-end zero = refl
replicate-end (suc n) = ap (λ l. dot_dot ∷ l) (replicate-end n)

reverse-replicate : (n : ℕ) → reverse (replicate n dot_dot) ≡ replicate n dot_dot
reverse-replicate zero = refl
reverse-replicate (suc n) =
    reverse-append (dot_dot ∷ []) (replicate n dot_dot)
    ∙ ap (λ l. l ++ dot_dot ∷ []) (reverse-replicate n)
    ∙ replicate-end n

replicate-Lacks : (n : ℕ) → All (Lacks slash) (replicate n dot_dot)
replicate-Lacks zero = tt
replicate-Lacks (suc n) =
    (((λ e. absurd (omega arith)), ((λ e. absurd (omega arith)), tt)), replicate-Lacks n)

is_abs-join_parts :
    (c : Bytes) (cs : List Bytes) → c ≢ [] → Lacks slash c → is_abs (join (c ∷ cs) slash) ≡ false
unfolding is_abs join
is_abs-join_parts [] cs h hc = absurd (h refl)
is_abs-join_parts (x ∷ c) [] h (hx, hc) = ground arith
is_abs-join_parts (x ∷ c) (d ∷ cs) h (hx, hc) = ground arith

-- `Clean()` of parts, of which the first is not empty.
clean_parts :
    (c : Bytes) (cs : List Bytes)
    → c ≢ []
    → All (Lacks slash) (c ∷ cs)
    → clean (join (c ∷ cs) slash) ≡ spell false (squeeze false (c ∷ cs) [])
unfolding clean
clean_parts c cs h (hc, hs) =
    rw (is_abs-join_parts c cs h hc, split-join (c ∷ cs) slash (λ e. cc e) (hc, hs)) refl

join-append :
    (a : Bytes) (cs : List Bytes) (b : Bytes) (ds : List Bytes)
    → join (a ∷ cs) slash ++ slash ∷ join (b ∷ ds) slash ≡ join (a ∷ cs ++ b ∷ ds) slash
unfolding join
join-append a [] b ds = refl
join-append a (c ∷ cs) b ds =
    append_assoc a (slash ∷ join (c ∷ cs) slash) (slash ∷ join (b ∷ ds) slash)
    ∙ ap (λ l. a ++ slash ∷ l) (join-append c cs b ds)

cons_last : (ds : List Bytes) (p : Bytes) (ps : List Bytes) → ds ++ p ∷ ps ≢ []
cons_last [] p ps e = cc e
cons_last (d ∷ ds) p ps e = cc e

dots-then-names :
    (n : ℕ) (p : Bytes) (ps : List Bytes)
    → All IsName (p ∷ ps)
    → spell false (squeeze false (replicate n dot_dot ++ p ∷ ps) [])
      ≡ join (replicate n dot_dot ++ p ∷ ps) slash
dots-then-names n p ps hs =
    let dots = replicate n dot_dot in
    let kept : squeeze false dots [] ≡ dots =
      squeeze-dots n 0 ∙ ap (λ k. replicate k dot_dot) (omega arith) in
    let shape : squeeze false (dots ++ p ∷ ps) [] ≡ reverse (dots ++ p ∷ ps) =
      squeeze-append false dots (p ∷ ps) []
      ∙ ap (squeeze false (p ∷ ps)) kept
      ∙ squeeze-names false (p ∷ ps) dots hs
      ∙ ap (λ l. reverse (p ∷ ps) ++ l) (sym (reverse-replicate n))
      ∙ sym (reverse-append dots (p ∷ ps)) in
    ap (spell false) shape
    ∙ spell-reverse (dots ++ p ∷ ps) (λ e. cons_last (replicate n dot_dot) p ps e)

down_and_up :
    (base xs ps : List Bytes)
    → All IsName base
    → All IsName xs
    → All IsName ps
    → squeeze false (base ++ (xs ++ (replicate (length xs) dot_dot ++ ps))) []
      ≡ reverse (base ++ ps)
down_and_up base xs ps hb hx hs =
    let dots = replicate (length xs) dot_dot in
    let up_again : squeeze false dots (reverse xs ++ reverse base) ≡ reverse base =
      subst (λ n. squeeze false (replicate n dot_dot) (reverse xs ++ reverse base) ≡ reverse base)
        (length-reverse xs) (squeeze-up false (reverse xs) (reverse base) (All-reverse xs hx)) in
    squeeze-append false base (xs ++ (dots ++ ps)) []
    ∙ ap (squeeze false (xs ++ (dots ++ ps)))
        (squeeze-names false base [] hb ∙ append-nil (reverse base))
    ∙ squeeze-append false xs (dots ++ ps) (reverse base)
    ∙ ap (squeeze false (dots ++ ps)) (squeeze-names false xs (reverse base) hx)
    ∙ squeeze-append false dots ps (reverse xs ++ reverse base)
    ∙ ap (squeeze false ps) up_again
    ∙ squeeze-names false ps (reverse base) hs
    ∙ sym (reverse-append base ps)

path_join-upward :
    (n : ℕ) (p : Bytes) (ps : List Bytes)
    → All IsName (p ∷ ps)
    → path_join (replicate (suc n) dot_dot ++ p ∷ ps)
      ≡ join (replicate (suc n) dot_dot ++ p ∷ ps) slash
unfolding path_join beq
path_join-upward n p ps hs =
    clean_parts dot_dot (replicate n dot_dot ++ p ∷ ps) (λ e. cc e)
      (All-append (Lacks slash) (replicate (suc n) dot_dot) (p ∷ ps) (replicate-Lacks (suc n))
        (names-Lack (p ∷ ps) hs))
    ∙ dots-then-names (suc n) p ps hs

join_not_empty : (b : Bytes) (cs : List Bytes) → b ≢ [] → join (b ∷ cs) slash ≢ []
unfolding join
join_not_empty [] cs h e = absurd (h refl)
join_not_empty (x ∷ b) [] h e = cc e
join_not_empty (x ∷ b) (c ∷ cs) h e = cc e

-- From a directory below `base`, as many `..` as lead up to `base`, and then names down from there.
pub relative_link :
    (b : Bytes) (base : List Bytes) (x : Bytes) (xs : List Bytes) (p : Bytes) (ps : List Bytes)
    → All IsName (b ∷ base)
    → All IsName (x ∷ xs)
    → All IsName (p ∷ ps)
    → path_join (
        join (b ∷ (base ++ x ∷ xs)) slash
        ∷ path_join (replicate (length (x ∷ xs)) dot_dot ++ p ∷ ps)
        ∷ [])
      ≡ join (b ∷ (base ++ p ∷ ps)) slash
unfolding path_join join
relative_link b base x xs p ps hb hx hs =
    let dots = replicate (length xs) dot_dot in
    let from = base ++ x ∷ xs in
    let lacks : All (Lacks slash) (b ∷ (from ++ dot_dot ∷ (dots ++ p ∷ ps))) = (
      hb.0.no_slash,
      All-append (Lacks slash) from (dot_dot ∷ (dots ++ p ∷ ps))
          (All-append (Lacks slash) base (x ∷ xs) (names-Lack base hb.1) (names-Lack (x ∷ xs) hx))
          (All-append (Lacks slash) (replicate (suc (length xs)) dot_dot) (p ∷ ps)
            (replicate-Lacks (suc (length xs))) (names-Lack (p ∷ ps) hs)),
    ) in
    let shape : squeeze false (b ∷ (from ++ dot_dot ∷ (dots ++ p ∷ ps))) []
        ≡ reverse (b ∷ (base ++ p ∷ ps)) =
      ap (λ l. squeeze false (b ∷ l) []) (append_assoc base (x ∷ xs) (dot_dot ∷ (dots ++ p ∷ ps)))
      ∙ down_and_up (b ∷ base) (x ∷ xs) (p ∷ ps) hb hx hs in
    rw
      (
        path_join-upward (length xs) p ps hs,
        beq-ne (join_not_empty b from hb.0.not_empty),
        join-append b from dot_dot (dots ++ p ∷ ps),
      )
      (clean_parts b (from ++ dot_dot ∷ (dots ++ p ∷ ps)) hb.0.not_empty lacks
        ∙ ap (spell false) shape
        ∙ spell-reverse (b ∷ (base ++ p ∷ ps)) (λ e. cc e))
