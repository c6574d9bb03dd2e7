-- ===== src/Sharing/Getfacl/Trim.antt =====
-- cmd/bcpfs-perms/bcpsharing/facl.go: strings.TrimSpace() of a text with newlines at its end.
use mathlib.Core.List.{reverse, reverse-append, reverse-reverse}
use bcpfs.Prelude.{
  ℕ, ◌≡◌, refl, ap, sym, ◌∙◌, [], ◌∷◌, ◌++◌, Bool, true, false, ◌||◌, ◌==◌, arith, append_assoc,
}
use bcpfs.Prelude.Bytes.{Bytes, codes, has_prefix}
use bcpfs.Sharing.Getfacl.{is_blank, trim_left_space, trim_space}
use bcpfs.Sharing.Getfacl.RoundTrip.{}

abbrev pub space : ℕ → Bool
space c = is_blank c || c == 11

-- The last byte is not a space.
pub record EndsWell (s : Bytes) : Type 0 where
  pub front : Bytes
  pub last : ℕ
  pub parts : s ≡ front ++ last ∷ []
  pub no_space : space last ≡ false

pub append-EndsWell : (s t : Bytes) → EndsWell t → EndsWell (s ++ t)
append-EndsWell s t h = record {
  front = s ++ h.front;
  last = h.last;
  parts = ap (λ l. s ++ l) h.parts ∙ sym (append_assoc s h.front (h.last ∷ []));
  no_space = h.no_space;
}

trim_left_stays : (c : ℕ) (s : Bytes) → space c ≡ false → trim_left_space (c ∷ s) ≡ c ∷ s
unfolding trim_left_space
trim_left_stays c s h = rw (trim_left_space, h) refl

trim_newlines : (s : Bytes) → trim_left_space (b'\n' ∷ b'\n' ∷ s) ≡ trim_left_space s
unfolding trim_left_space is_blank
trim_newlines s = refl

trim-reverse :
    (s : Bytes) → EndsWell s → trim_left_space (reverse (s ++ b'\n' ∷ b'\n' ∷ [])) ≡ reverse s
trim-reverse s h =
    let turned : reverse s ≡ h.last ∷ reverse h.front =
      ap (λ l. reverse l) h.parts ∙ reverse-append h.front (h.last ∷ []) in
    ap (λ l. trim_left_space l) (reverse-append s (b'\n' ∷ b'\n' ∷ []))
    ∙ trim_newlines (reverse s)
    ∙ ap (λ l. trim_left_space l) turned
    ∙ trim_left_stays h.last (reverse h.front) h.no_space
    ∙ sym turned

-- A text that begins with `#` and ends well is what is left when newlines are put after it.
pub trim_space-EndsWell :
    (s : Bytes)
    → has_prefix s (codes "#") ≡ true
    → EndsWell s
    → trim_space (s ++ b'\n' ∷ b'\n' ∷ []) ≡ s
unfolding trim_space trim_left_space is_blank has_prefix
trim_space-EndsWell [] e h = absurd (cc e)
trim_space-EndsWell (c ∷ s) e h =
    let first : space c ≡ false = ground arith in
    ap (λ l. reverse (trim_left_space (reverse l)))
      (trim_left_stays c (s ++ b'\n' ∷ b'\n' ∷ []) first)
    ∙ ap (λ l. reverse l) (trim-reverse (c ∷ s) h)
    ∙ reverse-reverse (c ∷ s)
