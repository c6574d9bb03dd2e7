-- ===== src/Suc/Ucred/Allowed.antt =====
-- cmd/bcpsucd/bcpsucd.go and pkg/grpc/ucred/: which uids a list on the command line allows.
use bcpfs.Prelude.{
  ℕ, ◌%◌, ◌^◌, ◌≡◌, refl, ap, ◌∙◌, List, [], ◌∷◌, ◌++◌, Bool, false, ◌==◌, ◌||◌, any, any-append,
  if◌then◌else◌, ok, err, ok-injective, arith, ◌⊎◌, inl, inr,
}
use bcpfs.Prelude.Bytes.{Bytes, split}
use bcpfs.Suc.Ucred.{
  AuthInfo, denied_uid, new_uid_authorizer, authorize_info, Atoi, no_int, negative, natural,
  set_uids, uint32_list_set,
}

-- The number is the uid, modulo 2^32.
abbrev pub gives_uid : ℕ → Atoi → Bool
gives_uid uid no_int = false
gives_uid uid negative = false
gives_uid uid (natural i) = i % 2 ^ 32 == uid

Atoi-cases : (a : Atoi) → (a ≡ no_int) ⊎ ((a ≡ negative) ⊎ ((i : ℕ) × (a ≡ natural i)))
Atoi-cases no_int = inl refl
Atoi-cases negative = inr (inl refl)
Atoi-cases (natural i) = inr (inr (i, refl))

set_uids_lem :
    (atoi : Bytes → Atoi) (vs : List Bytes) (l : List ℕ) (uids : List ℕ) (uid : ℕ)
    → set_uids atoi vs l ≡ ok uids
    → any (λ u. u == uid) uids ≡ (any (λ u. u == uid) l || any (λ v. gives_uid uid (atoi v)) vs)
unfolding set_uids
set_uids_lem atoi [] l uids uid e = ground (arith, ap (λ k. any (λ u. u == uid) k) (ok-injective e))
set_uids_lem atoi (v ∷ vs) l uids uid e = elim (Atoi-cases (atoi v)) [
  | inl off ↦ absurd (cc (rw (off, set_uids) at e))
  | inr (inl off) ↦ absurd (cc (rw (off, set_uids) at e))
  | inr (inr (i, at)) ↦
      let rest = set_uids_lem atoi vs (l ++ (i % 2 ^ 32) ∷ []) uids uid (rw (at, set_uids) at e) in
      rest ∙ rw (at, any-append (λ u. u == uid) l ((i % 2 ^ 32) ∷ [])) (ground arith)
]

-- For a list of uids on the command line that is accepted: the authorizer of the list lets in a uid
-- exactly if one of the numbers in the list is the uid, modulo 2^32.
pub authorize_info-uint32_list_set :
    (atoi : Bytes → Atoi) (value : Bytes) (uids : List ℕ) (info : AuthInfo)
    → uint32_list_set atoi value [] ≡ ok uids
    → authorize_info (new_uid_authorizer uids) info ≡ (
        if any (λ v. gives_uid info.ucred.uid (atoi v)) (split value b',')
        then ok tt
        else err (denied_uid info.ucred.uid))
unfolding uint32_list_set authorize_info new_uid_authorizer
authorize_info-uint32_list_set atoi value uids info e =
    rw (set_uids_lem atoi (split value b',') [] uids info.ucred.uid e) refl
