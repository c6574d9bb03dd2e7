-- ===== src/Sharing/Nesting/Exact.antt =====
-- The nesting checks accept exactly the exports whose paths lie apart.
use bcpfs.Prelude.{
  ◌≡◌, refl, ap, ◌∙◌, List, [], ◌∷◌, map, Bool, true, false, not, ◌&&◌, arith, inl, inr, ◌⊎◌, any,
  All, ok, err,
}
use bcpfs.Prelude.Bytes.{Bytes, beq, beq_comm}
use bcpfs.Prelude.Dict
use bcpfs.Prelude.Dict.{Dict}
use bcpfs.SlashPath.Names.{IsPlain}
use bcpfs.Sharing.{Exports}
use bcpfs.Sharing.Bcpfs.{Bcpfs, realpath}
use bcpfs.Sharing.Nesting.{
  NodeType, NestingError, node_at, check_exports, check_realpaths, check_no_nesting,
  check_no_realpath_nesting,
}
use bcpfs.Sharing.Nesting.Ancestors.{}
use bcpfs.Sharing.Nesting.Tree.{node_of, IsTree}
use bcpfs.Sharing.Nesting.Apart.{nested, clash, apart, any-or, nested_comm}
use bcpfs.Sharing.Nesting.Step.{check_export_nesting_lem, check_realpath_nesting_lem}

-- The loops take the paths one by one, each against those before it.
fits : (Bytes → Bytes → Bool) → List Bytes → List Bytes → Bool
fits c [] done = true
fits c (p ∷ ps) done = not (any (c p) done) && fits c ps (p ∷ done)

module _ (c : Bytes → Bytes → Bool) (c_comm : (p q : Bytes) → c p q ≡ c q p) where
  apart_from : List Bytes → List Bytes → Bool
  apart_from [] done = true
  apart_from (p ∷ ps) done = not (any (c p) done) && apart_from ps done

  apart_from-cons :
      (p : Bytes) (ps done : List Bytes)
      → apart_from ps (p ∷ done) ≡ (not (any (c p) ps) && apart_from ps done)
  unfolding apart_from
  apart_from-cons p [] done = refl
  apart_from-cons p (q ∷ ps) done = ground (arith, c_comm p q, apart_from-cons p ps done)

  apart_from-nil : (ps : List Bytes) → apart_from ps [] ≡ true
  unfolding apart_from
  apart_from-nil [] = refl
  apart_from-nil (p ∷ ps) = apart_from-nil ps

  fits-apart_from : (ps done : List Bytes) → fits c ps done ≡ (apart_from ps done && apart c ps)
  unfolding fits apart_from
  fits-apart_from [] done = refl
  fits-apart_from (p ∷ ps) done =
      ground (arith, fits-apart_from ps (p ∷ done), apart_from-cons p ps done)

  fits-apart : (ps : List Bytes) → fits c ps [] ≡ apart c ps
  fits-apart ps = fits-apart_from ps [] ∙ ap (λ b. b && apart c ps) (apart_from-nil ps)

clash_comm : (p q : Bytes) → clash p q ≡ clash q p
clash_comm p q = ground (arith, beq_comm p q)

clash→nested : (p : Bytes) (ps : List Bytes) → any (clash p) ps ≡ false → any (nested p) ps ≡ false
clash→nested p ps h = ground (arith, any-or (λ q. beq p q) (nested p) ps)

check_exports_lem :
    (exps : Exports) (tree : Dict NodeType) (done : List Bytes)
    → IsTree tree done
    → All IsPlain done
    → apart nested done ≡ true
    → All (λ exp. IsPlain exp.path) exps
    → ((fits clash (map (λ exp. exp.path) exps) done ≡ true)
        × ((after : Dict NodeType) × (check_exports exps tree ≡ ok after)))
      ⊎ ((fits clash (map (λ exp. exp.path) exps) done ≡ false)
          × ((e : NestingError) × (check_exports exps tree ≡ err e)))
unfolding check_exports fits
check_exports_lem [] tree done is plain ap_done hs = inl (refl, (tree, refl))
check_exports_lem (exp ∷ exps) tree done is plain ap_done (h, hs) =
    elim (check_export_nesting_lem exp.path h is plain ap_done) [
      | inl (bad, (e, stop)) ↦ inr (rw bad, (e, rw stop))
      | inr (good, (after, run, is')) ↦
          rw (good, run)
            (check_exports_lem exps after (exp.path ∷ done) is' (h, plain)
              (ground (arith, clash→nested exp.path done)) hs)
    ]

check_realpaths_lem :
    (fs : Bcpfs) (exps : Exports) (tree : Dict NodeType) (done : List Bytes)
    → IsTree tree done
    → All IsPlain done
    → apart nested done ≡ true
    → All (λ exp. IsPlain (realpath fs exp.path)) exps
    → ((fits nested (map (λ exp. realpath fs exp.path) exps) done ≡ true)
        × ((after : Dict NodeType) × (check_realpaths fs exps tree ≡ ok after)))
      ⊎ ((fits nested (map (λ exp. realpath fs exp.path) exps) done ≡ false)
          × ((e : NestingError) × (check_realpaths fs exps tree ≡ err e)))
unfolding check_realpaths fits
check_realpaths_lem fs [] tree done is plain ap_done hs = inl (refl, (tree, refl))
check_realpaths_lem fs (exp ∷ exps) tree done is plain ap_done (h, hs) =
    elim (check_realpath_nesting_lem (realpath fs exp.path) h is plain ap_done) [
      | inl (bad, (e, stop)) ↦ inr (rw bad, (e, rw stop))
      | inr (good, (after, run, is')) ↦
          rw (good, run)
            (check_realpaths_lem fs exps after (realpath fs exp.path ∷ done) is' (h, plain)
              (ground arith) hs)
    ]

empty-IsTree : IsTree [] []
unfolding node_at node_of Dict.get
empty-IsTree = record { at = λ k. refl }

-- For exports whose paths are made of names: `checkNoNesting()` succeeds exactly if no exported path
-- is exported twice or lies below another exported path, and returns an error otherwise.
pub check_no_nesting_exact :
    (exps : Exports)
    → All (λ exp. IsPlain exp.path) exps
    → ((apart clash (map (λ exp. exp.path) exps) ≡ true) × (check_no_nesting exps ≡ ok tt))
      ⊎ ((apart clash (map (λ exp. exp.path) exps) ≡ false)
          × ((e : NestingError) × (check_no_nesting exps ≡ err e)))
unfolding check_no_nesting
check_no_nesting_exact exps plain =
    rw (← fits-apart clash clash_comm (map (λ exp. exp.path) exps))
      (elim (check_exports_lem exps [] [] empty-IsTree tt refl plain) [
        | inl (fit, (after, run)) ↦ inl (fit, rw run)
        | inr (bad, (e, stop)) ↦ inr (bad, (e, rw stop))
      ])

-- For exports whose realpaths are made of names: `checkNoRealpathNesting()` succeeds exactly if no
-- realpath lies below another one, duplicates being allowed, and returns an error otherwise.
pub check_no_realpath_nesting_exact :
    (fs : Bcpfs) (exps : Exports)
    → All (λ exp. IsPlain (realpath fs exp.path)) exps
    → ((apart nested (map (λ exp. realpath fs exp.path) exps) ≡ true)
        × (check_no_realpath_nesting fs exps ≡ ok tt))
      ⊎ ((apart nested (map (λ exp. realpath fs exp.path) exps) ≡ false)
          × ((e : NestingError) × (check_no_realpath_nesting fs exps ≡ err e)))
unfolding check_no_realpath_nesting
check_no_realpath_nesting_exact fs exps plain =
    rw (← fits-apart nested nested_comm (map (λ exp. realpath fs exp.path) exps))
      (elim (check_realpaths_lem fs exps [] [] empty-IsTree tt refl plain) [
        | inl (fit, (after, run)) ↦ inl (fit, rw run)
        | inr (bad, (e, stop)) ↦ inr (bad, (e, rw stop))
      ])
