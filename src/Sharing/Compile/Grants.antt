-- ===== src/Sharing/Compile/Grants.antt =====
-- What a compiled sharing grants: the exports that are imported, on their realpaths.
use bcpfs.Prelude.{
  ℕ, ◌+◌, ◌≡◌, ap, sym, ◌∙◌, subst, ◌++◌, List, [], ◌∷◌, true, ◌&&◌, inl, inr, any, All, arith,
  Outcome, ok, err, panic, >>=-eq-ok, ok-injective, Option-cases,
}
use bcpfs.Prelude.Bytes.{Bytes, codes, beq}
use bcpfs.Config
use bcpfs.Config.{Root, SharingImport, SharingNamingPolicy}
use bcpfs.Config.Validate.{is_valid_import_action}
use bcpfs.Sharing.{Exports}
use bcpfs.Sharing.Acl.Grants.{Permission, grants}
use bcpfs.Sharing.Bcpfs.{new_bcpfs, realpath}
use bcpfs.Sharing.Regexp.{RegexpPackage}
use bcpfs.Sharing.Imports
use bcpfs.Sharing.Imports.{
  ImportFilter, ImportError, compile_imports, compile_import_rules, select_imported_exports,
}
use bcpfs.Sharing.Imports.Selected
use bcpfs.Sharing.Imports.Selected.{
  accepts, path_grants, selected, select_imported_exports_lem, any-selected,
}
use bcpfs.Sharing.Exports.{compile_exports, check_export_acl_scopes}
use bcpfs.Sharing.Naming.{NamingPolicy, compile_naming_policy, check_export_paths}
use bcpfs.Sharing.Nesting.{check_no_nesting, check_no_realpath_nesting}
use bcpfs.Sharing.RealShares.{compile_real_shares}
use bcpfs.Sharing.RealShares.Grants.{path_grants-compile_real_shares}
use bcpfs.Sharing.Compile.{Sharing, Error, lift, compile_sharing, imports, exports, naming, nesting}

lift-eq-ok : {E A : Type 0} (f : E → Error) (m : Outcome E A) {a : A} → lift f m ≡ ok a → m ≡ ok a
lift-eq-ok f (ok b) h = ground arith
lift-eq-ok f (err e) h = cc
lift-eq-ok f panic h = cc

module _ (re : RegexpPackage) where
  import_rules-HasActions :
      (i : ℕ) (cfg : List SharingImport) (imps : ImportFilter)
      → All (λ c. is_valid_import_action c.action ≡ true) cfg
      → compile_import_rules re i cfg ≡ ok imps
      → Selected.HasActions imps
  unfolding compile_import_rules
  import_rules-HasActions i [] imps h e = ground arith
  import_rules-HasActions i (c ∷ cfg) imps (h, hs) e =
      elim (Option-cases (re.compile (codes "^" ++ c.pattern_text ++ codes "$"))) [
        | inl bad ↦ absurd (cc (rw (bad, compile_import_rules) at e))
        | inr (matches, good) ↦
            let rule : Imports.ImportRule = record {
              group = c.group;
              matches = matches;
              action = c.action;
            } in
            let (rest, run, same) =
              >>=-eq-ok (compile_import_rules re (i + 1) cfg) (λ r. ok (rule ∷ r))
                (rw (good, compile_import_rules) at e) in
            subst Selected.HasActions (ok-injective same)
              (h, import_rules-HasActions (i + 1) cfg rest hs run)
      ]

  -- The parts of a successful `Compile()`.
  record Compiled (cfg : Root) (sharing : Config.Sharing) (s : Sharing) : Type 0 where
    imps : ImportFilter
    exps : Exports
    pol : NamingPolicy
    pol_run : compile_naming_policy re sharing.naming_policies ≡ ok pol
    allowed : check_export_paths exps pol ≡ ok tt
    imps_run : compile_imports re sharing.imports ≡ ok imps
    exps_run : compile_exports (new_bcpfs cfg) sharing.exports ≡ ok exps
    selected_run : select_imported_exports exps imps ≡ ok s.shares
    same_fs : s.fs ≡ new_bcpfs cfg
    same_reals : s.real_shares ≡ compile_real_shares (new_bcpfs cfg) s.shares
    scopes : check_export_acl_scopes (new_bcpfs cfg) exps ≡ ok tt
    no_nesting : check_no_nesting exps ≡ ok tt
    no_realpath_nesting : check_no_realpath_nesting (new_bcpfs cfg) exps ≡ ok tt

  inversion :
      (cfg : Root) (sharing : Config.Sharing) (s : Sharing)
      → compile_sharing re cfg sharing ≡ ok s
      → Compiled cfg sharing s
  unfolding compile_sharing
  inversion cfg sharing s h =
      let fs = new_bcpfs cfg in
      let (imps, r1, h1) = >>=-eq-ok (lift imports (compile_imports re sharing.imports)) _ h in
      let (exps, r2, h2) = >>=-eq-ok (lift exports (compile_exports fs sharing.exports)) _ h1 in
      let (pol, r3, h3) =
        >>=-eq-ok (lift naming (compile_naming_policy re sharing.naming_policies)) _ h2 in
      let (_, r4, h4) = >>=-eq-ok (lift naming (check_export_paths exps pol)) _ h3 in
      let (u5, r5, h5) = >>=-eq-ok (lift exports (check_export_acl_scopes fs exps)) _ h4 in
      let (u6, r6, h6) = >>=-eq-ok (lift nesting (check_no_nesting exps)) _ h5 in
      let (u7, r7, h7) = >>=-eq-ok (lift nesting (check_no_realpath_nesting fs exps)) _ h6 in
      let (shares, r8, h8) = >>=-eq-ok (lift imports (select_imported_exports exps imps)) _ h7 in
      let e = ok-injective h8 in
      record {
        imps = imps;
        exps = exps;
        pol = pol;
        imps_run = lift-eq-ok imports (compile_imports re sharing.imports) r1;
        exps_run = lift-eq-ok exports (compile_exports fs sharing.exports) r2;
        pol_run = lift-eq-ok naming (compile_naming_policy re sharing.naming_policies) r3;
        allowed = lift-eq-ok naming (check_export_paths exps pol) r4;
        scopes = lift-eq-ok exports (check_export_acl_scopes fs exps) r5;
        no_nesting = lift-eq-ok nesting (check_no_nesting exps) r6;
        no_realpath_nesting = lift-eq-ok nesting (check_no_realpath_nesting fs exps) r7;
        selected_run =
            lift-eq-ok imports (select_imported_exports exps imps) r8 ∙ ap (λ t. ok t.shares) e;
        same_fs = sym (ap (λ t. t.fs) e);
        same_reals = sym (ap (λ t. t.real_shares) e) ∙ ap (λ t. compile_real_shares fs t.shares) e;
      }

  -- With import actions that the config check lets through: when `Compile()` succeeds, the real shares
  -- grant a group a permission on a realpath exactly if some export has this realpath, grants the
  -- group the permission, and is accepted for the group by the import filter.
  pub compile_sharing-grants :
      (cfg : Root) (sharing : Config.Sharing) (s : Sharing)
      → All (λ c. is_valid_import_action c.action ≡ true) sharing.imports
      → compile_sharing re cfg sharing ≡ ok s
      → (imps : ImportFilter) × (exps : Exports) × (compile_imports re sharing.imports ≡ ok imps)
        × (compile_exports (new_bcpfs cfg) sharing.exports ≡ ok exps)
        × ((rp group : Bytes) (p : Permission)
            → path_grants s.real_shares rp group p
              ≡ any
                  (λ e.
                    beq (realpath (new_bcpfs cfg) e.path) rp
                    && (grants e.acl group p && accepts imps e.path group))
                  exps)
  compile_sharing-grants cfg sharing s valid h =
      let c = inversion cfg sharing s h in
      let fs = new_bcpfs cfg in
      let actions =
        import_rules-HasActions 0 sharing.imports c.imps valid
          (unfold compile_imports in c.imps_run) in
      let shares : s.shares ≡ selected c.imps c.exps =
        ok-injective (sym c.selected_run ∙ select_imported_exports_lem c.exps c.imps actions) in
      (
        c.imps,
        c.exps,
        c.imps_run,
        c.exps_run,
        λ rp group p.
            ap (λ r. path_grants r rp group p) (c.same_reals ∙ ap (compile_real_shares fs) shares)
            ∙ path_grants-compile_real_shares fs (selected c.imps c.exps) rp group p
            ∙ any-selected (λ q. beq (realpath fs q) rp) c.imps group p c.exps,
      )
