-- ===== src/Sharing/Compile.antt =====
-- cmd/bcpfs-perms/bcpsharing/bcpsharing.go: `Compile()`.
pub mod Grants
use bcpfs.Prelude.{Option, none, some, Outcome, ok, err, panic, ◌>>=◌, ◌>>◌, wrap_err}
use bcpfs.Config
use bcpfs.Config.{Root}
use bcpfs.Sharing.{Exports, RealExports}
use bcpfs.Sharing.Bcpfs.{Bcpfs, new_bcpfs}
use bcpfs.Sharing.Regexp.{RegexpPackage}
use bcpfs.Sharing.Imports.{ImportError, compile_imports, select_imported_exports}
use bcpfs.Sharing.Exports.{ExportError, compile_exports, check_export_acl_scopes}
use bcpfs.Sharing.Naming.{NamingError, compile_naming_policy, check_export_paths}
use bcpfs.Sharing.Nesting.{NestingError, check_no_nesting, check_no_realpath_nesting}
use bcpfs.Sharing.RealShares.{compile_real_shares, compile_traversal}
use bcpfs.Sharing.ShareTrees.{ShareTrees, compile_share_trees}

pub record Sharing : Type 0 where
  pub fs : Bcpfs
  pub shares : Exports
  pub real_shares : RealExports
  pub traversal : RealExports
  pub share_trees : ShareTrees

pub data Error : Type 0 where
  imports : ImportError → Error
  exports : ExportError → Error
  naming : NamingError → Error
  nesting : NestingError → Error

-- `if err := …; err != nil { return nil, err }`, into the sum of the errors.
abbrev pub lift {ℓ κ} : {E : Type ℓ} {A : Type κ} → (E → Error) → Outcome E A → Outcome Error A
lift f (ok a) = ok a
lift f (err e) = err (f e)
lift f panic = panic

module _ (re : RegexpPackage) where
  -- `Compile()` with a `sharing` block.
  unfoldable pub compile_sharing : Root → Config.Sharing → Outcome Error Sharing
  compile_sharing cfg sharing = do
    let fs = new_bcpfs cfg
    imps ← lift imports (compile_imports re sharing.imports)
    exps ← lift exports (compile_exports fs sharing.exports)
    pol ← lift naming (compile_naming_policy re sharing.naming_policies)
    lift naming (check_export_paths exps pol)
    lift exports (check_export_acl_scopes fs exps)
    lift nesting (check_no_nesting exps)
    lift nesting (check_no_realpath_nesting fs exps)
    shares ← lift imports (select_imported_exports exps imps)
    let real_shares = compile_real_shares fs shares
    ok (record {
      fs = fs;
      shares = shares;
      real_shares = real_shares;
      traversal = compile_traversal fs shares real_shares;
      share_trees = compile_share_trees fs shares;
    })

  -- Compile(cfg); without a `sharing` block it dereferences nil.
  unfoldable pub compile : Root → Outcome Error Sharing
  unfolding compile_sharing
  compile cfg = elim cfg.sharing [ none ↦ panic | some sharing ↦ compile_sharing cfg sharing ]
