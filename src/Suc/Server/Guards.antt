-- ===== src/Suc/Server/Guards.antt =====
-- internal/suc/quotad/quotad.go behind pkg/grpc/ucred: what must hold before a command is run.
use bcpfs.Prelude.{
  ℕ, subst, ◌≡◌, refl, sym, List, Bool, true, any, ◌==◌, ◌⊎◌, inl, inr, Bool-cases, Option, none,
  some, false, Option-cases, if◌then◌else◌, Outcome, ok, err,
}
use bcpfs.Prelude.Bytes.{Bytes, codes, beq, beq_iff}
use bcpfs.Suc.Ucred.{
  Ucred, peer, Error, not_unix, no_fd, no_peercred, denied_uid, wrong_filesystem, invalid_scope,
  command_failed, from_context, new_uid_authorizer, authorize_info, authorize, Conn, tcp_conn,
  fd_error, peercred_error, unix_conn, server_handshake,
}
use bcpfs.Suc.Server.{
  QuotaScope, user_quota, group_quota, other_scope, cat, setquota, QuotaServer, SetQuotaRequest,
  Cmd, quota_cmd, limits_text, command_result, new_quota_server, set_quota_authorized, set_quota,
  daemon_set_quota,
}

abbrev uid_test : List ℕ → Ucred → Bool
uid_test uids cred = any (λ u. u == cred.uid) uids

authorize-new_uid_authorizer :
    (uids : List ℕ) (cred : Ucred)
    → authorize (new_uid_authorizer uids) (peer (record { ucred = cred }))
      ≡ (if uid_test uids cred then ok tt else err (denied_uid cred.uid))
unfolding authorize new_uid_authorizer from_context authorize_info
authorize-new_uid_authorizer uids cred = refl

handshake-new_uid_authorizer :
    (uids : List ℕ) (cred : Ucred)
    → server_handshake (some (new_uid_authorizer uids)) (unix_conn cred)
      ≡ (if uid_test uids cred then ok (record { ucred = cred }) else err (denied_uid cred.uid))
unfolding server_handshake new_uid_authorizer authorize_info
handshake-new_uid_authorizer uids cred = elim (Bool-cases (uid_test uids cred)) [
  | inl on ↦ rw (authorize_info, on) refl
  | inr off ↦ rw (authorize_info, off) refl
]

-- The command for a valid request: `cat` if the daemon runs dry; otherwise `setquota` on the filesystem,
-- with the flag of a scope that is that of users or that of groups.
abbrev pub IsCommand : Bool → Bytes → QuotaScope → Cmd → Type 0
IsCommand dry_run filesystem scope cmd =
    ((dry_run ≡ true) × (cmd ≡ cat))
    ⊎ ((dry_run ≡ false)
        × (((scope ≡ user_quota) × (cmd ≡ setquota (codes "--user") filesystem))
            ⊎ ((scope ≡ group_quota) × (cmd ≡ setquota (codes "--group") filesystem))))

-- What the handler returns if the command ends in a state, with or without a failure.
abbrev pub IsResult : {S : Type 0} → S × Option Bytes → S × Outcome Error (Unit {0}) → Type 0
IsResult (after, none) result = result ≡ (after, ok tt)
IsResult (after, some failed) result = result ≡ (after, err (command_failed failed))

command_result-IsResult : {S : Type 0} (ran : S × Option Bytes) → IsResult ran (command_result ran)
unfolding command_result
command_result-IsResult (after, none) = refl
command_result-IsResult (after, some failed) = refl

some_eq : {a b : Cmd} → some a ≡ some b → a ≡ b
some_eq h = cc

live_cmd :
    (scope : QuotaScope) (filesystem : Bytes) (cmd : Cmd)
    → (elim scope [
      | user_quota ↦ some (setquota (codes "--user") filesystem)
      | group_quota ↦ some (setquota (codes "--group") filesystem)
      | other_scope n ↦ none
    ])
      ≡ some cmd
    → ((scope ≡ user_quota) × (cmd ≡ setquota (codes "--user") filesystem))
      ⊎ ((scope ≡ group_quota) × (cmd ≡ setquota (codes "--group") filesystem))
live_cmd user_quota filesystem cmd h = inl (refl, sym (some_eq h))
live_cmd group_quota filesystem cmd h = inr (refl, sym (some_eq h))
live_cmd (other_scope n) filesystem cmd h = absurd (cc h)

quota_cmd-IsCommand :
    (srv : QuotaServer) (scope : QuotaScope) (cmd : Cmd)
    → quota_cmd srv scope ≡ some cmd
    → IsCommand srv.dry_run srv.filesystem scope cmd
unfolding quota_cmd
quota_cmd-IsCommand srv scope cmd h = elim (Bool-cases srv.dry_run) [
  | inl dry ↦ inl (dry, sym (some_eq (rw (quota_cmd, dry) at h)))
  | inr real ↦ inr (real, live_cmd scope srv.filesystem cmd (rw (quota_cmd, real) at h))
]

-- The scope is neither that of users nor that of groups.
abbrev pub IsOther : QuotaScope → Type 0
IsOther scope = (n : ℕ) × (scope ≡ other_scope n)

-- The request is for another filesystem, or the daemon does not run dry and the scope is invalid.
abbrev pub IsInvalid : QuotaServer → SetQuotaRequest → Type 0
IsInvalid srv req =
    (beq req.filesystem srv.filesystem ≡ false) ⊎ ((srv.dry_run ≡ false) × IsOther req.scope)

-- The connection has no peer whose uid both lists have.
abbrev pub IsStranger : List ℕ → List ℕ → Conn → Type 0
IsStranger conn_uids quota_uids (unix_conn cred) =
    (any (λ u. u == cred.uid) conn_uids ≡ false) ⊎ (any (λ u. u == cred.uid) quota_uids ≡ false)
IsStranger conn_uids quota_uids tcp_conn = Unit
IsStranger conn_uids quota_uids fd_error = Unit
IsStranger conn_uids quota_uids peercred_error = Unit

no_cmd :
    (scope : QuotaScope) (filesystem : Bytes)
    → (elim scope [
      | user_quota ↦ some (setquota (codes "--user") filesystem)
      | group_quota ↦ some (setquota (codes "--group") filesystem)
      | other_scope n ↦ none
    ])
      ≡ none
    → IsOther scope
no_cmd user_quota filesystem h = absurd (cc h)
no_cmd group_quota filesystem h = absurd (cc h)
no_cmd (other_scope n) filesystem h = (n, refl)

quota_cmd-eq-none :
    (srv : QuotaServer) (scope : QuotaScope)
    → quota_cmd srv scope ≡ none
    → (srv.dry_run ≡ false) × IsOther scope
unfolding quota_cmd
quota_cmd-eq-none srv scope h = elim (Bool-cases srv.dry_run) [
  | inl dry ↦ absurd (cc (rw (quota_cmd, dry) at h))
  | inr real ↦ (real, no_cmd scope srv.filesystem (rw (quota_cmd, real) at h))
]

module _ {S : Type 0} (run : Cmd → Bytes → S → S × Option Bytes) where
  -- Nothing is run and an error is returned, for the reason.
  abbrev pub IsRefused : Type 0 → S → S × Outcome Error (Unit {0}) → Type 0
  IsRefused Reason s (after, outcome) = Reason × (after ≡ s) × ((e : Error) × (outcome ≡ err e))

  -- The command is run, with the limits of the request on its stdin.
  abbrev pub IsRun : QuotaServer → SetQuotaRequest → S → S × Outcome Error (Unit {0}) → Type 0
  IsRun srv req s result =
      (req.filesystem ≡ srv.filesystem)
      × ((cmd : Cmd) × IsCommand srv.dry_run srv.filesystem req.scope cmd
          × IsResult (run cmd (limits_text req.limits) s) result)

  refused : (s : S) (e : Error) → IsRefused Unit s (s, err e)
  refused s e = (tt, refl, (e, refl))

  because :
      {Reason : Type 0}
      → Reason
      → (s : S) (result : S × Outcome Error (Unit {0})) → IsRefused Unit s result
      → IsRefused Reason s result
  because why s result (_, same, failure) = (why, same, failure)

  set_quota_authorized_lem :
      (srv : QuotaServer) (req : SetQuotaRequest) (s : S)
      → IsRefused (IsInvalid srv req) s (set_quota_authorized run srv req s)
        ⊎ IsRun srv req s (set_quota_authorized run srv req s)
  unfolding set_quota_authorized
  set_quota_authorized_lem srv req s = elim (Bool-cases (beq req.filesystem srv.filesystem)) [
    | inl same ↦ elim (Option-cases (quota_cmd srv req.scope)) [
      | inl off ↦ inl (
          because (inr (quota_cmd-eq-none srv req.scope off)) s (set_quota_authorized run srv req s)
            (rw (same, off) (refused s invalid_scope)))
      | inr (cmd, at) ↦ inr (
        (beq_iff req.filesystem srv.filesystem).0 same,
        (
          cmd,
          quota_cmd-IsCommand srv req.scope cmd at,
          rw (same, at) (command_result-IsResult (run cmd (limits_text req.limits) s)),
        ),
      )
    ]
    | inr other ↦ inl (
        because (inl other) s (set_quota_authorized run srv req s)
          (rw other (refused s wrong_filesystem)))
  ]

  -- A peer that both lists allow gets to the guards of the request.
  admitted :
      (conn_uids quota_uids : List ℕ) (filesystem : Bytes) (dry_run : Bool) (cred : Ucred)
      (req : SetQuotaRequest) (s : S)
      → any (λ u. u == cred.uid) conn_uids ≡ true
      → any (λ u. u == cred.uid) quota_uids ≡ true
      → daemon_set_quota run conn_uids quota_uids filesystem dry_run (unix_conn cred) req s
        ≡ set_quota_authorized run
            (new_quota_server (new_uid_authorizer quota_uids) filesystem dry_run)
            req
            s
  unfolding daemon_set_quota set_quota new_quota_server from_context
  admitted conn_uids quota_uids filesystem dry_run cred req s on quota =
      rw
        (
          daemon_set_quota,
          handshake-new_uid_authorizer conn_uids cred,
          on,
          set_quota,
          authorize-new_uid_authorizer quota_uids cred,
          quota,
        )
        refl

  -- A request on a connection of the daemon is refused with an error, and nothing is run, because the
  -- connection has no peer whose uid both lists have, the request is for another filesystem, or the
  -- scope is invalid and the daemon does not run dry; or the connection is of a Unix domain socket, its peer is one of the uids that may connect and one of
  -- those that may set quota, the filesystem is that of the daemon, and on the limits
  -- `cat` is run if the daemon runs dry, or else `setquota` on the filesystem with the flag of the
  -- scope, which is that of users or that of groups; the result is an error exactly if the command
  -- fails. The daemon never panics.
  pub daemon_set_quota_lem :
      (conn_uids quota_uids : List ℕ) (filesystem : Bytes) (dry_run : Bool) (conn : Conn)
      (req : SetQuotaRequest) (s : S)
      → IsRefused
          (IsStranger conn_uids quota_uids conn
            ⊎ IsInvalid (new_quota_server (new_uid_authorizer quota_uids) filesystem dry_run) req)
          s
          (daemon_set_quota run conn_uids quota_uids filesystem dry_run conn req s)
        ⊎ ((cred : Ucred) × (conn ≡ unix_conn cred)
            × (any (λ u. u == cred.uid) conn_uids ≡ true)
            × (any (λ u. u == cred.uid) quota_uids ≡ true)
            × IsRun
                (new_quota_server (new_uid_authorizer quota_uids) filesystem dry_run)
                req
                s
                (daemon_set_quota run conn_uids quota_uids filesystem dry_run conn req s))
  unfolding daemon_set_quota set_quota server_handshake new_quota_server from_context
  daemon_set_quota_lem conn_uids quota_uids filesystem dry_run tcp_conn req s =
      inl (inl tt, refl, (not_unix, refl))
  daemon_set_quota_lem conn_uids quota_uids filesystem dry_run fd_error req s =
      inl (inl tt, refl, (no_fd, refl))
  daemon_set_quota_lem conn_uids quota_uids filesystem dry_run peercred_error req s =
      inl (inl tt, refl, (no_peercred, refl))
  daemon_set_quota_lem conn_uids quota_uids filesystem dry_run (unix_conn cred) req s =
      elim (Bool-cases (any (λ u. u == cred.uid) conn_uids)) [
        | inr off ↦ inl (
            because (inl (inl off)) s
              (daemon_set_quota run conn_uids quota_uids filesystem dry_run (unix_conn cred) req s)
              (rw (daemon_set_quota, handshake-new_uid_authorizer conn_uids cred, off)
                (refused s (denied_uid cred.uid))))
        | inl on ↦ elim (Bool-cases (any (λ u. u == cred.uid) quota_uids)) [
          | inr off ↦ inl (
              because (inl (inr off)) s
                (daemon_set_quota run conn_uids quota_uids filesystem dry_run (unix_conn cred) req
                  s)
                (rw
                  (
                    daemon_set_quota,
                    handshake-new_uid_authorizer conn_uids cred,
                    on,
                    set_quota,
                    authorize-new_uid_authorizer quota_uids cred,
                    off,
                  )
                  (refused s (denied_uid cred.uid))))
          | inl quota ↦
              let srv = new_quota_server (new_uid_authorizer quota_uids) filesystem dry_run in
              let run_eq = admitted conn_uids quota_uids filesystem dry_run cred req s on quota in
              elim (set_quota_authorized_lem srv req s) [
                | inl (why, same, failure) ↦
                    inl (subst (IsRefused _ s) (sym run_eq) (inr why, same, failure))
                | inr done ↦
                    inr (cred, refl, on, quota, subst (λ r. IsRun srv req s r) (sym run_eq) done)
              ]
        ]
      ]
