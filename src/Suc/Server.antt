-- ===== src/Suc/Server.antt =====
-- internal/suc/quotad/quotad.go and internal/suc/statusd/statusd.go: the handlers of the daemon; and how
-- cmd/bcpsucd/bcpsucd.go and cmd/bcpctl/bcpctl.go use them.
pub mod Guards
use bcpfs.Prelude.{
  ℕ, List, [], ◌∷◌, ◌++◌, Bool, true, false, not, Option, none, some, if◌then◌else◌, Outcome, ok,
  err, panic, ◌>>=◌, ◌>>◌, map,
}
use bcpfs.Prelude.Bytes.{Bytes, codes, beq}
use bcpfs.Prelude.Decimal.{decimal}
use bcpfs.Suc.Limits.{Quota}
use bcpfs.Suc.Ucred.{
  Context, peer, AuthInfo, Error, wrong_filesystem, invalid_scope, command_failed, from_context,
  Authorizer, new_uid_authorizer, authorize, Conn, server_handshake,
}

-- pb.QuotaScope; 0 is `UNSPECIFIED`, and a number on the wire that has no name is kept.
pub data QuotaScope : Type 0 where
  user_quota group_quota : QuotaScope
  other_scope : ℕ → QuotaScope

-- pb.QuotaLimit
pub record QuotaLimit : Type 0 where
  pub xid : Bytes
  pub block_soft_limit : ℕ
  pub block_hard_limit : ℕ
  pub inode_soft_limit : ℕ
  pub inode_hard_limit : ℕ

pub record SetQuotaRequest : Type 0 where
  pub filesystem : Bytes
  pub scope : QuotaScope
  pub limits : List QuotaLimit

pub record QuotaServer : Type 0 where
  pub authorizer : Authorizer
  pub filesystem : Bytes
  pub dry_run : Bool

-- NewServer(authz, l, filesystem, dryRun)
unfoldable pub new_quota_server : Authorizer → Bytes → Bool → QuotaServer
new_quota_server authorizer filesystem dry_run = record {
  authorizer = authorizer;
  filesystem = filesystem;
  dry_run = dry_run;
}

-- `cat`, or `setquota <flag> --batch <filesystem>`.
pub data Cmd : Type 0 where
  cat : Cmd
  setquota : Bytes → Bytes → Cmd

-- The switch in SetQuota().
unfoldable pub quota_cmd : QuotaServer → QuotaScope → Option Cmd
quota_cmd srv scope = elim srv.dry_run [
  | true ↦ some cat
  | false ↦ elim scope [
    | user_quota ↦ some (setquota (codes "--user") srv.filesystem)
    | group_quota ↦ some (setquota (codes "--group") srv.filesystem)
    | other_scope n ↦ none
  ]
]

-- The text of one limit.
unfoldable pub limit_line : QuotaLimit → Bytes
limit_line l =
    l.xid
    ++ b' '
      ∷ (decimal l.block_soft_limit
          ++ b' '
            ∷ (decimal l.block_hard_limit
                ++ b' ' ∷ (decimal l.inode_soft_limit ++ b' ' ∷ decimal l.inode_hard_limit)))

-- The loop that fills `buf`.
unfoldable pub limits_text : List QuotaLimit → Bytes
unfolding limit_line
limits_text [] = []
limits_text (l ∷ limits) = limit_line l ++ b'\n' ∷ limits_text limits

-- The outcome of `cmd.CombinedOutput()`; an error has the output in its text.
unfoldable pub command_result : {S : Type 0} → S × Option Bytes → S × Outcome Error (Unit {0})
command_result (s, none) = (s, ok tt)
command_result (s, some failed) = (s, err (command_failed failed))

module _ {S : Type 0} (run : Cmd → Bytes → S → S × Option Bytes) where
  -- From the guard on the filesystem on.
  unfoldable pub set_quota_authorized :
      QuotaServer → SetQuotaRequest → S → S × Outcome Error (Unit {0})
  unfolding quota_cmd limits_text command_result
  set_quota_authorized srv req s =
      if not (beq req.filesystem srv.filesystem)
      then (s, err wrong_filesystem)
      else elim (quota_cmd srv req.scope) [
        | none ↦ (s, err invalid_scope)
        | some cmd ↦ command_result (run cmd (limits_text req.limits) s)
      ]

  -- (s *quotaServer) SetQuota(ctx, req)
  unfoldable pub set_quota :
      QuotaServer → Context → SetQuotaRequest → S → S × Outcome Error (Unit {0})
  unfolding set_quota_authorized
  set_quota srv ctx req s = elim (authorize srv.authorizer ctx) [
    | err e ↦ (s, err e)
    | panic ↦ (s, panic)
    | ok _ ↦ elim (from_context ctx) [
      | none ↦ (s, panic)
      | some info ↦ set_quota_authorized srv req s
    ]
  ]

  -- A request on a connection to the daemon with the given flags: the handshake comes first, and
  -- what it returns is the peer of the context.
  unfoldable pub daemon_set_quota :
      List ℕ → List ℕ → Bytes → Bool → Conn → SetQuotaRequest → S → S × Outcome Error (Unit {0})
  unfolding set_quota new_quota_server
  daemon_set_quota conn_uids quota_uids filesystem dry_run conn req s =
      elim (server_handshake (some (new_uid_authorizer conn_uids)) conn) [
        | err e ↦ (s, err e)
        | panic ↦ (s, panic)
        | ok info ↦
            set_quota (new_quota_server (new_uid_authorizer quota_uids) filesystem dry_run)
              (peer info) req s
      ]

-- (s *StatusServer) version()
unfoldable pub status_version : Bytes → Bytes
status_version [] = codes "unspecified"
status_version (c ∷ version) = c ∷ version

unfoldable pub status_text : Bytes → AuthInfo → Bytes
unfolding status_version
status_text version info =
    codes "version: "
    ++ status_version version
    ++ b'\n' ∷ codes "clientUid: "
    ++ decimal info.ucred.uid
    ++ b'\n' ∷ codes "clientGid: "
    ++ decimal info.ucred.gid
    ++ b'\n' ∷ []

-- (s *StatusServer) Status(ctx, request)
unfoldable pub status : Authorizer → Bytes → Context → Outcome Error Bytes
unfolding status_text
status authorizer version ctx = do
  authorize authorizer ctx
  elim (from_context ctx) [ none ↦ panic | some info ↦ ok (status_text version info) ]

-- The loop of cmdSetquota() of the client.
unfoldable pub quota_limit : Quota → QuotaLimit
quota_limit q = record {
  xid = q.xid;
  block_soft_limit = q.block_soft_limit;
  block_hard_limit = q.block_hard_limit;
  inode_soft_limit = q.inode_soft_limit;
  inode_hard_limit = q.inode_hard_limit;
}

-- The request of `bcpctl setquota`, where either `--user` or `--group` is given.
unfoldable pub client_request : Bytes → Bool → List Quota → SetQuotaRequest
unfolding quota_limit
client_request filesystem group quotas = record {
  filesystem = filesystem;
  scope = if group then group_quota else user_quota;
  limits = map quota_limit quotas;
}
