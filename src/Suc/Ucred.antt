-- ===== src/Suc/Ucred.antt =====
-- pkg/grpc/ucred/: authorization by the credentials of the peer of a Unix domain socket, and the lists
-- of uids of cmd/bcpsucd/bcpsucd.go.
pub mod Allowed
use bcpfs.Prelude.{
  ℕ, ◌%◌, ◌^◌, List, [], ◌∷◌, ◌++◌, Bool, true, false, ◌==◌, any, Option, none, some, if◌then◌else◌,
  Outcome, ok, err, panic, ◌>>=◌, ◌>>◌,
}
use bcpfs.Prelude.Bytes.{Bytes, split}

-- syscall.Ucred
pub record Ucred : Type 0 where
  pub pid : ℕ
  pub uid : ℕ
  pub gid : ℕ

pub record AuthInfo : Type 0 where
  pub ucred : Ucred

-- What grpc/peer finds in a context: no peer, a peer with other auth info, or ours.
pub data Context : Type 0 where
  no_peer other_peer : Context
  peer : AuthInfo → Context

pub data Error : Type 0 where
  service_disabled missing_ucred : Error
  denied_uid : ℕ → Error
  not_unix no_fd no_peercred missing_authorizer : Error
  wrong_filesystem invalid_scope : Error
  command_failed : Bytes → Error
  invalid_syntax negative_int : Error

-- FromContext(ctx)
unfoldable pub from_context : Context → Option AuthInfo
from_context no_peer = none
from_context other_peer = none
from_context (peer info) = some info

-- AnyAuthorizer, NoneAuthorizer and UidAuthorizer, with the keys of its map.
pub data Authorizer : Type 0 where
  any_authorizer none_authorizer : Authorizer
  uid_authorizer : List ℕ → Authorizer

-- NewUidAuthorizer(uids...)
unfoldable pub new_uid_authorizer : List ℕ → Authorizer
new_uid_authorizer uids = uid_authorizer uids

-- AuthorizeInfo(info) of each authorizer.
unfoldable pub authorize_info : Authorizer → AuthInfo → Outcome Error (Unit {0})
authorize_info any_authorizer info = ok tt
authorize_info none_authorizer info = err service_disabled
authorize_info (uid_authorizer uids) info =
    if any (λ u. u == info.ucred.uid) uids then ok tt else err (denied_uid info.ucred.uid)

-- Authorize(ctx) of each authorizer.
unfoldable pub authorize : Authorizer → Context → Outcome Error (Unit {0})
unfolding from_context
authorize any_authorizer ctx = ok tt
authorize none_authorizer ctx = err service_disabled
authorize (uid_authorizer uids) ctx = elim (from_context ctx) [
  | none ↦ err missing_ucred
  | some info ↦ authorize_info (uid_authorizer uids) info
]

-- A connection: not of a Unix domain socket, or one that gives no file descriptor, whose
-- `SO_PEERCRED` fails, or that has a peer.
pub data Conn : Type 0 where
  tcp_conn fd_error peercred_error : Conn
  unix_conn : Ucred → Conn

-- (creds *SoPeerCred) ServerHandshake(conn); `none` is a missing authorizer.
unfoldable pub server_handshake : Option Authorizer → Conn → Outcome Error AuthInfo
server_handshake authorizer tcp_conn = err not_unix
server_handshake authorizer fd_error = err no_fd
server_handshake authorizer peercred_error = err no_peercred
server_handshake none (unix_conn cred) = err missing_authorizer
server_handshake (some authorizer) (unix_conn cred) = do
  authorize_info authorizer (record { ucred = cred })
  ok (record { ucred = cred })

-- The result of `strconv.Atoi()`, which is an int.
pub data Atoi : Type 0 where
  no_int negative : Atoi
  natural : ℕ → Atoi

-- The loop of (l *uint32List) Set(value), where `uint32(i)` keeps the low 32 bits.
unfoldable pub set_uids : (Bytes → Atoi) → List Bytes → List ℕ → Outcome Error (List ℕ)
set_uids atoi [] l = ok l
set_uids atoi (v ∷ vs) l = elim (atoi v) [
  | no_int ↦ err invalid_syntax
  | negative ↦ err negative_int
  | natural i ↦ set_uids atoi vs (l ++ (i % 2 ^ 32) ∷ [])
]

unfoldable pub uint32_list_set : (Bytes → Atoi) → Bytes → List ℕ → Outcome Error (List ℕ)
unfolding set_uids
uint32_list_set atoi value l = set_uids atoi (split value b',') l
