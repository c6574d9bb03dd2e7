-- ===== src/Tests/Daemon.antt =====
-- The theorems on the daemon and its client at concrete inputs.
use Prim.Native.Nat.{◌<◌}
use bcpfs.Prelude.{
  length, ◌≡◌, refl, ℕ, ◌+◌, [], ◌∷◌, true, false, Option, none, any, ◌==◌, ok, err, if◌then◌else◌,
  ◌⊎◌, map, arith,
}
use bcpfs.Prelude.Bytes.{Bytes, codes, split, beq, has_prefix, push}
use bcpfs.Suc.Ucred.{
  Ucred, Atoi, natural, denied_uid, new_uid_authorizer, authorize_info, uint32_list_set, set_uids,
  unix_conn,
}
use bcpfs.Suc.Ucred.Allowed.{gives_uid, authorize_info-uint32_list_set}
use bcpfs.Prelude.Decimal.{decimal, put_digits}
use bcpfs.Suc.Limits.{max_scan_token_size, is_space, Quota, parse}
use bcpfs.Suc.Limits.RoundTrip.{IsPrintable, parse-limits_text}
use bcpfs.Suc.Server.{
  Cmd, SetQuotaRequest, user_quota, limits_text, limit_line, quota_limit, new_quota_server,
  daemon_set_quota,
}
use bcpfs.Suc.Server.Guards.{IsRefused, IsStranger, IsInvalid, IsRun, daemon_set_quota_lem}

abbrev root_peer : Ucred
root_peer = record { pid = 1; uid = 0; gid = 0 }

-- Two numbers that a list may hold.
abbrev read_number : Bytes → Atoi
read_number s = if beq s (codes "4294967296") then natural 4294967296 else natural 1000

abbrev uid_list : Bytes
uid_list = codes "1000,4294967296"

-- The list that allows the uid 0 without naming it.
uid_list_set : uint32_list_set read_number uid_list [] ≡ ok (1000 ∷ 0 ∷ [])
unfolding uint32_list_set set_uids split push beq
uid_list_set = refl

authorize_info-uint32_list_set_example :
    authorize_info (new_uid_authorizer (1000 ∷ 0 ∷ [])) (record { ucred = root_peer }) ≡ (
      if any (λ v. gives_uid 0 (read_number v)) (split uid_list b',')
      then ok tt
      else err (denied_uid 0))
authorize_info-uint32_list_set_example =
    authorize_info-uint32_list_set read_number uid_list (1000 ∷ 0 ∷ [])
      (record { ucred = root_peer }) uid_list_set

abbrev alice_quota : Quota
alice_quota = record {
  xid = codes "alice";
  block_soft_limit = 10;
  block_hard_limit = 20;
  inode_soft_limit = 0;
  inode_hard_limit = 7;
}

alice_fits : length (limit_line (quota_limit alice_quota)) < max_scan_token_size
unfolding limit_line decimal put_digits quota_limit
alice_fits = omega arith

alice_quota-IsPrintable : IsPrintable alice_quota
unfolding is_space has_prefix
alice_quota-IsPrintable = record {
  is_named = λ e. cc e;
  is_word = refl;
  no_comment = refl;
  block_soft_u64 = omega arith;
  block_hard_u64 = omega arith;
  inode_soft_u64 = omega arith;
  inode_hard_u64 = omega arith;
  fits = alice_fits;
}

parse-limits_text_example :
    parse (limits_text (map quota_limit (alice_quota ∷ []))) ≡ ok (alice_quota ∷ [])
parse-limits_text_example = parse-limits_text (alice_quota ∷ []) (alice_quota-IsPrintable, tt)

-- A machine that counts the commands.
abbrev count_run : Cmd → Bytes → ℕ → ℕ × Option Bytes
count_run cmd text n = (n + 1, none)

abbrev alice_request : SetQuotaRequest
alice_request = record {
  filesystem = codes "/orgfs";
  scope = user_quota;
  limits = quota_limit alice_quota ∷ [];
}

daemon_set_quota_lem_example :
    IsRefused count_run
      (IsStranger (0 ∷ []) (0 ∷ []) (unix_conn root_peer)
        ⊎ IsInvalid
            (new_quota_server (new_uid_authorizer (0 ∷ [])) (codes "/orgfs") false)
            alice_request)
      0
      (daemon_set_quota count_run
        (0 ∷ [])
        (0 ∷ [])
        (codes "/orgfs")
        false
        (unix_conn root_peer)
        alice_request
        0)
    ⊎ ((cred : Ucred) × (unix_conn root_peer ≡ unix_conn cred)
        × (any (λ u. u == cred.uid) (0 ∷ []) ≡ true)
        × (any (λ u. u == cred.uid) (0 ∷ []) ≡ true)
        × IsRun count_run
            (new_quota_server (new_uid_authorizer (0 ∷ [])) (codes "/orgfs") false)
            alice_request
            0
            (daemon_set_quota count_run
              (0 ∷ [])
              (0 ∷ [])
              (codes "/orgfs")
              false
              (unix_conn root_peer)
              alice_request
              0))
daemon_set_quota_lem_example =
    daemon_set_quota_lem count_run (0 ∷ []) (0 ∷ []) (codes "/orgfs") false (unix_conn root_peer)
      alice_request 0
