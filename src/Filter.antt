-- ===== src/Filter.antt =====
-- cmd/bcpfs-perms/bcpfilter/bcpfilter.go: which combinations of service and org unit are wanted. The
-- reasons, which are only logged, are not modelled.
pub mod Decisions
use bcpfs.Prelude.{
  ℕ, ◌-◌, ◌+◌, leb, ◌&&◌, List, [], ◌∷◌, ◌++◌, map, Bool, true, false, not, ◌==◌, length, Option,
  none, some, if◌then◌else◌, Outcome, ok, err, panic, ◌>>=◌,
}
use bcpfs.Prelude.Bytes.{Bytes, codes, beq, has_prefix, has_suffix, join}
use bcpfs.Config.{FilterRule}
use bcpfs.Org.{Service, OrgUnit}
use bcpfs.Sharing.Regexp.{RegexpPackage}

pub data Action : Type 0 where
  accept reject pass : Action

-- The two deciders.
pub data Decider : Type 0 where
  same_facility : Decider
  regexp : Action → (Bytes → Bool) → (Bytes → Bool) → Decider

unfoldable pub lower : ℕ → ℕ
lower c = if leb b'A' c && leb c b'Z' then c + 32 else c

-- A text in lower case, where U+017F, the bytes 197 and 191, is an `s`.
unfoldable pub fold_case : Bytes → Bytes
unfolding lower
fold_case [] = []
fold_case (c ∷ []) = lower c ∷ []
fold_case (c ∷ d ∷ s) =
    let rest = fold_case s in
    let next = fold_case (d ∷ s) in if c == 197 && d == 191 then b's' ∷ rest else lower c ∷ next

-- strings.EqualFold(s, t), for a text `t` of ASCII letters without `k`, to which U+212A folds.
unfoldable pub equal_fold : Bytes → Bytes → Bool
unfolding fold_case
equal_fold s t = beq (fold_case s) (fold_case t)

-- ActionFromString(name)
unfoldable pub action_from_string : {E : Type 0} → Bytes → Outcome E Action
unfolding equal_fold
action_from_string name =
    if equal_fold name (codes "accept")
    then ok accept
    else if equal_fold name (codes "reject")
    then ok reject
    else if equal_fold name (codes "pass")
    then ok pass
    else panic

-- (r *SameFacilityDecider) Decide(s, ou)
unfoldable pub same_facility_decide : Service → OrgUnit → Action
same_facility_decide s ou =
    if not ou.is_facility then pass else if has_prefix ou.name s.facility then accept else reject

-- (r *RegexpDecider) Decide(s, ou)
unfoldable pub regexp_decide : Action → (Bytes → Bool) → (Bytes → Bool) → Service → OrgUnit → Action
regexp_decide action service_rgx org_unit_rgx s ou =
    if not (service_rgx s.name) then pass else if not (org_unit_rgx ou.name) then pass else action

unfoldable pub decide : Decider → Service → OrgUnit → Action
unfolding same_facility_decide regexp_decide
decide same_facility s ou = same_facility_decide s ou
decide (regexp action service_rgx org_unit_rgx) s ou =
    regexp_decide action service_rgx org_unit_rgx s ou

-- (f *DecidersFilter) Accept(s, ou)
unfoldable pub accepts : List Decider → Service → OrgUnit → Bool
unfolding decide
accepts [] s ou = false
accepts (r ∷ rules) s ou =
    let rest = accepts rules s ou in
    elim (decide r s ou) [ accept ↦ true | reject ↦ false | pass ↦ rest ]

-- `p[len(p)-1] != '$'`
unfoldable pub anchor_end : Bytes → Bytes
unfolding has_suffix
anchor_end p = if not (has_suffix p (codes "$")) then p ++ codes "$" else p

-- anchoredPattern(p)
unfoldable pub anchored_pattern : Bytes → Bytes
unfolding anchor_end has_prefix
anchored_pattern p =
    if length p == 0
    then codes "^$"
    else anchor_end (if not (has_prefix p (codes "^")) then codes "^" ++ p else p)

-- strings2Pattern(list)
unfoldable pub strings_to_pattern : List Bytes → Bytes
unfolding anchored_pattern join
strings_to_pattern (p ∷ []) = anchored_pattern p
strings_to_pattern ps = anchored_pattern (codes "(" ++ join ps b'|' ++ codes ")")

pub data Error : Type 0 where
  bad_pattern : Bytes → Error

module _ (re : RegexpPackage) where
  unfoldable pub compile_pattern : Bytes → Outcome Error (Bytes → Bool)
  compile_pattern p = elim (re.compile p) [ none ↦ err (bad_pattern p) | some m ↦ ok m ]

  -- NewRegexpDecider(r)
  unfoldable pub new_regexp_decider : FilterRule → Outcome Error Decider
  unfolding compile_pattern action_from_string
  new_regexp_decider r = do
    action ← action_from_string r.action
    service_rgx ← compile_pattern (strings_to_pattern r.services)
    org_unit_rgx ← compile_pattern (strings_to_pattern r.org_units)
    ok (regexp action service_rgx org_unit_rgx)

  -- The loop of MustCompileFilter(cfg) in main.go; an error stops the program.
  unfoldable pub compile_filter : List FilterRule → Outcome Error (List Decider)
  unfolding new_regexp_decider
  compile_filter [] = ok (same_facility ∷ [])
  compile_filter (r ∷ rules) = do d ← new_regexp_decider r; ds ← compile_filter rules; ok (d ∷ ds)
