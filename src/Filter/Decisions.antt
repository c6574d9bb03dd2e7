-- ===== src/Filter/Decisions.antt =====
-- cmd/bcpfs-perms/bcpfilter/bcpfilter.go: which rule of the filter decides.
use bcpfs.Prelude.{
  ◌≡◌, ◌↔◌, refl, ap, sym, ◌∙◌, subst, List, [], ◌∷◌, ◌++◌, Bool, true, false, not, ◌&&◌, All,
  if◌then◌else◌, ok, >>=-eq-ok, ok-injective, Bool-cases, Option-cases, ◌⊎◌, inl, inr, none, some,
  arith,
}
use bcpfs.Prelude.Bytes.{Bytes, codes, beq, beq_iff, has_prefix}
use bcpfs.Config.{FilterRule}
use bcpfs.Org.{Service, OrgUnit}
use bcpfs.Sharing.Regexp.{RegexpPackage}
use bcpfs.Filter.{
  Action, accept, reject, pass, Decider, same_facility, regexp_decide, decide, accepts,
  action_from_string, equal_fold, fold_case, lower, strings_to_pattern, new_regexp_decider,
  compile_pattern, compile_filter,
}

Action-cases : (a : Action) → (a ≡ accept) ⊎ ((a ≡ reject) ⊎ (a ≡ pass))
Action-cases accept = inl refl
Action-cases reject = inr (inl refl)
Action-cases pass = inr (inr refl)

module _ (s : Service) (ou : OrgUnit) where
  -- A decider accepts, and all before it pass.
  abbrev pub AcceptsFirst : List Decider → Type 0
  AcceptsFirst rules =
      (before : List Decider) × (r : Decider) × (after : List Decider) × (rules
        ≡ before ++ r ∷ after)
      × All (λ d. decide d s ou ≡ pass) before
      × (decide r s ou ≡ accept)

  accepts-first : (rules : List Decider) → accepts rules s ou ≡ true → AcceptsFirst rules
  unfolding accepts
  accepts-first [] e = absurd (cc)
  accepts-first (r ∷ rules) e = elim (Action-cases (decide r s ou)) [
    | inl good ↦ ([], r, rules, refl, tt, good)
    | inr (inl bad) ↦ absurd (cc (rw (bad, accepts) at e))
    | inr (inr passed) ↦
        let (before, d, after, at, passes, good) =
          accepts-first rules (rw (passed, accepts) at e) in
        (r ∷ before, d, after, ap (λ l. r ∷ l) at, (passed, passes), good)
  ]

  first-accepts :
      (before : List Decider) (r : Decider) (after : List Decider)
      → All (λ d. decide d s ou ≡ pass) before
      → decide r s ou ≡ accept
      → accepts (before ++ r ∷ after) s ou ≡ true
  unfolding accepts
  first-accepts [] r after passes e = rw (e, accepts) refl
  first-accepts (d ∷ before) r after (passed, passes) e =
      rw (passed, accepts) (first-accepts before r after passes e)

-- The filter accepts a service for an org unit if and only if one of its deciders accepts and all
-- deciders before that one pass.
pub accepts_iff :
    (rules : List Decider) (s : Service) (ou : OrgUnit)
    → (accepts rules s ou ≡ true) ↔ AcceptsFirst s ou rules
accepts_iff rules s ou = (
  accepts-first s ou rules,
  λ (before, r, after, at, passes, good).
      subst (λ l. accepts l s ou ≡ true) (sym at) (first-accepts s ou before r after passes good),
)

abbrev is_pass : Action → Bool
is_pass accept = false
is_pass reject = false
is_pass pass = true

abbrev is_accept : Action → Bool
is_accept accept = true
is_accept reject = false
is_accept pass = false

-- A text is not both of two words, up to case.
equal_fold_other :
    (s t u : Bytes)
    → equal_fold s t ≡ true
    → beq (fold_case t) (fold_case u) ≡ false
    → equal_fold s u ≡ false
unfolding equal_fold
equal_fold_other s t u e apart =
    subst (λ l. beq l (fold_case u) ≡ false) (sym ((beq_iff (fold_case s) (fold_case t)).0 e)) apart

word_of_action :
    {E : Type 0} (name : Bytes) (a : Action)
    → action_from_string {E = E} name ≡ ok a
    → (equal_fold name (codes "pass") ≡ is_pass a)
      × (is_pass a ≡ false → equal_fold name (codes "accept") ≡ is_accept a)
unfolding action_from_string equal_fold fold_case lower beq
word_of_action name a e = elim (Bool-cases (equal_fold name (codes "accept"))) [
  | inl here ↦
      let at : accept ≡ a = ok-injective (rw (here, action_from_string) at e) in
      subst
        (λ t.
          (equal_fold name (codes "pass") ≡ is_pass t)
          × (is_pass t ≡ false → equal_fold name (codes "accept") ≡ is_accept t))
        at (equal_fold_other name (codes "accept") (codes "pass") here refl, λ _. here)
  | inr not_accept ↦ elim (Bool-cases (equal_fold name (codes "reject"))) [
    | inl here ↦
        let at : reject ≡ a = ok-injective (rw (not_accept, here, action_from_string) at e) in
        subst
          (λ t.
            (equal_fold name (codes "pass") ≡ is_pass t)
            × (is_pass t ≡ false → equal_fold name (codes "accept") ≡ is_accept t))
          at (equal_fold_other name (codes "reject") (codes "pass") here refl, λ _. not_accept)
    | inr not_reject ↦ elim (Bool-cases (equal_fold name (codes "pass"))) [
      | inl here ↦
          let at : pass ≡ a =
            ok-injective (rw (not_accept, not_reject, here, action_from_string) at e) in
          subst
            (λ t.
              (equal_fold name (codes "pass") ≡ is_pass t)
              × (is_pass t ≡ false → equal_fold name (codes "accept") ≡ is_accept t))
            at (here, λ _. not_accept)
      | inr neither ↦ absurd (cc (rw (not_accept, not_reject, neither, action_from_string) at e))
    ]
  ]
]

-- What one decision makes of the answer of the later deciders.
abbrev outcome : Action → Bool → Bool
outcome accept rest = true
outcome reject rest = false
outcome pass rest = rest

regexp_outcome :
    (a : Action) (m m' : Bytes → Bool) (s : Service) (ou : OrgUnit) (rest : Bool)
    {p q is_p is_a : Bool}
    → p ≡ m s.name
    → q ≡ m' ou.name
    → is_p ≡ is_pass a
    → (is_pass a ≡ false → is_a ≡ is_accept a)
    → outcome (regexp_decide a m m' s ou) rest ≡ (if p && q && not is_p then is_a else rest)
unfolding regexp_decide
regexp_outcome accept m m' s ou rest ep eq e_pass e_accept = ground (arith, e_accept refl)
regexp_outcome reject m m' s ou rest ep eq e_pass e_accept = ground (arith, e_accept refl)
regexp_outcome pass m m' s ou rest ep eq e_pass e_accept = ground arith

accepts_cons :
    (r : Decider) (rules : List Decider) (s : Service) (ou : OrgUnit)
    → accepts (r ∷ rules) s ou ≡ outcome (decide r s ou) (accepts rules s ou)
unfolding accepts
accepts_cons r rules s ou = elim (Action-cases (decide r s ou)) [
  | inl e ↦ rw (e, accepts) refl
  | inr (inl e) ↦ rw (e, accepts) refl
  | inr (inr e) ↦ rw (e, accepts) refl
]

module _ (re : RegexpPackage) where
  -- The pattern of the list compiles, and matches the name.
  abbrev pub listed : List Bytes → Bytes → Bool
  listed patterns name = elim (re.compile (strings_to_pattern patterns)) [
    | none ↦ false
    | some matches ↦ matches name
  ]

  -- The first rule that lists the service and the org unit, and does not pass, decides. Without
  -- one, only the org unit of a facility is let in, to the services of the facility.
  abbrev pub verdict : List FilterRule → Service → OrgUnit → Bool
  verdict [] s ou = ou.is_facility && has_prefix ou.name s.facility
  verdict (r ∷ rules) s ou =
      if listed r.services s.name
        && listed r.org_units ou.name
        && not (equal_fold r.action (codes "pass"))
      then equal_fold r.action (codes "accept")
      else verdict rules s ou

  compiled_pattern :
      (patterns : List Bytes) (m : Bytes → Bool)
      → compile_pattern re (strings_to_pattern patterns) ≡ ok m
      → (name : Bytes) → listed patterns name ≡ m name
  unfolding compile_pattern
  compiled_pattern patterns m e name =
      elim (Option-cases (re.compile (strings_to_pattern patterns))) [
        | inl missing ↦ absurd (cc (rw (missing, compile_pattern) at e))
        | inr (m', found) ↦
            let same_m : m' ≡ m = ok-injective (rw (found, compile_pattern) at e) in
            rw (found, listed) (ap (λ t. t name) same_m)
      ]

  verdict-decide :
      (r : FilterRule) (d : Decider) (s : Service) (ou : OrgUnit) (rest : Bool)
      → new_regexp_decider re r ≡ ok d
      → outcome (decide d s ou) rest ≡ (
          if listed r.services s.name
            && listed r.org_units ou.name
            && not (equal_fold r.action (codes "pass"))
          then equal_fold r.action (codes "accept")
          else rest)
  unfolding new_regexp_decider decide
  verdict-decide r d s ou rest e =
      let (action, e_action, e1) = >>=-eq-ok _ _ e in
      let (m, e_services, e2) = >>=-eq-ok _ _ e1 in
      let (m', e_org_units, e3) = >>=-eq-ok _ _ e2 in
      let (passes, accepted) = word_of_action r.action action e_action in
      subst
        (λ t. outcome (decide t s ou) rest ≡ (
          if listed r.services s.name
            && listed r.org_units ou.name
            && not (equal_fold r.action (codes "pass"))
          then equal_fold r.action (codes "accept")
          else rest))
        (ok-injective e3)
        (regexp_outcome action m m' s ou rest (compiled_pattern r.services m e_services s.name)
          (compiled_pattern r.org_units m' e_org_units ou.name) passes accepted)

  -- A filter that is compiled from rules decides for every service and org unit as the rules say:
  -- the first rule that lists both and does not pass accepts or rejects. Without such a rule an org
  -- unit is accepted if it is one of a facility and its name starts with the name of the service's
  -- facility, whether or not that facility is its own: `emx-facility` is let in to the services of
  -- `em`.
  pub accepts-compile_filter :
      (rules : List FilterRule) (ds : List Decider) (s : Service) (ou : OrgUnit)
      → compile_filter re rules ≡ ok ds
      → accepts ds s ou ≡ verdict rules s ou
  unfolding accepts compile_filter
  accepts-compile_filter [] ds s ou e =
      subst (λ l. accepts l s ou ≡ verdict [] s ou) (ok-injective e)
        (ground (arith, accepts_cons same_facility [] s ou))
  accepts-compile_filter (r ∷ rules) ds s ou e =
      let (d, e_d, e1) = >>=-eq-ok _ _ e in
      let (ds', e_ds, e2) = >>=-eq-ok _ _ e1 in
      subst (λ l. accepts l s ou ≡ verdict (r ∷ rules) s ou) (ok-injective e2)
        (accepts_cons d ds' s ou
          ∙ ap (outcome (decide d s ou)) (accepts-compile_filter rules ds' s ou e_ds)
          ∙ verdict-decide r d s ou (verdict rules s ou) e_d)
