-- ===== src/Sharing/Imports/Selected.antt =====
-- The selected exports grant what the exports grant and the import filter accepts.
use bcpfs.Prelude.{
  ◌≡◌, refl, ap, ◌∙◌, [], ◌∷◌, Bool, true, false, ◌&&◌, ◌||◌, inl, inr, if◌then◌else◌, Outcome, ok,
  panic, any, All, arith, Bool-cases, length, ltb, ◌==◌,
}
use bcpfs.Prelude.Bytes.{Bytes, beq, beq_iff}
use bcpfs.Config.Validate.{is_valid_import_action}
use bcpfs.Sharing.{Ace, Acl, ExportEntry, Exports}
use bcpfs.Sharing.Acl.Grants.{Permission, grants}
use bcpfs.Sharing.Imports.{
  ImportRule, ImportFilter, ImportError, action_accept, action_reject, action_pass, rule_action,
  filter_path_ace, select_aces, select_imported_exports,
}

-- Whether the first rule for the group that matches the path accepts; no such rule is a rejection.
abbrev pub accepts : ImportFilter → Bytes → Bytes → Bool
accepts [] path group = false
accepts (imp ∷ imps) path group =
    if beq group imp.group && imp.matches path
    then beq imp.action action_accept
    else accepts imps path group

-- The actions that the config check lets through.
abbrev pub HasActions : ImportFilter → Type 0
HasActions = All (λ imp. is_valid_import_action imp.action ≡ true)

-- Whether some entry with this path gives `p` to `group`.
abbrev pub path_grants : Exports → Bytes → Bytes → Permission → Bool
path_grants exps path group p = any (λ exp. beq exp.path path && grants exp.acl group p) exps

abbrev answer : Bool → Bytes
answer b = if b then action_accept else action_reject

actions_differ :
    (beq action_pass action_accept ≡ false)
    × (beq action_pass action_reject ≡ false)
    × (beq action_pass action_pass ≡ true)
    × (beq action_accept action_accept ≡ true)
    × (beq action_reject action_accept ≡ false)
    × (beq action_reject action_reject ≡ true)
unfolding beq
actions_differ = (refl, refl, refl, refl, refl, refl)

filter_miss :
    (imp : ImportRule) (imps : ImportFilter) (path : Bytes) (ace : Ace)
    → (beq ace.group imp.group && imp.matches path) ≡ false
    → filter_path_ace (imp ∷ imps) path ace ≡ filter_path_ace imps path ace
unfolding filter_path_ace
filter_miss imp imps path ace miss =
    let passed : rule_action imp path ace ≡ action_pass = unfold rule_action in ground arith in
    rw (passed, actions_differ.0, actions_differ.1, actions_differ.2) refl

filter_hit :
    (imp : ImportRule) (imps : ImportFilter) (path : Bytes) (ace : Ace)
    → (beq ace.group imp.group && imp.matches path) ≡ true
    → is_valid_import_action imp.action ≡ true
    → filter_path_ace (imp ∷ imps) path ace ≡ ok (answer (beq imp.action action_accept))
unfolding filter_path_ace is_valid_import_action
filter_hit imp imps path ace hit valid =
    let given : rule_action imp path ace ≡ imp.action = unfold rule_action in ground arith in
    rw given (ground arith)

-- What `select_aces` makes of the filter's answer.
abbrev keep_or_drop : Bytes → Ace → Acl → Outcome ImportError Acl
keep_or_drop action ace rest =
    if beq action action_accept
    then ok (ace ∷ rest)
    else if beq action action_reject
    then ok rest
    else panic

by_answer :
    (b : Bool) (ace : Ace) (rest : Acl)
    → keep_or_drop (answer b) ace rest ≡ ok (if b then ace ∷ rest else rest)
by_answer true ace rest = rw actions_differ.3 refl
by_answer false ace rest = rw (actions_differ.4, actions_differ.5) refl

filter_path_ace_lem :
    (imps : ImportFilter) (path : Bytes) (ace : Ace)
    → HasActions imps
    → filter_path_ace imps path ace ≡ ok (answer (accepts imps path ace.group))
filter_path_ace_lem [] path ace h = unfold filter_path_ace in refl
filter_path_ace_lem (imp ∷ imps) path ace (h, hs) =
    elim (Bool-cases (beq ace.group imp.group && imp.matches path)) [
      | inl hit ↦ rw (filter_hit imp imps path ace hit h, hit) refl
      | inr miss ↦
          rw (filter_miss imp imps path ace miss, miss) (filter_path_ace_lem imps path ace hs)
    ]

-- The entries of an ACL that the filter accepts.
accepted_aces : ImportFilter → Bytes → Acl → Acl
accepted_aces imps path [] = []
accepted_aces imps path (ace ∷ acl) =
    let rest = accepted_aces imps path acl in
    if accepts imps path ace.group then ace ∷ rest else rest

select_aces_lem :
    (imps : ImportFilter) (path : Bytes) (acl : Acl)
    → HasActions imps
    → select_aces imps path acl ≡ ok (accepted_aces imps path acl)
unfolding select_aces accepted_aces
select_aces_lem imps path [] h = refl
select_aces_lem imps path (ace ∷ acl) h =
    rw (filter_path_ace_lem imps path ace h, select_aces_lem imps path acl h)
      (by_answer (accepts imps path ace.group) ace (accepted_aces imps path acl))

grants-accepted_aces :
    (imps : ImportFilter) (path : Bytes) (acl : Acl) (group : Bytes) (p : Permission)
    → grants (accepted_aces imps path acl) group p ≡ (grants acl group p && accepts imps path group)
unfolding accepted_aces
grants-accepted_aces imps path [] group p = refl
grants-accepted_aces imps path (ace ∷ acl) group p = elim (Bool-cases (beq ace.group group)) [
  | inl same ↦
      let e = (beq_iff ace.group group).0 same in
      rw e (ground (arith, grants-accepted_aces imps path acl group p))
  | inr other ↦ ground (arith, grants-accepted_aces imps path acl group p)
]

grants-empty :
    (acl : Acl) (group : Bytes) (p : Permission)
    → ltb 0 (length acl) ≡ false
    → grants acl group p ≡ false
grants-empty [] group p h = refl
grants-empty (ace ∷ acl) group p h = absurd (ground arith)

-- The selected exports, as a value.
pub selected : ImportFilter → Exports → Exports
selected imps [] = []
selected imps (exp ∷ exps) =
    let rest = selected imps exps in
    let acl = accepted_aces imps exp.path exp.acl in
    if length exp.acl == 0
    then record exp { acl = [] } ∷ rest
    else if ltb 0 (length acl)
    then record exp { acl = acl } ∷ rest
    else rest

pub select_imported_exports_lem :
    (exps : Exports) (imps : ImportFilter)
    → HasActions imps
    → select_imported_exports exps imps ≡ ok (selected imps exps)
unfolding select_imported_exports selected
select_imported_exports_lem [] imps h = refl
select_imported_exports_lem (exp ∷ exps) imps h =
    rw (select_aces_lem imps exp.path exp.acl h, select_imported_exports_lem exps imps h)
      (ground arith)

module _ (t : Bytes → Bool) (imps : ImportFilter) (group : Bytes) (p : Permission) where
  selected-cons :
      (exp : ExportEntry) (exps : Exports)
      → any (λ e. t e.path && grants e.acl group p) (selected imps (exp ∷ exps)) ≡ (
          (t exp.path && grants (accepted_aces imps exp.path exp.acl) group p)
          || any (λ e. t e.path && grants e.acl group p) (selected imps exps))
  unfolding selected
  selected-cons exp exps =
      let acl = accepted_aces imps exp.path exp.acl in
      elim (Bool-cases (length exp.acl == 0)) [
        | inl empty ↦ rw empty (
            ground (
              arith,
              grants-empty exp.acl group p (ground arith),
              grants-accepted_aces imps exp.path exp.acl group p,
            ))
        | inr some_ace ↦ rw some_ace (elim (Bool-cases (ltb 0 (length acl))) [
          | inl kept ↦ rw kept refl
          | inr dropped ↦ rw dropped (ground (arith, grants-empty acl group p dropped))
        ])
      ]

  -- What the selected exports grant on the paths of a test.
  pub any-selected :
      (exps : Exports)
      → any (λ e. t e.path && grants e.acl group p) (selected imps exps)
        ≡ any (λ e. t e.path && (grants e.acl group p && accepts imps e.path group)) exps
  unfolding selected
  any-selected [] = refl
  any-selected (exp ∷ exps) =
      selected-cons exp exps
      ∙ ap
          (λ g.
            (t exp.path && g) || any (λ e. t e.path && grants e.acl group p) (selected imps exps))
          (grants-accepted_aces imps exp.path exp.acl group p)
      ∙ ap (λ b. (t exp.path && (grants exp.acl group p && accepts imps exp.path group)) || b)
          (any-selected exps)

at_path :
    (imps : ImportFilter) (exps : Exports) (path group : Bytes) (p : Permission)
    → any (λ e. beq e.path path && (grants e.acl group p && accepts imps e.path group)) exps
      ≡ (path_grants exps path group p && accepts imps path group)
at_path imps [] path group p = refl
at_path imps (exp ∷ exps) path group p = elim (Bool-cases (beq exp.path path)) [
  | inl same ↦ ground (
    arith,
    at_path imps exps path group p,
    ap (λ t. accepts imps t group) ((beq_iff exp.path path).0 same),
  )
  | inr other ↦ ground (arith, at_path imps exps path group p)
]

path_grants-selected :
    (exps : Exports) (imps : ImportFilter) (path group : Bytes) (p : Permission)
    → path_grants (selected imps exps) path group p
      ≡ (path_grants exps path group p && accepts imps path group)
path_grants-selected exps imps path group p =
    any-selected (λ q. beq q path) imps group p exps ∙ at_path imps exps path group p

-- With the actions that the config check lets through, `selectImportedExports()` returns, without an
-- error or a panic, exports that grant a group a permission on a path exactly if the exports grant it
-- and the first import rule for the group that matches the path accepts.
pub select_imported_exports_exact :
    (exps : Exports) (imps : ImportFilter)
    → HasActions imps
    → (sels : Exports) × (select_imported_exports exps imps ≡ ok sels)
      × ((path group : Bytes) (p : Permission)
          → path_grants sels path group p
            ≡ (path_grants exps path group p && accepts imps path group))
select_imported_exports_exact exps imps h =
    (selected imps exps, select_imported_exports_lem exps imps h, path_grants-selected exps imps)
