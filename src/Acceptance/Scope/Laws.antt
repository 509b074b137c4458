-- ===== src/Acceptance/Scope/Laws.antt =====
-- What the scope check reports.
use mathlib.Core.Option.{some_inj}
use atlas_agent_control_plan.Prelude.{
  ◌≤◌, String, Bool, true, false, not, ◌||◌, ◌≡◌, refl, subst, ◌↔◌, Option, none, some, List, [],
  ◌∷◌, arith, keep_if, All, length, Bool-cases, Option-cases, inl, inr,
}
use atlas_agent_control_plan.Prelude.Json.{Value, Fields, str, arr, obj, get_field, items}
use atlas_agent_control_plan.Prelude.Text.{is_empty}
use atlas_agent_control_plan.Acceptance.Scope.{
  FileChange, ScopePolicy, is_allowed, is_forbidden, check, from_plan, policy_of_lists, texts,
  texts_of,
}

module _ (fnmatchcase : String → String → Bool) (policy : ScopePolicy) where
  -- A change that the policy does not accept.
  abbrev pub is_violation : FileChange → Bool
  is_violation change =
      is_forbidden fnmatchcase policy change.path || not (is_allowed fnmatchcase policy change.path)

  -- The check reports exactly the changes whose path is forbidden or not allowed, in their order and
  -- as often as they stand in the change set; a path that is both allowed and forbidden is reported.
  pub check-keep_if :
      (changes : List FileChange) → check fnmatchcase policy changes ≡ keep_if is_violation changes
  unfolding check
  check-keep_if [] = refl
  check-keep_if (change ∷ rest) = ground (arith, check-keep_if rest)

  -- The check reports nothing exactly where each path is allowed and none is forbidden.
  pub check-empty_iff :
      (changes : List FileChange)
      → (check fnmatchcase policy changes ≡ [])
        ↔ All
            (λ c.
              (is_allowed fnmatchcase policy c.path ≡ true)
              × (is_forbidden fnmatchcase policy c.path ≡ false))
            changes
  unfolding check
  check-empty_iff changes = (to changes, from changes)
    where
      to :
          (changes : List FileChange)
          → check fnmatchcase policy changes ≡ []
          → All
              (λ c.
                (is_allowed fnmatchcase policy c.path ≡ true)
                × (is_forbidden fnmatchcase policy c.path ≡ false))
              changes
      to [] h = tt
      to (c ∷ rest) h = elim (Bool-cases (is_forbidden fnmatchcase policy c.path)) [
        | inl held ↦ absurd (ground (arith, held, h))
        | inr free ↦ elim (Bool-cases (is_allowed fnmatchcase policy c.path)) [
          | inl lets ↦ ((lets, free), to rest (ground (arith, lets, free, h)))
          | inr out ↦ absurd (ground (arith, out, free, h))
        ]
      ]

      from :
          (changes : List FileChange)
          → All
              (λ c.
                (is_allowed fnmatchcase policy c.path ≡ true)
                × (is_forbidden fnmatchcase policy c.path ≡ false))
              changes
          → check fnmatchcase policy changes ≡ []
      from [] h = refl
      from (c ∷ rest) h = ground (arith, h.0, from rest h.1)

texts-nonempty : (raw : List Value) → All (λ t. is_empty t ≡ false) (texts raw)
unfolding texts
texts-nonempty [] = tt
texts-nonempty (str text ∷ rest) = elim (Bool-cases (is_empty text)) [
  | inl held ↦ rw held (texts-nonempty rest)
  | inr free ↦ rw free (free, texts-nonempty rest)
]
texts-nonempty (_ ∷ rest) = texts-nonempty rest

texts_of-nonempty : (raw : Option Value) → All (λ t. is_empty t ≡ false) (texts_of raw)
unfolding texts_of
texts_of-nonempty (some (arr raw)) = texts-nonempty (items raw)
texts_of-nonempty _ = tt

-- The globs of a policy are texts that are not empty, and one at least is allowed.
abbrev pub HasGlobs : ScopePolicy → Type 0
HasGlobs policy =
    (1 ≤ length policy.allowed_globs)
    × All (λ t. is_empty t ≡ false) policy.allowed_globs
    × All (λ t. is_empty t ≡ false) policy.forbidden_globs

policy_of_lists-HasGlobs :
    (allowed forbidden : List String) (policy : ScopePolicy)
    → All (λ t. is_empty t ≡ false) allowed
    → All (λ t. is_empty t ≡ false) forbidden
    → policy_of_lists allowed forbidden ≡ some policy
    → HasGlobs policy
unfolding policy_of_lists
policy_of_lists-HasGlobs [] forbidden policy a f e = cc
policy_of_lists-HasGlobs (glob ∷ rest) forbidden policy a f e =
    subst HasGlobs (some_inj.0 e) (omega arith, a, f)

-- A policy that a plan yields allows something, and none of its globs is the empty text; a plan
-- without an object `scope`, or whose `allowed` holds no nonempty text, yields none.
pub from_plan-globs :
    (plan : Fields) (policy : ScopePolicy) → from_plan plan ≡ some policy → HasGlobs policy
unfolding from_plan
from_plan-globs plan policy h = elim (Option-cases (get_field "scope" plan)) [
  | inl absent ↦ ground (arith, absent, h)
  | inr (scope, there) ↦ of_scope scope (ground (arith, there, h))
]
  where
    of_scope :
        (scope : Value)
        → (elim scope [
          | obj fields ↦
              policy_of_lists
                (texts_of (get_field "allowed" fields))
                (texts_of (get_field "forbidden" fields))
          | _ ↦ none
        ])
          ≡ some policy
        → HasGlobs policy
    of_scope (obj fields) e =
        policy_of_lists-HasGlobs (texts_of (get_field "allowed" fields))
          (texts_of (get_field "forbidden" fields)) policy
          (texts_of-nonempty (get_field "allowed" fields))
          (texts_of-nonempty (get_field "forbidden" fields)) e
    of_scope _ e = cc
