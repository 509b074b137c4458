-- ===== src/Tasks/Runner/Polls.antt =====
-- The messages that the runner starts: no task twice at a time.
use text.Mathlib.TextEquality.{eq_iff}
use atlas_agent_control_plan.Prelude.{
  ℕ, String, false, ◌≡◌, refl, ap, ◌∙◌, sym, List, [], ◌∷◌, ◌++◌, map, contains, arith, string_eq,
  Bool-cases, inl, inr,
}
use atlas_agent_control_plan.Prelude.Filters.{contains-append}
use atlas_agent_control_plan.Prelude.Int.{pos}
use atlas_agent_control_plan.Tasks.Entities.{QueuedTaskMessage}
use atlas_agent_control_plan.Tasks.Queue.{Queue, reclaim_stale_messages, reserve_messages}
use atlas_agent_control_plan.Tasks.Runner.{task_key, start_messages, poll}

-- The list has no element twice.
abbrev pub HasNoRepeats : List String → Type 0
HasNoRepeats [] = Unit
HasNoRepeats (x ∷ xs) = (contains x xs ≡ false) × HasNoRepeats xs

append-HasNoRepeats :
    (xs : List String) (x : String)
    → HasNoRepeats xs
    → contains x xs ≡ false
    → HasNoRepeats (xs ++ x ∷ [])
append-HasNoRepeats [] x h new = (refl, tt)
append-HasNoRepeats (y ∷ ys) x h new = (
  ground (arith, contains-append y ys (x ∷ []), h.0, new, eq_iff x y, eq_iff y x),
  append-HasNoRepeats ys x h.1 (ground (arith, new)),
)

append_assoc {ℓ} : {A : Type ℓ} (xs ys zs : List A) → (xs ++ ys) ++ zs ≡ xs ++ (ys ++ zs)
append_assoc [] ys zs = refl
append_assoc (x ∷ xs) ys zs = ap (λ rest. x ∷ rest) (append_assoc xs ys zs)

module _ (to_text : ℕ → String) where
  -- The tasks that are active once the messages started are those before with theirs, none twice.
  abbrev pub Starts : List String → List String → List QueuedTaskMessage → Type 0
  Starts active active' started =
      (active' ≡ active ++ map (task_key to_text) started) × HasNoRepeats active'

  start_messages-Starts :
      (messages : List QueuedTaskMessage) (active : List String)
      → HasNoRepeats active
      → Starts active
          (start_messages to_text messages active).0
          (start_messages to_text messages active).1
  unfolding start_messages
  start_messages-Starts [] active h = (sym (append-nil active), h)
    where
      append-nil : (xs : List String) → xs ++ [] ≡ xs
      append-nil [] = refl
      append-nil (x ∷ xs) = ap (λ rest. x ∷ rest) (append-nil xs)
  start_messages-Starts (message ∷ messages) active h =
      elim (Bool-cases (contains (task_key to_text message) active)) [
        | inl busy ↦ rw busy (start_messages-Starts messages active h)
        | inr free ↦
            let rest =
              start_messages-Starts messages (active ++ task_key to_text message ∷ [])
                (append-HasNoRepeats active (task_key to_text message) h free) in
            rw free (
              rest.0
                  ∙ append_assoc active (task_key to_text message ∷ []) (map (task_key to_text) _),
              rest.1,
            )
      ]

  map-append :
      (xs ys : List QueuedTaskMessage)
      → map (task_key to_text) (xs ++ ys) ≡ map (task_key to_text) xs ++ map (task_key to_text) ys
  map-append [] ys = refl
  map-append (x ∷ xs) ys = ap (λ rest. task_key to_text x ∷ rest) (map-append xs ys)

  -- A poll, where no task ends while it asks the queue, starts no task that is active, and none twice,
  -- though stale messages and a new one may name the same: the active tasks grow by exactly those started and stay without repeats.
  pub poll-Starts :
      (claim_idle asked now : ℕ) (q : Queue) (active : List String)
      → HasNoRepeats active
      → Starts active
          (poll to_text claim_idle asked now q active).1
          (poll to_text claim_idle asked now q active).2
  unfolding poll
  poll-Starts claim_idle asked now q active h =
      let stale = (reclaim_stale_messages claim_idle (pos 100) asked now q).0 in
      let q' = (reclaim_stale_messages claim_idle (pos 100) asked now q).1 in
      let first = start_messages-Starts stale active h in
      let restarted = start_messages to_text stale active in
      let fresh = (reserve_messages (pos 1) now q').0 in
      let second = start_messages-Starts fresh restarted.0 first.1 in
      (
        second.0
            ∙ ap (λ xs. xs ++ map (task_key to_text) (start_messages to_text fresh restarted.0).1)
                first.0
            ∙ append_assoc active (map (task_key to_text) restarted.1) _
            ∙ ap (λ xs. active ++ xs)
                (sym (map-append restarted.1 (start_messages to_text fresh restarted.0).1)),
        second.1,
      )
