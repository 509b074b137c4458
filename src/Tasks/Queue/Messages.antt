-- ===== src/Tasks/Queue/Messages.antt =====
-- The rows of agent_queue_messages under the updates of the queue.
use atlas_agent_control_plan.Prelude.{
  ℕ, suc, zero, ◌<◌, Bool, true, false, not, ◌&&◌, ◌≡◌, refl, ap, sym, subst, List, [], ◌∷◌, map,
  take, drop, keep_if, contains, All, arith, nat_eq, nat_beq_iff, ◌==◌, Bool-cases, inl, inr,
}
use atlas_agent_control_plan.Tasks.Entities.{QueuedTaskMessage}
use atlas_agent_control_plan.Tasks.Queue.{
  MessageRow, is_null, is_pending, reserve_row, ids_of, to_message,
}

-- The ids of the messages handed out.
abbrev pub message_ids : List QueuedTaskMessage → List ℕ
message_ids messages = map (λ m. m.id) messages

-- Each row stands before rows of greater ids.
abbrev pub IsOrdered : List MessageRow → Type 0
IsOrdered [] = Unit
IsOrdered (row ∷ rows) = All (λ m. row.id < m.id) rows × IsOrdered rows

-- No row of the id may be handed out by reserve_messages, and none is left to acknowledge.
abbrev pub IsHeld : ℕ → List MessageRow → Type 0
IsHeld id rows = All (λ m. (m.id == id && is_pending m) ≡ false) rows

abbrev pub IsFinished : ℕ → List MessageRow → Type 0
IsFinished id rows = All (λ m. (m.id == id && is_null m.acknowledged_at) ≡ false) rows

module _ {ℓ κ μ} {A : Type ℓ} (P : A → Type κ) (Q : A → Type μ) where
  pub All-map :
      (f : A → A) → ((a : A) → P a → Q (f a)) → (xs : List A) → All P xs → All Q (map f xs)
  All-map f h [] p = tt
  All-map f h (x ∷ xs) p = (h x p.0, All-map f h xs p.1)

  pub All-weaken : ((a : A) → P a → Q a) → (xs : List A) → All P xs → All Q xs
  All-weaken h [] p = tt
  All-weaken h (x ∷ xs) p = (h x p.0, All-weaken h xs p.1)

module _ {ℓ κ} {A : Type ℓ} (P : A → Type κ) where
  pub All-take : (n : ℕ) (xs : List A) → All P xs → All P (take n xs)
  All-take zero xs p = tt
  All-take (suc n) [] p = tt
  All-take (suc n) (x ∷ xs) p = (p.0, All-take n xs p.1)

  pub All-keep_if : (q : A → Bool) (xs : List A) → All P xs → All P (keep_if q xs)
  All-keep_if q [] p = tt
  All-keep_if q (x ∷ xs) p = elim (Bool-cases (q x)) [
    | inl kept ↦ rw kept (p.0, All-keep_if q xs p.1)
    | inr left ↦ rw left (All-keep_if q xs p.1)
  ]

  pub keep_if-All-both :
      (q : A → Bool) (xs : List A) → All P xs → All (λ a. P a × (q a ≡ true)) (keep_if q xs)
  keep_if-All-both q [] p = tt
  keep_if-All-both q (x ∷ xs) p = elim (Bool-cases (q x)) [
    | inl kept ↦ rw kept ((p.0, kept), keep_if-All-both q xs p.1)
    | inr left ↦ rw left (keep_if-All-both q xs p.1)
  ]

module _ {ℓ} {A : Type ℓ} where
  pub keep_if-true :
      (q : A → Bool) (x : A) (xs : List A) → q x ≡ true → keep_if q (x ∷ xs) ≡ x ∷ keep_if q xs
  keep_if-true q x xs h = rw h refl

  pub keep_if-false :
      (q : A → Bool) (x : A) (xs : List A) → q x ≡ false → keep_if q (x ∷ xs) ≡ keep_if q xs
  keep_if-false q x xs h = rw h refl

-- Rows of other ids hand out none of the id.
pub not_handed :
    (id : ℕ) (rows : List MessageRow)
    → All (λ m. (m.id == id) ≡ false) rows
    → contains id (message_ids (map to_message rows)) ≡ false
unfolding to_message
not_handed id [] h = refl
not_handed id (row ∷ rows) h = rw (h.0) (not_handed id rows h.1)

pub message_ids-map : (rows : List MessageRow) → message_ids (map to_message rows) ≡ ids_of rows
unfolding to_message
message_ids-map [] = refl
message_ids-map (row ∷ rows) = ap (λ ids. row.id ∷ ids) (message_ids-map rows)

pub reserve_row-pending :
    (ids : List ℕ) (now : ℕ) (m : MessageRow)
    → is_pending (reserve_row ids now m) ≡ (not (contains m.id ids) && is_pending m)
unfolding is_pending reserve_row is_null
reserve_row-pending ids now m = ground arith

pub reserve_row-id : (ids : List ℕ) (now : ℕ) (m : MessageRow) → (reserve_row ids now m).id ≡ m.id
unfolding reserve_row
reserve_row-id ids now m = ground arith

pub reserve_row-acknowledged :
    (ids : List ℕ) (now : ℕ) (m : MessageRow)
    → (reserve_row ids now m).acknowledged_at ≡ m.acknowledged_at
unfolding reserve_row
reserve_row-acknowledged ids now m = ground arith

-- An id before all rows does not count among those reserved.
reserve_row-skips :
    (id : ℕ) (ids : List ℕ) (now : ℕ) (rows : List MessageRow)
    → All (λ m. id < m.id) rows
    → map (reserve_row (id ∷ ids) now) rows ≡ map (reserve_row ids now) rows
unfolding reserve_row
reserve_row-skips id ids now [] h = refl
reserve_row-skips id ids now (row ∷ rows) h =
    ground (arith, h.0, reserve_row-skips id ids now rows h.1)

reserve_row-none : (now : ℕ) (rows : List MessageRow) → map (reserve_row [] now) rows ≡ rows
unfolding reserve_row
reserve_row-none now [] = refl
reserve_row-none now (row ∷ rows) = ap (λ xs. row ∷ xs) (reserve_row-none now rows)

pub still_held :
    (ids : List ℕ) (now : ℕ) (row : MessageRow)
    → is_pending row ≡ false
    → is_pending (reserve_row ids now row) ≡ false
still_held ids now row held = ground (arith, reserve_row-pending ids now row, held)

now_held :
    (ids : List ℕ) (now : ℕ) (row : MessageRow)
    → is_pending (reserve_row (row.id ∷ ids) now row) ≡ false
now_held ids now row =
    ground (arith, reserve_row-pending (row.id ∷ ids) now row, nat_beq_iff row.id row.id)

-- Reserving the first rows of `kept` leaves its others pending.
abbrev LosesFirst : ℕ → ℕ → MessageRow → List MessageRow → List MessageRow → Type 0
LosesFirst n now row rows kept =
    keep_if is_pending (map (reserve_row (ids_of (take (suc n) kept)) now) (row ∷ rows))
    ≡ drop (suc n) kept

-- The first n pending rows are the ones that stop being pending.
pub pending-reserve :
    (n now : ℕ) (rows : List MessageRow)
    → IsOrdered rows
    → keep_if is_pending (map (reserve_row (ids_of (take n (keep_if is_pending rows))) now) rows)
      ≡ drop n (keep_if is_pending rows)
pending-reserve zero now rows h = ap (keep_if is_pending) (reserve_row-none now rows)
pending-reserve (suc n) now [] h = refl
pending-reserve (suc n) now (row ∷ rows) h = elim (Bool-cases (is_pending row)) [
  | inr held ↦ subst (LosesFirst n now row rows) (sym (keep_if-false is_pending row rows held)) (
      rw (still_held (ids_of (take (suc n) (keep_if is_pending rows))) now row held)
        (pending-reserve (suc n) now rows h.1))
  | inl free ↦ subst (LosesFirst n now row rows) (sym (keep_if-true is_pending row rows free)) (
      rw
        (
          now_held (ids_of (take n (keep_if is_pending rows))) now row,
          reserve_row-skips row.id (ids_of (take n (keep_if is_pending rows))) now rows h.0,
        )
        (pending-reserve n now rows h.1))
]
