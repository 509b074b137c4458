-- ===== src/Tasks/Queue/Recovery.antt =====
-- What a crash of the consumer leaves to be handed out: stale messages, and those found at a start.
use atlas_agent_control_plan.Prelude.{
  ℕ, zero, suc, ◌+◌, ◌<◌, ◌≤◌, Bool, true, false, ◌≡◌, refl, ap, ◌∙◌, sym, subst, List, [], ◌∷◌,
  ◌++◌, map, take, drop, keep_if, contains, length, arith, nat_eq, nat_beq_iff, ◌==◌, Bool-cases,
  inl, inr,
}
use atlas_agent_control_plan.Prelude.Int.{ℤ, pos}
use atlas_agent_control_plan.Tasks.Entities.{QueuedTaskMessage}
use atlas_agent_control_plan.Tasks.Queue.{
  Queue, MessageRow, start, reserve_messages, reclaim_stale_messages, hand_out, is_pending, is_null,
  is_stale, reserved_before, release, reserve_row, ids_of, to_message, limit_of,
}
use atlas_agent_control_plan.Tasks.Queue.Messages.{
  message_ids, message_ids-map, IsOrdered, reserve_row-id, pending-reserve, keep_if-true,
  keep_if-false,
}
use atlas_agent_control_plan.Tasks.Queue.Calls.{IsNumbered}
use atlas_agent_control_plan.Tasks.Queue.Histories.{IsOrdered-map}

take_all {ℓ} : {A : Type ℓ} (n : ℕ) (xs : List A) → length xs ≤ n → take n xs ≡ xs
take_all zero [] h = refl
take_all zero (x ∷ xs) h = absurd (omega (arith, h))
take_all (suc n) [] h = refl
take_all (suc n) (x ∷ xs) h = ap (λ ys. x ∷ ys) (take_all n xs (omega (arith, h)))

contains-take :
    (id n : ℕ) (rows : List MessageRow)
    → contains id (ids_of (take n rows)) ≡ true
    → contains id (ids_of rows) ≡ true
contains-take id zero rows h = cc
contains-take id (suc n) [] h = cc
contains-take id (suc n) (row ∷ rows) h = ground (arith, h, contains-take id n rows)

-- A pending row that is reserved at `now` is stale once the idle time is over.
reserved-stale :
    (ids : List ℕ) (now claim_idle asked : ℕ) (m : MessageRow)
    → is_pending m ≡ true
    → contains m.id ids ≡ true
    → now + claim_idle < asked
    → is_stale asked claim_idle (reserve_row ids now m) ≡ true
unfolding is_pending is_stale reserve_row is_null reserved_before
reserved-stale ids now claim_idle asked m p h later = ground (arith, p, h, later)

found-first :
    (id : ℕ) (test : MessageRow → Bool) (row : MessageRow) (rows : List MessageRow)
    → test row ≡ true
    → (row.id == id) ≡ true
    → contains id (ids_of (keep_if test (row ∷ rows))) ≡ true
found-first id test row rows h same = rw (keep_if-true test row rows h, same) refl

found-later :
    (id : ℕ) (test : MessageRow → Bool) (row : MessageRow) (rows : List MessageRow)
    → contains id (ids_of (keep_if test rows)) ≡ true
    → contains id (ids_of (keep_if test (row ∷ rows))) ≡ true
found-later id test row rows h = elim (Bool-cases (test row)) [
  | inl kept ↦ rw (keep_if-true test row rows kept) (ground (arith, h))
  | inr left ↦ rw (keep_if-false test row rows left) h
]

stale_rows :
    (id : ℕ) (ids : List ℕ) (now claim_idle asked : ℕ) (rows : List MessageRow)
    → contains id ids ≡ true
    → now + claim_idle < asked
    → contains id (ids_of (keep_if is_pending rows)) ≡ true
    → contains id (ids_of (keep_if (is_stale asked claim_idle) (map (reserve_row ids now) rows)))
      ≡ true
stale_rows id ids now claim_idle asked [] h later c = c
stale_rows id ids now claim_idle asked (row ∷ rows) h later c =
    let rest = stale_rows id ids now claim_idle asked rows h later in
    elim (Bool-cases (is_pending row)) [
      | inr held ↦
          found-later id (is_stale asked claim_idle) (reserve_row ids now row) _
            (rest (rw (keep_if-false is_pending row rows held) at c))
      | inl free ↦ elim (Bool-cases (row.id == id)) [
        | inr differs ↦ found-later id (is_stale asked claim_idle) (reserve_row ids now row) _ (
            rest (
              found-rest id row.id (keep_if is_pending rows) differs
                (rw (keep_if-true is_pending row rows free) at c)))
        | inl same ↦
            found-first id (is_stale asked claim_idle) (reserve_row ids now row) _
              (reserved-stale ids now claim_idle asked row free
                (subst (λ k. contains k ids ≡ true) (sym ((nat_beq_iff row.id id).0 same)) h) later)
              (rw (reserve_row-id ids now row) same)
      ]
    ]
  where
    found-rest :
        (id other : ℕ) (rows : List MessageRow)
        → (other == id) ≡ false
        → contains id (other ∷ ids_of rows) ≡ true
        → contains id (ids_of rows) ≡ true
    found-rest id other rows differs c = ground (arith, differs, c)

-- A message that reserve_messages hands out is handed out by reclaim_stale_messages once its idle time
-- is over, where nothing happened in between and the limit covers the stale messages.
pub reserved_reclaimed :
    (id now claim_idle asked later : ℕ) (count count' : ℤ) (q : Queue)
    → contains id (message_ids (reserve_messages count now q).0) ≡ true
    → now + claim_idle < asked
    → length (keep_if (is_stale asked claim_idle) (reserve_messages count now q).1.messages)
      ≤ limit_of count'
    → contains id (
        message_ids
          (reclaim_stale_messages claim_idle count' asked later (reserve_messages count now q).1).0)
      ≡ true
unfolding reserve_messages reclaim_stale_messages hand_out
reserved_reclaimed id now claim_idle asked later count count' q h idle enough =
    let handed =
      rw (message_ids-map (take (limit_of count) (keep_if is_pending q.messages))) at h in
    rw (take_all (limit_of count') _ enough, message_ids-map _)
      (stale_rows id _ now claim_idle asked q.messages handed idle
        (contains-take id (limit_of count) (keep_if is_pending q.messages) handed))

-- The messages that n polls of the runner get, one reserve_messages(count=1) after another.
abbrev pub polls : ℕ → ℕ → Queue → List QueuedTaskMessage
polls zero now q = []
polls (suc n) now q =
    let (messages, q') = reserve_messages (pos 1) now q in messages ++ polls n now q'

one_and_rest :
    (n : ℕ) (rows : List MessageRow)
    → map to_message (take 1 rows) ++ map to_message (take n (drop 1 rows))
      ≡ map to_message (take (suc n) rows)
one_and_rest zero [] = refl
one_and_rest (suc n) [] = refl
one_and_rest n (row ∷ rows) = refl

polls-pending :
    (n now : ℕ) (q : Queue)
    → IsOrdered q.messages
    → polls n now q ≡ map to_message (take n (keep_if is_pending q.messages))
unfolding reserve_messages hand_out limit_of
polls-pending zero now q h = refl
polls-pending (suc n) now q h =
    let pending = keep_if is_pending q.messages in
    ap (λ ms. map to_message (take 1 pending) ++ ms)
      (polls-pending n now (reserve_messages (pos 1) now q).1
          (IsOrdered-map _ q.messages (reserve_row-id _ now) h)
        ∙ ap (λ rows. map to_message (take n rows)) (pending-reserve 1 now q.messages h))
    ∙ one_and_rest n pending

release-pending : (m : MessageRow) → is_pending (release m) ≡ is_null m.acknowledged_at
unfolding release is_pending is_null
release-pending m = ground arith

release-message : (m : MessageRow) → to_message (release m) ≡ to_message m
unfolding release to_message
release-message m = elim (Bool-cases (is_null m.acknowledged_at)) [
  | inl left ↦ rw left refl
  | inr done ↦ rw done refl
]

-- What a start leaves pending is what is not acknowledged.
released :
    (rows : List MessageRow)
    → map to_message (keep_if is_pending (map release rows))
      ≡ map to_message (keep_if (λ m. is_null m.acknowledged_at) rows)
released [] = refl
released (row ∷ rows) = elim (Bool-cases (is_null row.acknowledged_at)) [
  | inl left ↦
      rw (left, release-pending row ∙ left, release-message row)
        (ap (λ ms. to_message row ∷ ms) (released rows))
  | inr done ↦ rw (done, release-pending row ∙ done) (released rows)
]

map-take :
    (n : ℕ) (rows : List MessageRow) → map to_message (take n rows) ≡ take n (map to_message rows)
map-take zero rows = refl
map-take (suc n) [] = refl
map-take (suc n) (row ∷ rows) = ap (λ ms. to_message row ∷ ms) (map-take n rows)

release-id : (m : MessageRow) → (release m).id ≡ m.id
unfolding release
release-id m = ground arith

-- The polls of a new process get every message that is not acknowledged, one after another in the
-- order of their enqueueing, where the messages are numbered.
pub start-polls :
    (n now : ℕ) (q : Queue)
    → IsNumbered q
    → polls n now (start q)
      ≡ take n (map to_message (keep_if (λ m. is_null m.acknowledged_at) q.messages))
unfolding start
start-polls n now q v =
    polls-pending n now (start q) (IsOrdered-map release q.messages release-id v.ordered)
    ∙ map-take n (keep_if is_pending (map release q.messages))
    ∙ ap (take n) (released q.messages)
