-- ===== src/Tasks/Queue/Contract.antt =====
-- The contract of backend/api/app/domain/tasks/queue.py for the messages, which the local queue
-- keeps.
use atlas_agent_control_plan.Prelude.{
  ℕ, ◌<◌, String, Bool, true, false, ◌≡◌, List, [], ◌∷◌, map, take, keep_if, contains, All, arith,
  nat_eq, nat_beq_iff, ◌==◌, ◌&&◌, Bool-cases, inl, inr,
}
use atlas_agent_control_plan.Prelude.Int.{ℤ}
use atlas_agent_control_plan.Tasks.Queue.{
  Queue, MessageRow, reserve_messages, reclaim_stale_messages, acknowledge, hand_out, is_pending,
  is_null, is_stale, reserve_row, acknowledge_row, ids_of, to_message, limit_of,
}
use atlas_agent_control_plan.Tasks.Queue.Messages.{
  message_ids, message_ids-map, not_handed, IsHeld, IsFinished, All-weaken, All-take, All-keep_if,
  keep_if-All-both, reserve_row-pending, reserve_row-id,
}
use atlas_agent_control_plan.Tasks.Queue.Calls.{Call, is_start, run, IsNumbered}
use atlas_agent_control_plan.Tasks.Queue.Histories.{run-IsHeld, run-IsFinished}

-- The rows that a call hands out are of other ids than one that its test never takes.
others :
    (id n : ℕ) (test : MessageRow → Bool) (rows : List MessageRow)
    → All (λ m. (m.id == id && test m) ≡ false) rows
    → contains id (message_ids (map to_message (take n (keep_if test rows)))) ≡ false
others id n test rows h = not_handed id _ (
    All-take (λ m. (m.id == id) ≡ false) n _
      (All-weaken (λ m. ((m.id == id && test m) ≡ false) × (test m ≡ true))
        (λ m. (m.id == id) ≡ false) (λ m p. ground (arith, p.0, p.1)) _
        (keep_if-All-both (λ m. (m.id == id && test m) ≡ false) test rows h)))

held_not_reserved :
    (id now : ℕ) (count : ℤ) (q : Queue)
    → IsHeld id q.messages
    → contains id (message_ids (reserve_messages count now q).0) ≡ false
unfolding reserve_messages hand_out
held_not_reserved id now count q h = others id (limit_of count) is_pending q.messages h

finished_pending :
    (id : ℕ) (m : MessageRow)
    → (m.id == id && is_null m.acknowledged_at) ≡ false
    → (m.id == id && is_pending m) ≡ false
unfolding is_pending
finished_pending id m h = ground (arith, h)

finished_stale :
    (id claim_idle asked : ℕ) (m : MessageRow)
    → (m.id == id && is_null m.acknowledged_at) ≡ false
    → (m.id == id && is_stale asked claim_idle m) ≡ false
unfolding is_stale
finished_stale id claim_idle asked m h = ground (arith, h)

finished_not_reserved :
    (id now : ℕ) (count : ℤ) (q : Queue)
    → IsFinished id q.messages
    → contains id (message_ids (reserve_messages count now q).0) ≡ false
finished_not_reserved id now count q h =
    held_not_reserved id now count q
      (All-weaken _ (λ m. (m.id == id && is_pending m) ≡ false) (finished_pending id) _ h)

finished_not_reclaimed :
    (id claim_idle asked now : ℕ) (count : ℤ) (q : Queue)
    → IsFinished id q.messages
    → contains id (message_ids (reclaim_stale_messages claim_idle count asked now q).0) ≡ false
unfolding reclaim_stale_messages hand_out
finished_not_reclaimed id claim_idle asked now count q h =
    others id (limit_of count) (is_stale asked claim_idle) q.messages (
      All-weaken _ (λ m. (m.id == id && is_stale asked claim_idle m) ≡ false)
        (finished_stale id claim_idle asked) _ h)

-- The id of a row that is handed out is that of a row, and the row is reserved then.
handed-under :
    (id n : ℕ) (rows : List MessageRow)
    → All (λ m. m.id < n) rows
    → contains id (ids_of rows) ≡ true
    → id < n
handed-under id n [] below h = cc
handed-under id n (row ∷ rows) below h = elim (Bool-cases (row.id == id)) [
  | inl same ↦ omega (arith, (nat_beq_iff row.id id).0 same, below.0)
  | inr differs ↦ handed-under id n rows below.1 (rw differs at h)
]

reserve_row-held :
    (id : ℕ) (ids : List ℕ) (now : ℕ) (m : MessageRow)
    → contains id ids ≡ true
    → ((reserve_row ids now m).id == id && is_pending (reserve_row ids now m)) ≡ false
reserve_row-held id ids now m h = ground (
  arith,
  h,
  reserve_row-id ids now m,
  reserve_row-pending ids now m,
  nat_beq_iff (reserve_row ids now m).id id,
)

reserve_rows-IsHeld :
    (id : ℕ) (ids : List ℕ) (now : ℕ) (rows : List MessageRow)
    → contains id ids ≡ true
    → IsHeld id (map (reserve_row ids now) rows)
reserve_rows-IsHeld id ids now [] h = tt
reserve_rows-IsHeld id ids now (row ∷ rows) h =
    (reserve_row-held id ids now row h, reserve_rows-IsHeld id ids now rows h)

acknowledge_rows-IsFinished :
    (id now : ℕ) (rows : List MessageRow) → IsFinished id (map (acknowledge_row id now) rows)
unfolding acknowledge_row is_null
acknowledge_rows-IsFinished id now [] = tt
acknowledge_rows-IsFinished id now (row ∷ rows) =
    (ground (arith, nat_beq_iff row.id id), acknowledge_rows-IsFinished id now rows)

taken : ℤ → Queue → List MessageRow
taken count q = take (limit_of count) (keep_if is_pending q.messages)

reserve-handed :
    (count : ℤ) (now : ℕ) (q : Queue)
    → message_ids (reserve_messages count now q).0 ≡ ids_of (taken count q)
unfolding reserve_messages hand_out taken
reserve-handed count now q = message_ids-map _

module _ (claim_idle : ℕ) (to_text : ℕ → String) where
  -- A message handed out by reserve_messages is not handed out by it again after any calls without a
  -- start, whatever else they are, where the messages are numbered.
  pub reserved_once :
      (id now later : ℕ) (count count' : ℤ) (q : Queue) (cs : List Call)
      → IsNumbered q
      → contains id (message_ids (reserve_messages count now q).0) ≡ true
      → All (λ c. is_start c ≡ false) cs
      → contains id (
          message_ids
            (reserve_messages count' later
              (run claim_idle to_text (reserve_messages count now q).1 cs)).0)
        ≡ false
  unfolding reserve_messages hand_out taken
  reserved_once id now later count count' q cs v h s =
      let handed = rw (reserve-handed count now q) at h in
      held_not_reserved id later count' (run claim_idle to_text (reserve_messages count now q).1 cs)
        (run-IsHeld claim_idle to_text id _ cs s
          (handed-under id q.next_id (taken count q)
            (All-take _ (limit_of count) _ (All-keep_if _ is_pending _ v.below)) handed)
          (reserve_rows-IsHeld id _ now q.messages handed))

  -- A message of the queue that is acknowledged is never handed out again after any calls, a start of
  -- a new process and reclaims among them.
  pub acknowledged_never :
      (id now later asked : ℕ) (count : ℤ) (q : Queue) (cs : List Call)
      → id < q.next_id
      → (contains id (
            message_ids
              (reserve_messages count later (run claim_idle to_text (acknowledge id now q) cs)).0)
          ≡ false)
        × (contains id (
              message_ids
                (reclaim_stale_messages claim_idle count asked later
                  (run claim_idle to_text (acknowledge id now q) cs)).0)
            ≡ false)
  unfolding acknowledge
  acknowledged_never id now later asked count q cs n =
      let done =
        run-IsFinished claim_idle to_text id (acknowledge id now q) cs n
          (acknowledge_rows-IsFinished id now q.messages) in
      (
        finished_not_reserved id later count _ done,
        finished_not_reclaimed id claim_idle asked later count _ done,
      )
