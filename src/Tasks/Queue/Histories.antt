-- ===== src/Tasks/Queue/Histories.antt =====
-- What is kept over histories of calls: the numbering of the messages, and what is reserved or
-- acknowledged.
use atlas_agent_control_plan.Prelude.{
  ℕ, ◌+◌, ◌<◌, String, false, ◌≡◌, refl, ap, ◌∙◌, sym, subst, List, [], ◌∷◌, ◌++◌, map, All,
  All-append, arith, nat_eq, nat_beq_iff, ◌==◌, ◌&&◌,
}
use atlas_agent_control_plan.Tasks.Queue.{
  Queue, MessageRow, is_pending, is_null, release, acknowledge_row,
}
use atlas_agent_control_plan.Tasks.Queue.Messages.{
  IsOrdered, IsHeld, IsFinished, All-map, All-weaken, reserve_row-id, still_held,
  reserve_row-acknowledged,
}
use atlas_agent_control_plan.Tasks.Queue.Calls.{
  Call, starts, reserves, reclaims, acknowledges, enqueues, cancels, retries, marks, is_start, step,
  run, row_update, step-Moves, Moves, updated, added, left, IsNumbered,
}

module _ (claim_idle : ℕ) (to_text : ℕ → String) (q : Queue) where
  abbrev update : Call → MessageRow → MessageRow
  update c m = row_update claim_idle to_text q c m

  update-id : (c : Call) (m : MessageRow) → (update c m).id ≡ m.id
  unfolding release acknowledge_row
  update-id starts m = ground arith
  update-id (reserves count now) m = reserve_row-id _ now m
  update-id (reclaims count asked now) m = reserve_row-id _ now m
  update-id (acknowledges id now) m = ground arith
  update-id (enqueues _ _ _ _ _) m = refl
  update-id (cancels _ _) m = refl
  update-id (retries _ _ _) m = refl
  update-id (marks _ _ _ _) m = refl

  update-held :
      (c : Call) (m : MessageRow)
      → is_start c ≡ false
      → is_pending m ≡ false
      → is_pending (update c m) ≡ false
  unfolding is_pending is_null acknowledge_row
  update-held starts m s h = cc
  update-held (reserves count now) m s h = still_held _ now m h
  update-held (reclaims count asked now) m s h = still_held _ now m h
  update-held (acknowledges id now) m s h = ground (arith, h)
  update-held (enqueues _ _ _ _ _) m s h = h
  update-held (cancels _ _) m s h = h
  update-held (retries _ _ _) m s h = h
  update-held (marks _ _ _ _) m s h = h

  update-finished :
      (c : Call) (m : MessageRow)
      → is_null m.acknowledged_at ≡ false
      → is_null (update c m).acknowledged_at ≡ false
  unfolding is_null acknowledge_row release
  update-finished starts m h = ground (arith, h)
  update-finished (reserves count now) m h = ap is_null (reserve_row-acknowledged _ now m) ∙ h
  update-finished (reclaims count asked now) m h = ap is_null (reserve_row-acknowledged _ now m) ∙ h
  update-finished (acknowledges id now) m h = ground (arith, h)
  update-finished (enqueues _ _ _ _ _) m h = h
  update-finished (cancels _ _) m h = h
  update-finished (retries _ _ _) m h = h
  update-finished (marks _ _ _ _) m h = h

-- A fact of every row that updates keep and that a new row has holds of every row after a call.
Moves-All :
    (P : MessageRow → Type 0) (f : MessageRow → MessageRow) (q r : Queue)
    → Moves f q r
    → ((m : MessageRow) → P m → P (f m))
    → ((m : MessageRow) → m.id ≡ q.next_id → P m)
    → All P q.messages
    → All P r.messages
Moves-All P f q r (updated e n) keeps new h = subst (All P) (sym e) (All-map P P f keeps _ h)
Moves-All P f q r (added m e i n) keeps new h =
    subst (All P) (sym e) (All-append P q.messages (m ∷ []) h (new m i, tt))
Moves-All P f q r (left e n) keeps new h = subst (All P) (sym e) h

abbrev IsUnder : ℕ → MessageRow → Type 0
IsUnder n m = m.id < n

pub IsOrdered-map :
    (f : MessageRow → MessageRow) (rows : List MessageRow)
    → ((m : MessageRow) → (f m).id ≡ m.id)
    → IsOrdered rows
    → IsOrdered (map f rows)
IsOrdered-map f [] same h = tt
IsOrdered-map f (row ∷ rows) same h = (
  All-map (λ m. row.id < m.id) (λ m. (f row).id < m.id) f
      (λ m below. omega (arith, same m, same row, below)) rows h.0,
  IsOrdered-map f rows same h.1,
)

IsOrdered-append :
    (rows : List MessageRow) (m : MessageRow)
    → All (IsUnder m.id) rows
    → IsOrdered rows
    → IsOrdered (rows ++ m ∷ [])
IsOrdered-append [] m below h = (tt, tt)
IsOrdered-append (row ∷ rows) m below h = (
  All-append (λ k. row.id < k.id) rows (m ∷ []) h.0 (below.0, tt),
  IsOrdered-append rows m below.1 h.1,
)

Moves-IsNumbered :
    (f : MessageRow → MessageRow) (q r : Queue)
    → ((m : MessageRow) → (f m).id ≡ m.id)
    → Moves f q r
    → IsNumbered q
    → IsNumbered r
Moves-IsNumbered f q r same (updated e n) v = record {
  below =
      rw (e, n)
        (All-map (IsUnder q.next_id) (IsUnder q.next_id) f (λ m b. omega (arith, same m, b)) _
          v.below);
  ordered = rw e (IsOrdered-map f q.messages same v.ordered);
}
Moves-IsNumbered f q r same (added m e i n) v = record {
  below =
      rw (e, n)
        (All-append (IsUnder (q.next_id + 1)) q.messages (m ∷ [])
          (All-weaken (IsUnder q.next_id) (IsUnder (q.next_id + 1)) (λ k b. omega (arith, b)) _
            v.below)
          (omega (arith, i), tt));
  ordered = rw e (IsOrdered-append q.messages m (rw i v.below) v.ordered);
}
Moves-IsNumbered f q r same (left e n) v = record {
  below = rw (e, n) v.below;
  ordered = rw e v.ordered;
}

module _ (claim_idle : ℕ) (to_text : ℕ → String) where
  pub step-IsNumbered :
      (q : Queue) (c : Call) → IsNumbered q → IsNumbered (step claim_idle to_text q c)
  step-IsNumbered q c v =
      Moves-IsNumbered _ q _ (update-id claim_idle to_text q c) (step-Moves claim_idle to_text q c)
        v

  -- Every history of calls keeps the messages numbered: their ids grow from row to row and stay below
  -- the counter.
  pub run-IsNumbered :
      (q : Queue) (cs : List Call) → IsNumbered q → IsNumbered (run claim_idle to_text q cs)
  run-IsNumbered q [] v = v
  run-IsNumbered q (c ∷ cs) v =
      run-IsNumbered (step claim_idle to_text q c) cs (step-IsNumbered q c v)

  module _ (id : ℕ) where
    step-next_id :
        (q r : Queue) (f : MessageRow → MessageRow) → Moves f q r → id < q.next_id → id < r.next_id
    step-next_id q r f (updated e n) h = omega (arith, n, h)
    step-next_id q r f (added m e i n) h = omega (arith, n, h)
    step-next_id q r f (left e n) h = omega (arith, n, h)

    pub run-next_id :
        (q : Queue) (cs : List Call) → id < q.next_id → id < (run claim_idle to_text q cs).next_id
    run-next_id q [] h = h
    run-next_id q (c ∷ cs) h =
        run-next_id (step claim_idle to_text q c) cs
          (step-next_id q _ _ (step-Moves claim_idle to_text q c) h)

    pub run-IsHeld :
        (q : Queue) (cs : List Call)
        → All (λ c. is_start c ≡ false) cs
        → id < q.next_id
        → IsHeld id q.messages
        → IsHeld id (run claim_idle to_text q cs).messages
    run-IsHeld q [] s n h = h
    run-IsHeld q (c ∷ cs) s n h =
        run-IsHeld (step claim_idle to_text q c) cs s.1
          (step-next_id q _ _ (step-Moves claim_idle to_text q c) n)
          (Moves-All (λ m. (m.id == id && is_pending m) ≡ false) _ q _
            (step-Moves claim_idle to_text q c)
            (λ m held. ground (
              arith,
              update-id claim_idle to_text q c m,
              held,
              update-held claim_idle to_text q c m s.0,
            ))
            (λ m i. ground (arith, i, n, nat_beq_iff m.id id)) h)

    pub run-IsFinished :
        (q : Queue) (cs : List Call)
        → id < q.next_id
        → IsFinished id q.messages
        → IsFinished id (run claim_idle to_text q cs).messages
    run-IsFinished q [] n h = h
    run-IsFinished q (c ∷ cs) n h =
        run-IsFinished (step claim_idle to_text q c) cs
          (step-next_id q _ _ (step-Moves claim_idle to_text q c) n)
          (Moves-All (λ m. (m.id == id && is_null m.acknowledged_at) ≡ false) _ q _
            (step-Moves claim_idle to_text q c)
            (λ m done. ground (
              arith,
              update-id claim_idle to_text q c m,
              done,
              update-finished claim_idle to_text q c m,
            ))
            (λ m i. ground (arith, i, n, nat_beq_iff m.id id)) h)
