-- ===== src/Todo/Marks.antt =====
-- What one mark, and any sequence of marks, does to a board.
use atlas_agent_control_plan.Prelude.{
  ℕ, zero, suc, ◌+◌, ◌≤◌, String, true, ◌≡◌, ◌≢◌, refl, ◌∙◌, subst, some, List, [], ◌∷◌, ◌++◌, All,
  arith, length, get_elem?, count_if, Bool-cases, inl, inr, string_eq, ◌==◌, if◌then◌else◌,
}
use text.Mathlib.TextEquality.{eq_iff}
use atlas_agent_control_plan.Prelude.Result.{ok, >>=-eq-ok, ok_inj}
use atlas_agent_control_plan.Todo.{
  TodoStatus, TodoItem, TodoBoard, allowed, mark_items, mark, progress, is_done,
}

-- The items `ys` are the items `xs`, but for one with the id, which moved to `status` by an allowed move.
pub data Moved (status : TodoStatus) (todo_id : String) (item : TodoItem)
    : List TodoItem → List TodoItem → Type 0 where
  this :
      (old : TodoItem) (rest : List TodoItem)
      → old.id ≡ todo_id
      → allowed old.status status ≡ true
      → item ≡ record old { status = status }
      → Moved status todo_id item (old ∷ rest) (item ∷ rest)
  that :
      (other : TodoItem) {xs ys : List TodoItem}
      → other.id ≢ todo_id
      → Moved status todo_id item xs ys
      → Moved status todo_id item (other ∷ xs) (other ∷ ys)

mark_items-Moved :
    (status : TodoStatus) (todo_id : String) (xs : List TodoItem) {item : TodoItem}
    {ys : List TodoItem}
    → mark_items status todo_id xs ≡ ok (item, ys)
    → Moved status todo_id item xs ys
unfolding mark_items
mark_items-Moved status todo_id [] h = cc
mark_items-Moved status todo_id (x ∷ rest) {item} {ys} h = elim (Bool-cases (x.id == todo_id)) [
  | inl same ↦ elim (Bool-cases (allowed x.status status)) [
    | inl may ↦
        let e = ok_inj (rw (same, may) at h) in
        subst (λ (p : TodoItem × List TodoItem). Moved status todo_id p.0 (x ∷ rest) p.1) e
          (this x rest ((eq_iff x.id todo_id).0 same) may refl)
    | inr may_not ↦ absurd (ground (arith, same, may_not, h))
  ]
  | inr other ↦
      let ((marked, more), found, e) =
        >>=-eq-ok (mark_items status todo_id rest) _ (rw other at h) in
      subst (λ (p : TodoItem × List TodoItem). Moved status todo_id p.0 (x ∷ rest) p.1) (ok_inj e)
        (that x (λ same. absurd (ground (arith, other, (eq_iff x.id todo_id).1 same)))
          (mark_items-Moved status todo_id rest found))
]

-- A mark that does not raise moves the first item with the id, by an allowed move, and leaves every
-- other item where and as it was.
pub mark-Moved :
    (status : TodoStatus) (todo_id : String) (b c : TodoBoard) (item : TodoItem)
    → mark status todo_id b ≡ ok (item, c)
    → Moved status todo_id item b.items c.items
unfolding mark mark_items
mark-Moved status todo_id b c item h =
    let ((marked, items), found, e) = >>=-eq-ok (mark_items status todo_id b.items) _ h in
    subst (λ (p : TodoItem × TodoBoard). Moved status todo_id p.0 b.items p.1.items) (ok_inj e)
      (mark_items-Moved status todo_id b.items found)

-- A mark of an item that the board has, to a status that its status allows, does not raise.
pub mark-ok :
    (status : TodoStatus) (todo_id : String) (before after : List TodoItem) (item : TodoItem)
    → All (λ x. x.id ≢ todo_id) before
    → item.id ≡ todo_id
    → allowed item.status status ≡ true
    → mark status todo_id (record { items = before ++ item ∷ after })
      ≡ ok (
        record item { status = status },
        record { items = before ++ record item { status = status } ∷ after },
      )
unfolding mark mark_items
mark-ok status todo_id before after item fresh same may = rw (marks before fresh) refl
  where
    marks :
        (before : List TodoItem)
        → All (λ x. x.id ≢ todo_id) before
        → mark_items status todo_id (before ++ item ∷ after)
          ≡ ok (record item { status = status }, before ++ record item { status = status } ∷ after)
    marks [] fresh = rw ((eq_iff item.id todo_id).1 same, may) refl
    marks (x ∷ rest) fresh = elim (Bool-cases (x.id == todo_id)) [
      | inl is ↦ absurd (fresh.0 ((eq_iff x.id todo_id).0 is))
      | inr other ↦ rw (other, marks rest fresh.1) refl
    ]

Moved-done :
    {status : TodoStatus} {todo_id : String} {item : TodoItem} {xs ys : List TodoItem} (i : ℕ)
    (x : TodoItem)
    → Moved status todo_id item xs ys
    → get_elem? xs i ≡ some x
    → x.status ≡ TodoStatus.done
    → get_elem? ys i ≡ some x
unfolding allowed
Moved-done zero x (this old rest same may e) found done = absurd (ground (arith, may, found, done))
Moved-done (suc i) x (this old rest same may e) found done = found
Moved-done zero x (that other fresh m) found done = found
Moved-done (suc i) x (that other fresh m) found done = Moved-done i x m found done

Moved-count_done :
    {status : TodoStatus} {todo_id : String} {item : TodoItem} {xs ys : List TodoItem}
    → Moved status todo_id item xs ys
    → (length ys ≡ length xs)
      × (count_if (λ x. is_done x.status) ys
          ≡ count_if (λ x. is_done x.status) xs + (if is_done status then 1 else 0))
unfolding allowed
Moved-count_done (this old rest same may e) = (omega arith, ground (arith, may, e))
Moved-count_done (that other fresh m) =
    let (l, n) = Moved-count_done m in (omega (arith, l), omega (arith, n))

-- A sequence of marks that do not raise, from one board to another.
pub data Marks (b : TodoBoard) : TodoBoard → Type 0 where
  here : Marks b b
  next :
      {c d : TodoBoard} (status : TodoStatus) (todo_id : String) (item : TodoItem)
      → Marks b c
      → mark status todo_id c ≡ ok (item, d)
      → Marks b d

-- Over any sequence of marks an item that is done stays where and as it is.
pub Marks-done :
    {b c : TodoBoard} (i : ℕ) (x : TodoItem)
    → Marks b c
    → get_elem? b.items i ≡ some x
    → x.status ≡ TodoStatus.done
    → get_elem? c.items i ≡ some x
Marks-done i x here found done = found
Marks-done i x (next {c = c} {d = d} status todo_id item m h) found done =
    Moved-done i x (mark-Moved status todo_id c d item h) (Marks-done i x m found done) done

-- One mark keeps the total of the progress, and raises its count of done items by one where it marks
-- an item done, and leaves that count as it is else.
pub mark-progress :
    (status : TodoStatus) (todo_id : String) (b c : TodoBoard) (item : TodoItem)
    → mark status todo_id b ≡ ok (item, c)
    → ((progress c).total ≡ (progress b).total)
      × ((progress c).done ≡ (progress b).done + (if is_done status then 1 else 0))
unfolding progress
mark-progress status todo_id b c item h = Moved-count_done (mark-Moved status todo_id b c item h)

-- Over any sequence of marks the total of the progress stays and its count of done items never falls.
pub Marks-progress :
    {b c : TodoBoard}
    → Marks b c
    → ((progress c).total ≡ (progress b).total) × ((progress b).done ≤ (progress c).done)
Marks-progress here = (refl, omega arith)
Marks-progress (next {c = c} {d = d} status todo_id item m h) =
    let (t, n) = Marks-progress m in
    let (u, k) = mark-progress status todo_id c d item h in (u ∙ t, omega (arith, n, k))
