-- ===== src/Todo/Laws.antt =====
-- The next runnable item of a board.
use atlas_agent_control_plan.Prelude.{
  ℕ, suc, ◌≤◌, String, true, false, ◌≡◌, ◌↔◌, refl, subst, none, some, List, [], ◌∷◌, arith,
  get_elem?, All, all_of, leb, Bool-cases, inl, inr, string_eq,
}
use mathlib.Core.Option.{some_inj}
use atlas_agent_control_plan.Prelude.Dict.{Dict, get}
use atlas_agent_control_plan.Todo.{
  TodoStatus, TodoItem, TodoBoard, status_by_id, is_satisfied, is_runnable, first_runnable,
  next_runnable, insert_by_step, sort_by_step,
}

-- `x` stands in `xs`.
abbrev pub Stands : TodoItem → List TodoItem → Type 0
Stands x xs = (i : ℕ) × (get_elem? xs i ≡ some x)

abbrev pub IsAscending : List TodoItem → Type 0
IsAscending [] = Unit
IsAscending (x ∷ xs) = All (λ y. x.step_index ≤ y.step_index) xs × IsAscending xs

module _ (P : TodoItem → Type 0) where
  All-insert : (x : TodoItem) (xs : List TodoItem) → P x → All P xs → All P (insert_by_step x xs)
  unfolding insert_by_step
  All-insert x [] p h = (p, tt)
  All-insert x (y ∷ ys) p h = elim (Bool-cases (leb x.step_index y.step_index)) [
    | inl le ↦ rw le (p, h)
    | inr gt ↦ rw gt (h.0, All-insert x ys p h.1)
  ]

  All-sort : (xs : List TodoItem) → All P xs → All P (sort_by_step xs)
  unfolding sort_by_step
  All-sort [] h = tt
  All-sort (x ∷ xs) h = All-insert x (sort_by_step xs) h.0 (All-sort xs h.1)

  All-of-insert : (x : TodoItem) (xs : List TodoItem) → All P (insert_by_step x xs) → P x × All P xs
  unfolding insert_by_step
  All-of-insert x [] h = h
  All-of-insert x (y ∷ ys) h = elim (Bool-cases (leb x.step_index y.step_index)) [
    | inl le ↦ rw le at h
    | inr gt ↦
        let (now, later) : P y × All P (insert_by_step x ys) = rw gt at h in
        let (p, rest) = All-of-insert x ys later in (p, (now, rest))
  ]

  All-of-sort : (xs : List TodoItem) → All P (sort_by_step xs) → All P xs
  unfolding sort_by_step
  All-of-sort [] h = tt
  All-of-sort (x ∷ xs) h =
      let (p, rest) = All-of-insert x (sort_by_step xs) h in (p, All-of-sort xs rest)

  All-weaken :
      (Q : TodoItem → Type 0)
      → ((x : TodoItem) → P x → Q x)
      → (xs : List TodoItem) → All P xs
      → All Q xs
  All-weaken Q f [] h = tt
  All-weaken Q f (x ∷ xs) h = (f x h.0, All-weaken Q f xs h.1)

insert-IsAscending :
    (x : TodoItem) (xs : List TodoItem) → IsAscending xs → IsAscending (insert_by_step x xs)
unfolding insert_by_step
insert-IsAscending x [] h = (tt, tt)
insert-IsAscending x (y ∷ ys) h = elim (Bool-cases (leb x.step_index y.step_index)) [
  | inl le ↦
      let below : x.step_index ≤ y.step_index = ground (arith, le) in
      rw le (
        (
          below,
          All-weaken (λ z. y.step_index ≤ z.step_index) (λ z. x.step_index ≤ z.step_index)
              (λ z k. omega (arith, below, k)) ys h.0,
        ),
        h,
      )
  | inr gt ↦ rw gt (
    All-insert (λ z. y.step_index ≤ z.step_index) x ys (ground (arith, gt)) h.0,
    insert-IsAscending x ys h.1,
  )
]

sort-IsAscending : (xs : List TodoItem) → IsAscending (sort_by_step xs)
unfolding sort_by_step
sort-IsAscending [] = tt
sort-IsAscending (x ∷ xs) = insert-IsAscending x (sort_by_step xs) (sort-IsAscending xs)

items-All : (xs : List TodoItem) → All (λ x. Stands x xs) xs
items-All [] = tt
items-All (x ∷ xs) = (
  (0, refl),
  All-weaken (λ y. Stands y xs) (λ y. Stands y (x ∷ xs)) (λ y (i, e). (suc i, e)) xs (items-All xs),
)

-- The first runnable item of an ascending list.
first_runnable-some :
    (table : Dict String TodoStatus) (P : TodoItem → Type 0) (xs : List TodoItem) (item : TodoItem)
    → All P xs
    → IsAscending xs
    → first_runnable table xs ≡ some item
    → P item
      × (is_runnable table item ≡ true)
      × All (λ y. is_runnable table y ≡ true → item.step_index ≤ y.step_index) xs
unfolding first_runnable
first_runnable-some table P [] item ps up h = cc
first_runnable-some table P (x ∷ xs) item ps up h = elim (Bool-cases (is_runnable table x)) [
  | inl runs ↦
      subst
        (λ y.
          P y
          × (is_runnable table y ≡ true)
          × All (λ z. is_runnable table z ≡ true → y.step_index ≤ z.step_index) (x ∷ xs))
        (some_inj.0 (rw runs at h))
        (
          ps.0,
          runs,
          (
            λ _. omega arith,
            All-weaken (λ z. x.step_index ≤ z.step_index)
                (λ z. is_runnable table z ≡ true → x.step_index ≤ z.step_index) (λ z k _. k) xs
                up.0,
          ),
        )
  | inr waits ↦
      let (p, r, rest) = first_runnable-some table P xs item ps.1 up.1 (rw waits at h) in
      (p, r, (λ runs. absurd (ground (arith, waits, runs)), rest))
]

first_runnable-none :
    (table : Dict String TodoStatus) (xs : List TodoItem)
    → first_runnable table xs ≡ none
    → All (λ x. is_runnable table x ≡ false) xs
unfolding first_runnable
first_runnable-none table [] h = tt
first_runnable-none table (x ∷ xs) h = elim (Bool-cases (is_runnable table x)) [
  | inl runs ↦ absurd (ground (arith, runs, h))
  | inr waits ↦ (waits, first_runnable-none table xs (rw waits at h))
]

none_runs :
    (table : Dict String TodoStatus) (xs : List TodoItem)
    → All (λ x. is_runnable table x ≡ false) xs
    → first_runnable table xs ≡ none
unfolding first_runnable
none_runs table [] h = refl
none_runs table (x ∷ xs) h = rw h.0 (none_runs table xs h.1)

-- The item that `next_runnable` answers stands on the board, is pending with every dependency done or
-- skipped, and has the least step index of all the items that are so.
pub next_runnable-some :
    (board : TodoBoard) (item : TodoItem)
    → next_runnable board ≡ some item
    → Stands item board.items
      × (item.status ≡ TodoStatus.pending)
      × (all_of (λ dep. is_satisfied (get dep (status_by_id [] board.items))) item.depends_on
          ≡ true)
      × All
          (λ y. is_runnable (status_by_id [] board.items) y ≡ true → item.step_index ≤ y.step_index)
          board.items
unfolding next_runnable is_runnable
next_runnable-some board item h =
    let table = status_by_id [] board.items in
    let (stands, runs, least) =
      first_runnable-some table (λ x. Stands x board.items) (sort_by_step board.items) item
        (All-sort (λ x. Stands x board.items) board.items (items-All board.items))
        (sort-IsAscending board.items) h in
    (
      stands,
      ground (arith, runs),
      ground (arith, runs),
      All-of-sort (λ y. is_runnable table y ≡ true → item.step_index ≤ y.step_index) board.items
          least,
    )

-- `next_runnable` answers None exactly where no item of the board is pending with every dependency
-- done or skipped.
pub next_runnable-none_iff :
    (board : TodoBoard)
    → (next_runnable board ≡ none)
      ↔ All (λ x. is_runnable (status_by_id [] board.items) x ≡ false) board.items
unfolding next_runnable
next_runnable-none_iff board =
    let table = status_by_id [] board.items in
    (
      λ h.
          All-of-sort (λ x. is_runnable table x ≡ false) board.items
            (first_runnable-none table (sort_by_step board.items) h),
      λ h.
          none_runs table (sort_by_step board.items)
            (All-sort (λ x. is_runnable table x ≡ false) board.items h),
    )
