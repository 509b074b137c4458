-- ===== src/Tools/Deps/Rounds.antt =====
-- The rounds of the planner, on any sets of dependencies.
use atlas_agent_control_plan.Prelude.{
  ℕ, zero, suc, ◌≤◌, Bool, true, false, not, ◌||◌, ◌≡◌, refl, ap, ◌∙◌, subst, List, [], ◌∷◌, ◌++◌,
  arith, length, contains, keep_if, count_if, count_if-append, All, nat_eq, string_eq, Bool-cases,
  inl, inr,
}
use atlas_agent_control_plan.Prelude.Filters.{
  count_if-parts, length-parts, keep_if-All, keep_if-empty, contains-append, contains-keep_if,
  all_of-fails,
}
use atlas_agent_control_plan.Prelude.Result.{
  Result, ok, err, >>=-eq-ok, ok_inj, err_inj, >>=-ok_err,
}
use atlas_agent_control_plan.Tools.Deps.{nth_or_empty, is_ready, round, batch_loop}

-- All positions of the batches, in the order of the batches.
abbrev pub flat : List (List ℕ) → List ℕ
flat [] = []
flat (batch ∷ rest) = batch ++ flat rest

module _ (depends_on : List (List ℕ)) where
  -- No batch is empty, and what a position depends on is satisfied before its batch.
  abbrev pub IsOrdered : List ℕ → List (List ℕ) → Type 0
  IsOrdered satisfied [] = Unit
  IsOrdered satisfied (batch ∷ rest) =
      (1 ≤ length batch)
      × All (λ index. is_ready depends_on satisfied index ≡ true) batch
      × IsOrdered (satisfied ++ batch) rest

  -- Positions that wait for one another: each depends on one of them.
  pub record IsStuck (stuck : List ℕ) : Type 0 where
    pub some_stuck : 1 ≤ length stuck
    pub waits :
        All
          (λ index.
            (other : ℕ) × (contains other (nth_or_empty depends_on index) ≡ true)
            × (contains other stuck ≡ true))
          stuck

  -- A dependency is satisfied or remains.
  unfoldable pub Covers : List ℕ → List ℕ → Type 0
  Covers satisfied remaining =
      (index other : ℕ)
      → contains other (nth_or_empty depends_on index) ≡ true
      → (contains other satisfied || contains other remaining) ≡ true

  module _ (satisfied remaining : List ℕ) where
    abbrev ready : List ℕ
    ready = keep_if (is_ready depends_on satisfied) remaining

    abbrev waiting : List ℕ
    waiting = keep_if (λ i. not (is_ready depends_on satisfied i)) remaining

    ready-Covers : Covers satisfied remaining → Covers (satisfied ++ ready) waiting
    unfolding Covers
    ready-Covers h index other d = elim (Bool-cases (contains other satisfied)) [
      | inl old ↦ rw (contains-append other satisfied ready, old) refl
      | inr new ↦ elim (Bool-cases (is_ready depends_on satisfied other)) [
        | inl now ↦
            let there =
              contains-keep_if other (is_ready depends_on satisfied) remaining now
                (ground (arith, h index other d, new)) in
            ground (arith, contains-append other satisfied ready, there)
        | inr later ↦
            let there =
              contains-keep_if other (λ i. not (is_ready depends_on satisfied i)) remaining
                (rw later refl) (ground (arith, h index other d, new)) in
            ground (arith, there)
      ]
    ]

    remaining-IsStuck :
        Covers satisfied remaining → 1 ≤ length remaining → ready ≡ [] → IsStuck remaining
    unfolding Covers is_ready
    remaining-IsStuck h some_left none_ready = record {
      some_stuck = some_left;
      waits = go remaining (keep_if-empty (is_ready depends_on satisfied) remaining none_ready);
    }
      where
        go :
            (xs : List ℕ)
            → All (λ x. is_ready depends_on satisfied x ≡ false) xs
            → All
                (λ index.
                  (other : ℕ) × (contains other (nth_or_empty depends_on index) ≡ true)
                  × (contains other remaining ≡ true))
                xs
        go [] hs = tt
        go (x ∷ xs) hs =
            let (other, there, fails) =
              all_of-fails (λ d. contains d satisfied) (nth_or_empty depends_on x) hs.0 in
            ((other, there, ground (arith, h x other there, fails)), go xs hs.1)

  -- What the loop answers: batches in order that hold what remained, or positions that are stuck.
  pub record IsPlan (satisfied remaining : List ℕ) (r : Result (List ℕ) (List (List ℕ)))
      : Type 0 where
    pub planned :
        (batches : List (List ℕ))
        → r ≡ ok batches
        → IsOrdered satisfied batches
          × ((p : ℕ → Bool) → count_if p (flat batches) ≡ count_if p remaining)
    pub refused : (stuck : List ℕ) → r ≡ err stuck → IsStuck stuck

  round-IsPlan :
      (satisfied remaining batch : List ℕ) (later : Result (List ℕ) (List (List ℕ)))
      → Covers satisfied remaining
      → 1 ≤ length remaining
      → ready satisfied remaining ≡ batch
      → (1 ≤ length batch → IsPlan (satisfied ++ batch) (waiting satisfied remaining) later)
      → IsPlan satisfied remaining (round batch remaining later)
  round-IsPlan satisfied remaining [] later h n e l = record {
    planned = λ batches r. cc;
    refused = λ stuck r. subst IsStuck (err_inj r) (remaining-IsStuck satisfied remaining h n e);
  }
  round-IsPlan satisfied remaining (first ∷ more) later h n e l = record {
    planned = λ batches r.
        let (rest, found, all) = >>=-eq-ok later _ r in
        let (ordered, counts) = (l (omega arith)).planned rest found in
        subst
          (λ bs.
            IsOrdered satisfied bs × ((p : ℕ → Bool) → count_if p (flat bs) ≡ count_if p remaining))
          (ok_inj all)
          (
            (
              omega arith,
              subst (All (λ i. is_ready depends_on satisfied i ≡ true)) e
                  (keep_if-All (is_ready depends_on satisfied) remaining),
              ordered,
            ),
            λ p.
                count_if-append p (first ∷ more) (flat rest)
                ∙ omega (
                  arith,
                  counts p,
                  ap (count_if p) e,
                  count_if-parts p (is_ready depends_on satisfied) remaining,
                ),
          );
    refused = λ stuck r.
        (l (omega arith)).refused stuck (>>=-ok_err later (λ batches. (first ∷ more) ∷ batches) r);
  }

  pub batch_loop-IsPlan :
      (fuel : ℕ) (satisfied remaining : List ℕ)
      → Covers satisfied remaining
      → length remaining ≤ fuel
      → IsPlan satisfied remaining (batch_loop fuel depends_on satisfied remaining)
  unfolding batch_loop
  batch_loop-IsPlan fuel satisfied [] h n = record {
    planned = λ batches r.
        subst (λ bs. IsOrdered satisfied bs × ((p : ℕ → Bool) → count_if p (flat bs) ≡ 0))
          (ok_inj r) (tt, λ p. refl);
    refused = λ stuck r. cc;
  }
  batch_loop-IsPlan zero satisfied (x ∷ rest) h n = absurd (omega arith)
  batch_loop-IsPlan (suc fuel) satisfied (x ∷ rest) h n =
      let remaining = x ∷ rest in
      let batch = ready satisfied remaining in
      let later = waiting satisfied remaining in
      round-IsPlan satisfied remaining batch (batch_loop fuel depends_on (satisfied ++ batch) later)
        h (omega arith) refl
        λ some_ready.
          batch_loop-IsPlan fuel (satisfied ++ batch) later (ready-Covers satisfied remaining h)
            (omega (arith, length-parts (is_ready depends_on satisfied) remaining, some_ready, n))
