-- ===== src/Prelude/Filters.antt =====
-- The parts into which a test splits a list, and the membership test.
use Prim.Native.Nat.{◌+◌}
use mathlib.Core.Path.{◌≡◌, refl}
use mathlib.Core.Bool.{Bool, true, false, not, ◌||◌}
use mathlib.Core.List.{List, [], ◌∷◌, ◌++◌}
use mathlib.Core.Logic.{inl, inr}
use native.Mathlib.Omega.{arith}
use atlas_agent_control_plan.Prelude.Tests.{Eq, ◌==◌, Bool-cases}
use atlas_agent_control_plan.Prelude.Lists.{length, keep_if, count_if, all_of, contains, All}

module _ {ℓ} {A : Type ℓ} where
  pub count_if-parts :
      (p q : A → Bool) (xs : List A)
      → count_if p (keep_if q xs) + count_if p (keep_if (λ x. not (q x)) xs) ≡ count_if p xs
  count_if-parts p q [] = refl
  count_if-parts p q (x ∷ xs) = ground (arith, count_if-parts p q xs)

  pub length-parts :
      (q : A → Bool) (xs : List A)
      → length (keep_if q xs) + length (keep_if (λ x. not (q x)) xs) ≡ length xs
  length-parts q [] = refl
  length-parts q (x ∷ xs) = ground (arith, length-parts q xs)

  pub keep_if-All : (q : A → Bool) (xs : List A) → All (λ x. q x ≡ true) (keep_if q xs)
  keep_if-All q [] = tt
  keep_if-All q (x ∷ xs) = elim (Bool-cases (q x)) [
    | inl kept ↦ rw kept (kept, keep_if-All q xs)
    | inr left ↦ rw left (keep_if-All q xs)
  ]

  pub keep_if-empty : (q : A → Bool) (xs : List A) → keep_if q xs ≡ [] → All (λ x. q x ≡ false) xs
  keep_if-empty q [] h = tt
  keep_if-empty q (x ∷ xs) h = elim (Bool-cases (q x)) [
    | inl kept ↦ absurd (ground (arith, kept, h))
    | inr left ↦ (left, keep_if-empty q xs (rw left at h))
  ]

  module _ ⦃e : Eq A⦄ where
    pub contains-append :
        (a : A) (xs ys : List A) → contains a (xs ++ ys) ≡ (contains a xs || contains a ys)
    contains-append a [] ys = refl
    contains-append a (x ∷ xs) ys = ground (arith, contains-append a xs ys)

    pub contains-keep_if :
        (a : A) (q : A → Bool) (xs : List A)
        → q a ≡ true
        → contains a xs ≡ true
        → contains a (keep_if q xs) ≡ true
    contains-keep_if a q [] h c = c
    contains-keep_if a q (x ∷ xs) h c = elim (Bool-cases (x == a)) [
      | inl same ↦ ground (arith, same, h, (e.beq_iff x a).0 same)
      | inr other ↦ ground (arith, other, c, contains-keep_if a q xs h)
    ]

    -- What is not all of the list fails at one of its elements.
    pub all_of-fails :
        (q : A → Bool) (xs : List A)
        → all_of q xs ≡ false
        → (a : A) × (contains a xs ≡ true) × (q a ≡ false)
    all_of-fails q [] h = cc
    all_of-fails q (x ∷ xs) h = elim (Bool-cases (q x)) [
      | inr fails ↦ (x, ground (arith, e.beq_iff x x), fails)
      | inl holds ↦
          let (a, there, fails) = all_of-fails q xs (ground (arith, holds, h)) in
          (a, ground (arith, there), fails)
    ]
