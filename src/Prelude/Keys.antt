-- ===== src/Prelude/Keys.antt =====
-- The keys of a `dict`: each stands once, through the moves of an OrderedDict.
use Prim.Native.Nat.{suc, ◌≤◌}
use mathlib.Core.Path.{◌≡◌, refl, ◌∙◌}
use mathlib.Core.Bool.{false}
use mathlib.Core.Option.{none, some}
use mathlib.Core.List.{[], ◌∷◌, ◌++◌}
use mathlib.Core.Logic.{inl, inr}
use native.Mathlib.Omega.{arith}
use atlas_agent_control_plan.Prelude.Tests.{Eq, ◌==◌, Bool-cases}
use atlas_agent_control_plan.Prelude.Lists.{length}
use atlas_agent_control_plan.Prelude.Dict.{Dict, get, put, remove, get-put}

module _ {ℓ κ} {K : Type ℓ} {V : Type κ} ⦃e : Eq K⦄ where
  abbrev pub IsDistinct : Dict K V → Type κ
  IsDistinct [] = Unit
  IsDistinct ((k, v) ∷ d) = (get k d ≡ none) × IsDistinct d

  -- d.move_to_end(k), where k is there with v
  abbrev pub to_end : K → V → Dict K V → Dict K V
  to_end k v d = remove k d ++ (k, v) ∷ []

  pub get-append-other :
      (j k : K) (v : V) (d : Dict K V) → (k == j) ≡ false → get j (d ++ (k, v) ∷ []) ≡ get j d
  unfolding get
  get-append-other j k v [] h = rw h refl
  get-append-other j k v ((i, w) ∷ d) h = ground (arith, get-append-other j k v d h)

  pub get-append-same :
      (k : K) (v : V) (d : Dict K V) → get k d ≡ none → get k (d ++ (k, v) ∷ []) ≡ some v
  unfolding get
  get-append-same k v [] h = ground (arith, e.beq_iff k k)
  get-append-same k v ((i, w) ∷ d) h = ground (arith, h, get-append-same k v d)

  pub get-remove-other : (j k : K) (d : Dict K V) → (k == j) ≡ false → get j (remove k d) ≡ get j d
  unfolding get remove
  get-remove-other j k [] h = refl
  get-remove-other j k ((i, w) ∷ d) h =
      ground (arith, h, e.beq_iff i k, e.beq_iff i j, e.beq_iff k j, get-remove-other j k d h)

  pub get-remove-same : (k : K) (d : Dict K V) → IsDistinct d → get k (remove k d) ≡ none
  unfolding get remove
  get-remove-same k [] h = refl
  get-remove-same k ((i, w) ∷ d) h = elim (Bool-cases (i == k)) [
    | inl same ↦ rw same (ground (arith, (e.beq_iff i k).0 same, h.0))
    | inr other ↦ rw (other, other) (get-remove-same k d h.1)
  ]

  get-remove-none : (j k : K) (d : Dict K V) → get j d ≡ none → get j (remove k d) ≡ none
  unfolding get remove
  get-remove-none j k [] h = refl
  get-remove-none j k ((i, w) ∷ d) h = ground (arith, h, get-remove-none j k d)

  pub remove-IsDistinct : (k : K) (d : Dict K V) → IsDistinct d → IsDistinct (remove k d)
  unfolding remove
  remove-IsDistinct k [] h = tt
  remove-IsDistinct k ((i, w) ∷ d) h = elim (Bool-cases (i == k)) [
    | inl same ↦ rw same h.1
    | inr other ↦ rw other (get-remove-none i k d h.0, remove-IsDistinct k d h.1)
  ]

  pub append-IsDistinct :
      (k : K) (v : V) (d : Dict K V) → get k d ≡ none → IsDistinct d → IsDistinct (d ++ (k, v) ∷ [])
  unfolding get
  append-IsDistinct k v [] h t = (refl, tt)
  append-IsDistinct k v ((i, w) ∷ d) h t = elim (Bool-cases (i == k)) [
    | inl same ↦ absurd (ground (arith, same, h))
    | inr other ↦ (
      get-append-other i k v d (ground (arith, other, e.beq_iff i k, e.beq_iff k i)) ∙ t.0,
      append-IsDistinct k v d (ground (arith, other, h)) t.1,
    )
  ]

  pub length-remove :
      (k : K) (v : V) (d : Dict K V) → get k d ≡ some v → suc (length (remove k d)) ≡ length d
  unfolding get remove
  length-remove k v [] h = cc
  length-remove k v ((i, w) ∷ d) h = ground (arith, h, length-remove k v d)

  -- A key that is new goes to the end.
  pub put-absent : (k : K) (v : V) (d : Dict K V) → get k d ≡ none → put k v d ≡ d ++ (k, v) ∷ []
  unfolding get put
  put-absent k v [] h = refl
  put-absent k v ((i, w) ∷ d) h = ground (arith, h, put-absent k v d)

  pub get-length : (k : K) (v : V) (d : Dict K V) → get k d ≡ some v → 1 ≤ length d
  unfolding get
  get-length k v [] h = cc
  get-length k v (x ∷ d) h = omega arith

  pub length-put-present :
      (k : K) (v w : V) (d : Dict K V) → get k d ≡ some w → length (put k v d) ≡ length d
  unfolding get put
  length-put-present k v w [] h = cc
  length-put-present k v w ((i, u) ∷ d) h = ground (arith, h, length-put-present k v w d)

  pub length-put-absent :
      (k : K) (v : V) (d : Dict K V) → get k d ≡ none → length (put k v d) ≡ suc (length d)
  unfolding get put
  length-put-absent k v [] h = refl
  length-put-absent k v ((i, u) ∷ d) h = ground (arith, h, length-put-absent k v d)

  pub put-IsDistinct : (k : K) (v : V) (d : Dict K V) → IsDistinct d → IsDistinct (put k v d)
  unfolding put get
  put-IsDistinct k v [] h = (refl, tt)
  put-IsDistinct k v ((i, u) ∷ d) h = elim (Bool-cases (i == k)) [
    | inl same ↦ rw same h
    | inr other ↦ rw other (
      ground (arith, get-put k i v d, other, h.0, e.beq_iff i k, e.beq_iff k i),
      put-IsDistinct k v d h.1,
    )
  ]
