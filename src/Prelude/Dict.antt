-- ===== src/Prelude/Dict.antt =====
-- Python's `dict`: an association list in insertion order, keys compared by an instance of `Eq`.
use mathlib.Core.Path.{◌≡◌, refl}
use mathlib.Core.Option.{Option, none, some}
use mathlib.Core.List.{List, [], ◌∷◌}
use native.Mathlib.Omega.{arith}
use atlas_agent_control_plan.Prelude.Tests.{Eq, ◌==◌, if◌then◌else◌}

abbrev pub Dict {ℓ κ} : Type ℓ → Type κ → Type (ℓ ⊔ κ)
Dict K V = List (K × V)

module _ {ℓ κ} {K : Type ℓ} {V : Type κ} ⦃e : Eq K⦄ where
  -- d.get(k)
  unfoldable pub get : K → Dict K V → Option V
  get k [] = none
  get k ((j, v) ∷ d) = if j == k then some v else get k d

  -- d.get(k, default)
  unfoldable pub get_or : K → Dict K V → V → V
  get_or k [] w = w
  get_or k ((j, v) ∷ d) w = if j == k then v else get_or k d w

  -- d[k] = v: a key that is present keeps its place
  unfoldable pub put : K → V → Dict K V → Dict K V
  put k v [] = (k, v) ∷ []
  put k v ((j, w) ∷ d) = if j == k then (j, v) ∷ d else (j, w) ∷ put k v d

  -- d.pop(k, None)
  unfoldable pub remove : K → Dict K V → Dict K V
  remove k [] = []
  remove k ((j, v) ∷ d) = if j == k then d else (j, v) ∷ remove k d

  pub get_or-put :
      (k j : K) (v w : V) (d : Dict K V)
      → get_or j (put k v d) w ≡ (if k == j then v else get_or j d w)
  unfolding get_or put
  get_or-put k j v w [] = refl
  get_or-put k j v w ((i, u) ∷ d) =
      ground (arith, e.beq_iff k j, e.beq_iff i k, e.beq_iff i j, get_or-put k j v w d)

  pub get-put :
      (k j : K) (v : V) (d : Dict K V) → get j (put k v d) ≡ (if k == j then some v else get j d)
  unfolding get put
  get-put k j v [] = refl
  get-put k j v ((i, u) ∷ d) =
      ground (arith, e.beq_iff k j, e.beq_iff i k, e.beq_iff i j, get-put k j v d)

pub ruleset dict_laws = (get-put, get_or-put)
