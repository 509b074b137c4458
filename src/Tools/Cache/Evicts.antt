-- ===== src/Tools/Cache/Evicts.antt =====
-- Which entry a write drops.
use atlas_agent_control_plan.Prelude.{
  ℕ, ◌≤◌, String, false, ◌≡◌, ◌∙◌, subst, Option, none, some, [], ◌∷◌, arith, drop, length, leb,
  Bool-cases, Option-cases, inl, inr, ◌⊎◌, string_eq, ◌==◌,
}
use text.Mathlib.TextEquality.{eq_iff}
use atlas_agent_control_plan.Prelude.Dict
use atlas_agent_control_plan.Prelude.Dict.{Dict, get-put}
use atlas_agent_control_plan.Prelude.Int.{ℤ}
use atlas_agent_control_plan.Prelude.Keys.{get-append-other, get-remove-other}
use atlas_agent_control_plan.Prelude.Result.{ok}
use atlas_agent_control_plan.Tools.Cache.{ToolCacheEntry, ToolResultCache, make_room, ttl_of, put}
use atlas_agent_control_plan.Tools.Cache.Laws.{stored, put-ok}

module _ (V : Type 0) where
  -- `key` is the key of the oldest entry.
  abbrev pub IsOldest : String → Dict String (ToolCacheEntry V) → Type 0
  IsOldest key [] = ⊥
  IsOldest key ((oldest, entry) ∷ d) = oldest ≡ key

  drop-other :
      (other : String) (d : Dict String (ToolCacheEntry V)) (kept : ToolCacheEntry V)
      → Dict.get other d ≡ some kept
      → (Dict.get other (drop 1 d) ≡ some kept) ⊎ IsOldest other d
  unfolding Dict.get
  drop-other other [] kept h = cc
  drop-other other ((oldest, entry) ∷ d) kept h = elim (Bool-cases (oldest == other)) [
    | inl same ↦ inr ((eq_iff oldest other).0 same)
    | inr differs ↦ inl (rw differs at h)
  ]

  make_room-other :
      (key other : String) (c : ToolResultCache V) (kept : ToolCacheEntry V)
      → (key == other) ≡ false
      → Dict.get other c.entries ≡ some kept
      → (Dict.get other (make_room V key c).entries ≡ some kept)
        ⊎ (IsOldest other c.entries
            × (c.max_entries ≤ length c.entries)
            × (Dict.get key c.entries ≡ none))
  unfolding make_room
  make_room-other key other c kept differs there = elim (Option-cases (Dict.get key c.entries)) [
    | inr (entry, e) ↦ inl (
        rw (make_room, e)
          (get-append-other other key entry (Dict.remove key c.entries) differs
            ∙ get-remove-other other key c.entries differs
            ∙ there))
    | inl e ↦ elim (Bool-cases (leb c.max_entries (length c.entries))) [
      | inr free ↦ inl (rw (make_room, e, free) there)
      | inl full ↦ elim (drop-other other c.entries kept there) [
        | inl stays ↦ inl (rw (make_room, e, full) stays)
        | inr oldest ↦ inr (oldest, ground (arith, full), e)
      ]
    ]
  ]

  -- A write keeps the entry of every other key, but for the oldest one where the cache is full and the
  -- written key is new.
  pub put-other :
      (key other : String) (value : V) (ttl : Option ℤ) (now : ℕ) (c d : ToolResultCache V)
      (kept : ToolCacheEntry V)
      → (key == other) ≡ false
      → put V key value ttl now c ≡ ok d
      → Dict.get other c.entries ≡ some kept
      → (Dict.get other d.entries ≡ some kept)
        ⊎ (IsOldest other c.entries
            × (c.max_entries ≤ length c.entries)
            × (Dict.get key c.entries ≡ none))
  put-other key other value ttl now c d kept differs e there =
      elim (make_room-other key other c kept differs there) [
        | inr lost ↦ inr lost
        | inl stays ↦ inl (
            subst (λ (x : ToolResultCache V). Dict.get other x.entries ≡ some kept)
              (put-ok V key value ttl now c d e).1
              (get-put key other (stored V value (ttl_of V ttl c) now) (make_room V key c).entries
                ∙ rw differs stays))
      ]
