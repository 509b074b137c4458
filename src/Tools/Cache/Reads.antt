-- ===== src/Tools/Cache/Reads.antt =====
-- What a read of the cache answers and counts, and that it keeps the cache sound.
use atlas_agent_control_plan.Prelude.{
  ℕ, ◌+◌, String, Bool, true, false, ◌≡◌, Option, none, some, arith, Bool-cases, Option-cases, inl,
  inr, string_eq, if◌then◌else◌,
}
use atlas_agent_control_plan.Prelude.Dict
use atlas_agent_control_plan.Prelude.Dict.{Dict, get-put}
use atlas_agent_control_plan.Prelude.Keys.{remove-IsDistinct, length-remove}
use atlas_agent_control_plan.Tools.Cache.Laws.{IsSound, to_end-length, to_end-IsDistinct}
use atlas_agent_control_plan.Tools.Cache.{ToolCacheEntry, ToolResultCache, is_expired, get}

module _ (V : Type 0) where
  -- A key's entry as a read may meet it: absent, expired or fresh.
  pub data Looked (key : String) (now : ℕ) (c : ToolResultCache V) : Type 0 where
    absent : Dict.get key c.entries ≡ none → Looked key now c
    expired :
        (entry : ToolCacheEntry V)
        → Dict.get key c.entries ≡ some entry
        → is_expired V now entry ≡ true
        → Looked key now c
    fresh :
        (entry : ToolCacheEntry V)
        → Dict.get key c.entries ≡ some entry
        → is_expired V now entry ≡ false
        → Looked key now c

  looked : (key : String) (now : ℕ) (c : ToolResultCache V) → Looked key now c
  looked key now c = elim (Option-cases (Dict.get key c.entries)) [
    | inl e ↦ absent e
    | inr (entry, e) ↦ elim (Bool-cases (is_expired V now entry)) [
      | inl old ↦ expired entry e old
      | inr young ↦ fresh entry e young
    ]
  ]

  abbrev pub is_some : Option V → Bool
  is_some none = false
  is_some (some value) = true

  -- `r` is what a read of the cache `c` may answer.
  pub record IsRead (c : ToolResultCache V) (r : Option V × ToolResultCache V) : Type 0 where
    pub sound : IsSound V r.1
    pub counted : r.1.hits + r.1.misses ≡ c.hits + c.misses + 1
    pub hit : r.1.hits ≡ c.hits + (if is_some r.0 then 1 else 0)

  -- A read keeps the cache sound and counts one hit or one miss, a hit exactly where it answers a
  -- value.
  pub get-IsRead :
      (key : String) (now : ℕ) (c : ToolResultCache V) → IsSound V c → IsRead c (get V key now c)
  unfolding get
  get-IsRead key now c h = elim (looked key now c) [
    | absent e ↦
        rw (get, e)
          (record {
            sound = record { positive = h.positive; bounded = h.bounded; distinct = h.distinct };
            counted = omega arith;
            hit = omega arith;
          })
    | expired entry e old ↦
        rw (get, e, old)
          (record {
            sound = record {
              positive = h.positive;
              bounded = omega (arith, length-remove key entry c.entries e, h.bounded);
              distinct = remove-IsDistinct key c.entries h.distinct;
            };
            counted = omega arith;
            hit = omega arith;
          })
    | fresh entry e young ↦
        rw (get, e, young)
          (record {
            sound = record {
              positive = h.positive;
              bounded = omega (arith, to_end-length V key entry c.entries e, h.bounded);
              distinct = to_end-IsDistinct V key entry c.entries h.distinct;
            };
            counted = omega arith;
            hit = omega arith;
          })
  ]
