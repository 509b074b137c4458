-- ===== src/Tools/Cache/Examples.antt =====
-- A cache of two entries.
use atlas_agent_control_plan.Prelude.{
  ℕ, ◌+◌, ◌≤◌, String, ◌≡◌, refl, ◌⊎◌, none, some, [], ◌∷◌, arith, length, string_eq,
}
use atlas_agent_control_plan.Prelude.Dict
use atlas_agent_control_plan.Prelude.Result.{ok}
use atlas_agent_control_plan.Tools.Cache.{ToolCacheEntry, ToolResultCache, get, put, ttl_of}
use atlas_agent_control_plan.Tools.Cache.Evicts.{IsOldest, put-other}
use atlas_agent_control_plan.Tools.Cache.Laws.{IsSound, put-IsSound, get-put-value}

abbrev entry : String → ℕ → ToolCacheEntry String
entry value stored_at = record { value = value; stored_at = stored_at; ttl_seconds = 300 }

abbrev full : ToolResultCache String
full = record {
  max_entries = 2;
  default_ttl = 300;
  entries = ("a", entry "1" 10) ∷ ("b", entry "2" 20) ∷ [];
  hits = 0;
  misses = 0;
  evictions = 0;
}

abbrev after : ToolResultCache String
after = record full { entries = ("b", entry "2" 20) ∷ ("c", entry "3" 30) ∷ []; evictions = 1 }

evicts_oldest : put String "c" "3" none 30 full ≡ ok after
unfolding put Dict.get Dict.put Dict.remove
evicts_oldest = refl

hit_moves_to_end :
    get String "a" 310 full
    ≡ (some "1", record full { entries = ("b", entry "2" 20) ∷ ("a", entry "1" 10) ∷ []; hits = 1 })
unfolding get Dict.get Dict.remove
hit_moves_to_end = refl

expires :
    get String "a" 311 full ≡ (none, record full { entries = ("b", entry "2" 20) ∷ []; misses = 1 })
unfolding get Dict.get Dict.remove
expires = refl

full-IsSound : IsSound String full
unfolding Dict.get
full-IsSound = record {
  positive = omega arith;
  bounded = omega arith;
  distinct = (refl, (refl, tt));
}

put-IsSound_example :
    IsSound String after
    × (after.hits ≡ full.hits)
    × (after.misses ≡ full.misses)
    × ((after.evictions ≡ full.evictions)
        ⊎ ((after.evictions ≡ full.evictions + 1) × (length full.entries ≡ full.max_entries)))
    × (length after.entries + after.evictions ≡ length full.entries + full.evictions + 1)
unfolding Dict.get
put-IsSound_example = put-IsSound String "c" "3" none 30 full after full-IsSound evicts_oldest

get-put-value_example : (get String "c" 330 after).0 ≡ some "3"
unfolding ttl_of
get-put-value_example = get-put-value String "c" "3" none 30 330 full after evicts_oldest

put-other_example :
    (Dict.get "b" after.entries ≡ some (entry "2" 20))
    ⊎ (IsOldest String "b" full.entries
        × (full.max_entries ≤ length full.entries)
        × (Dict.get "c" full.entries ≡ none))
unfolding Dict.get
put-other_example =
    put-other String "c" "b" "3" none 30 full after (entry "2" 20) refl evicts_oldest refl
