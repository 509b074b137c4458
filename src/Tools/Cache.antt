-- ===== src/Tools/Cache.antt =====
-- The result cache of backend/api/app/domain/agent_core/tool_cache.py: LRU and time to live. Times are
-- ticks of the clock, which a call reads as `now`; the key is what `build_key` hashes to, and the
-- hash is left out.
pub mod Laws
pub mod Reads
pub mod Evicts
pub mod Values
mod Examples
use atlas_agent_control_plan.Prelude.{
  ℕ, ◌+◌, ◌-◌, String, Bool, true, false, Option, none, some, List, [], ◌∷◌, ◌++◌, drop, length,
  leb, ltb, string_eq, ◌==◌, if◌then◌else◌,
}
use atlas_agent_control_plan.Prelude.Dict
use atlas_agent_control_plan.Prelude.Dict.{Dict}
use atlas_agent_control_plan.Prelude.Int.{ℤ, pos, negsuc, is_nonpos, pos_part}
use atlas_agent_control_plan.Prelude.Keys.{to_end}
use atlas_agent_control_plan.Prelude.Result.{Result, ok, err}

module _ (V : Type 0) where
  pub record ToolCacheEntry : Type 0 where
    pub value : V
    pub stored_at : ℕ
    pub ttl_seconds : ℕ

  pub record ToolResultCache : Type 0 where
    pub max_entries : ℕ
    pub default_ttl : ℕ
    pub entries : Dict String ToolCacheEntry
    pub hits : ℕ
    pub misses : ℕ
    pub evictions : ℕ

  -- ToolResultCache.__init__
  unfoldable pub create : ℤ → ℤ → Result String ToolResultCache
  create max_entries default_ttl_seconds =
      if is_nonpos max_entries
      then err "max_entries must be positive"
      else if is_nonpos default_ttl_seconds
      then err "default_ttl_seconds must be positive"
      else ok (record {
        max_entries = pos_part max_entries;
        default_ttl = pos_part default_ttl_seconds;
        entries = [];
        hits = 0;
        misses = 0;
        evictions = 0;
      })

  unfoldable pub is_expired : ℕ → ToolCacheEntry → Bool
  is_expired now entry = ltb entry.ttl_seconds (now - entry.stored_at)

  unfoldable pub get : String → ℕ → ToolResultCache → Option V × ToolResultCache
  unfolding is_expired
  get key now cache = elim (Dict.get key cache.entries) [
    | none ↦ (none, record cache { misses = cache.misses + 1 })
    | some entry ↦
        if is_expired now entry
        then (
          none,
          record cache { entries = Dict.remove key cache.entries; misses = cache.misses + 1 },
        )
        else (
          some entry.value,
          record cache { entries = to_end key entry cache.entries; hits = cache.hits + 1 },
        )
  ]

  -- Room for a key: an entry that is there moves to the end, and a full cache drops its oldest.
  unfoldable pub make_room : String → ToolResultCache → ToolResultCache
  make_room key cache = elim (Dict.get key cache.entries) [
    | some entry ↦ record cache { entries = to_end key entry cache.entries }
    | none ↦
        if leb cache.max_entries (length cache.entries)
        then record cache { entries = drop 1 cache.entries; evictions = cache.evictions + 1 }
        else cache
  ]

  unfoldable pub ttl_of : Option ℤ → ToolResultCache → ℤ
  ttl_of none cache = pos cache.default_ttl
  ttl_of (some ttl_seconds) cache = ttl_seconds

  unfoldable pub put : String → V → Option ℤ → ℕ → ToolResultCache → Result String ToolResultCache
  unfolding make_room ttl_of
  put key value ttl_seconds now cache =
      let ttl = ttl_of ttl_seconds cache in
      if is_nonpos ttl
      then err "ttl_seconds must be positive"
      else (let roomy = make_room key cache in
          ok (record roomy {
            entries =
                Dict.put key (record { value = value; stored_at = now; ttl_seconds = pos_part ttl })
                  roomy.entries;
          }))

  unfoldable pub clear : ToolResultCache → ToolResultCache
  clear cache = record cache { entries = [] }
