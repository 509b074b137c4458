-- ===== src/Tools/Cache/Values.antt =====
-- A fact of every value of the result cache, through reads and writes.
use atlas_agent_control_plan.Prelude.{
  ℕ, String, ◌≡◌, subst, Option, none, some, [], ◌∷◌, All, All-append, drop, length, string_eq,
  ◌==◌, leb, Bool-cases, Option-cases, inl, inr,
}
use mathlib.Core.Option.{some_inj}
use atlas_agent_control_plan.Prelude.Dict
use atlas_agent_control_plan.Prelude.Dict.{Dict}
use atlas_agent_control_plan.Prelude.Int.{ℤ}
use atlas_agent_control_plan.Prelude.Keys.{to_end}
use atlas_agent_control_plan.Prelude.Result.{ok}
use atlas_agent_control_plan.Tools.Cache.{
  ToolCacheEntry, ToolResultCache, is_expired, get, make_room, ttl_of, put,
}
use atlas_agent_control_plan.Tools.Cache.Laws.{stored, put-ok}

module _ {V : Type 0} (P : V → Type 0) where
  -- The fact of each value of a dict.
  abbrev pub Values : {E : Type 0} → (E → V) → Dict String E → Type 0
  Values value d = All (λ kv. P (value kv.1)) d

  module _ {E : Type 0} (value : E → V) where
    Values-get :
        (key : String) (d : Dict String E) (entry : E)
        → Values value d
        → Dict.get key d ≡ some entry
        → P (value entry)
    unfolding Dict.get
    Values-get key [] entry h e = cc
    Values-get key ((k, v) ∷ d) entry h e = elim (Bool-cases (k == key)) [
      | inl same ↦ subst (λ x. P (value x)) (some_inj.0 (rw same at e)) h.0
      | inr differs ↦ Values-get key d entry h.1 (rw differs at e)
    ]

    Values-remove :
        (key : String) (d : Dict String E) → Values value d → Values value (Dict.remove key d)
    unfolding Dict.remove
    Values-remove key [] h = tt
    Values-remove key ((k, v) ∷ d) h = elim (Bool-cases (k == key)) [
      | inl same ↦ rw same h.1
      | inr differs ↦ rw differs (h.0, Values-remove key d h.1)
    ]

    pub Values-put :
        (key : String) (entry : E) (d : Dict String E)
        → P (value entry)
        → Values value d
        → Values value (Dict.put key entry d)
    unfolding Dict.put
    Values-put key entry [] p h = (p, tt)
    Values-put key entry ((k, v) ∷ d) p h = elim (Bool-cases (k == key)) [
      | inl same ↦ rw same (p, h.1)
      | inr differs ↦ rw differs (h.0, Values-put key entry d p h.1)
    ]

    Values-drop : (d : Dict String E) → Values value d → Values value (drop 1 d)
    Values-drop [] h = tt
    Values-drop (kv ∷ d) h = h.1

    Values-to_end :
        (key : String) (entry : E) (d : Dict String E)
        → P (value entry)
        → Values value d
        → Values value (to_end key entry d)
    Values-to_end key entry d p h =
        All-append (λ kv. P (value kv.1)) (Dict.remove key d) _ (Values-remove key d h) (p, tt)

  abbrev pub CacheValues : ToolResultCache V → Type 0
  CacheValues cache = Values (λ (entry : ToolCacheEntry V). entry.value) cache.entries

  -- What a read answers.
  abbrev pub Answered : Option V → Type 0
  Answered none = Unit
  Answered (some v) = P v

  pub get-Values :
      (key : String) (now : ℕ) (cache : ToolResultCache V)
      → CacheValues cache
      → Answered (get V key now cache).0 × CacheValues (get V key now cache).1
  unfolding get
  get-Values key now cache h = elim (Option-cases (Dict.get key cache.entries)) [
    | inl e ↦ rw (get, e) (tt, h)
    | inr (entry, e) ↦ elim (Bool-cases (is_expired V now entry)) [
      | inl expired ↦ rw (get, e, expired) (tt, Values-remove _ key cache.entries h)
      | inr fresh ↦
          let p = Values-get (λ (x : ToolCacheEntry V). x.value) key cache.entries entry h e in
          rw (get, e, fresh) (p, Values-to_end _ key entry cache.entries p h)
    ]
  ]

  make_room-Values :
      (key : String) (cache : ToolResultCache V)
      → CacheValues cache
      → CacheValues (make_room V key cache)
  unfolding make_room
  make_room-Values key cache h = elim (Option-cases (Dict.get key cache.entries)) [
    | inr (entry, e) ↦
        rw (make_room, e)
          (Values-to_end _ key entry cache.entries
            (Values-get (λ (x : ToolCacheEntry V). x.value) key cache.entries entry h e) h)
    | inl e ↦ elim (Bool-cases (leb cache.max_entries (length cache.entries))) [
      | inl full ↦ rw (make_room, e, full) (Values-drop _ cache.entries h)
      | inr roomy ↦ rw (make_room, e, roomy) h
    ]
  ]

  pub put-Values :
      (key : String) (v : V) (ttl : Option ℤ) (now : ℕ) (cache cache' : ToolResultCache V)
      → P v
      → CacheValues cache
      → put V key v ttl now cache ≡ ok cache'
      → CacheValues cache'
  unfolding stored
  put-Values key v ttl now cache cache' p h e =
      subst CacheValues (put-ok V key v ttl now cache cache' e).1 (
        Values-put (λ (x : ToolCacheEntry V). x.value) key (stored V v (ttl_of V ttl cache) now)
          (make_room V key cache).entries p (make_room-Values key cache h))
