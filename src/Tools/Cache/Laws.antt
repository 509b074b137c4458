-- ===== src/Tools/Cache/Laws.antt =====
-- The bounds of the cache after a write, and what a read finds after one.
use atlas_agent_control_plan.Prelude.{
  ℕ, suc, ◌+◌, ◌-◌, ◌≤◌, ◌<◌, String, Bool, true, false, ◌≡◌, refl, ap, sym, ◌∙◌, subst, Option,
  none, some, [], ◌∷◌, arith, drop, length, length-append, leb, Bool-cases, Option-cases, inl, inr,
  ◌⊎◌, string_eq, ◌==◌, if◌then◌else◌,
}
use text.Mathlib.TextEquality.{eq_iff}
use atlas_agent_control_plan.Prelude.Dict
use atlas_agent_control_plan.Prelude.Dict.{Dict, get-put}
use atlas_agent_control_plan.Prelude.Int.{ℤ, pos_part, is_nonpos}
use atlas_agent_control_plan.Prelude.Keys.{
  IsDistinct, to_end, get-append-same, get-remove-same, remove-IsDistinct, append-IsDistinct,
  length-remove, length-put-absent, length-put-present, put-IsDistinct,
}
use atlas_agent_control_plan.Prelude.Result.{ok, ok_inj}
use atlas_agent_control_plan.Tools.Cache.{
  ToolCacheEntry, ToolResultCache, get, make_room, ttl_of, put,
}

module _ (V : Type 0) where
  -- No more entries than allowed, and one for a key.
  pub record IsSound (c : ToolResultCache V) : Type 0 where
    pub positive : 1 ≤ c.max_entries
    pub bounded : length c.entries ≤ c.max_entries
    pub distinct : IsDistinct c.entries

  pub to_end-length :
      (key : String) (entry : ToolCacheEntry V) (d : Dict String (ToolCacheEntry V))
      → Dict.get key d ≡ some entry
      → length (to_end key entry d) ≡ length d
  to_end-length key entry d e =
      length-append (Dict.remove key d) ((key, entry) ∷ [])
      ∙ omega (arith, length-remove key entry d e)

  pub to_end-IsDistinct :
      (key : String) (entry : ToolCacheEntry V) (d : Dict String (ToolCacheEntry V))
      → IsDistinct d
      → IsDistinct (to_end key entry d)
  to_end-IsDistinct key entry d h =
      append-IsDistinct key entry (Dict.remove key d) (get-remove-same key d h)
        (remove-IsDistinct key d h)

  abbrev pub is_found : Option (ToolCacheEntry V) → Bool
  is_found none = false
  is_found (some entry) = true

  -- Whether a cache has an entry of a key.
  abbrev pub has_key : String → ToolResultCache V → Bool
  has_key key c = is_found (Dict.get key c.entries)

  -- What making room for a key leaves: a sound cache that has the key or a free place.
  record IsRoomy (key : String) (c r : ToolResultCache V) : Type 0 where
    sound : IsSound r
    room : Dict.get key r.entries ≡ none → length r.entries < r.max_entries
    counts : (r.hits ≡ c.hits) × (r.misses ≡ c.misses)
    evicted :
        ((r.evictions ≡ c.evictions) × (length r.entries ≡ length c.entries))
        ⊎ ((r.evictions ≡ c.evictions + 1) × (length c.entries ≡ c.max_entries))
    balanced : length r.entries + r.evictions ≡ length c.entries + c.evictions
    present : has_key key r ≡ has_key key c

  drop_absent :
      (key : String) (d : Dict String (ToolCacheEntry V))
      → Dict.get key d ≡ none
      → Dict.get key (drop 1 d) ≡ none
  unfolding Dict.get
  drop_absent key [] n = refl
  drop_absent key ((k, v) ∷ d) n = elim (Bool-cases (k == key)) [
    | inl same ↦ cc
    | inr differs ↦ rw differs at n
  ]

  make_room-IsRoomy :
      (key : String) (c : ToolResultCache V) → IsSound c → IsRoomy key c (make_room V key c)
  unfolding make_room
  make_room-IsRoomy key c h = elim (Option-cases (Dict.get key c.entries)) [
    | inr (entry, e) ↦
        rw (make_room, e)
          (record {
            sound = record {
              positive = h.positive;
              bounded = omega (arith, to_end-length key entry c.entries e, h.bounded);
              distinct = to_end-IsDistinct key entry c.entries h.distinct;
            };
            room = λ n.
                let there =
                  get-append-same key entry (Dict.remove key c.entries)
                    (get-remove-same key c.entries h.distinct) in
                cc;
            counts = (refl, refl);
            evicted = inl (refl, to_end-length key entry c.entries e);
            balanced = omega (arith, to_end-length key entry c.entries e);
            present = ap is_found (
                get-append-same key entry (Dict.remove key c.entries)
                  (get-remove-same key c.entries h.distinct)
                ∙ sym e);
          })
    | inl e ↦ elim (Bool-cases (leb c.max_entries (length c.entries))) [
      | inr free ↦
          rw (make_room, e, free)
            (record {
              sound = record { positive = h.positive; bounded = h.bounded; distinct = h.distinct };
              room = λ n. ground (arith, free);
              counts = (refl, refl);
              evicted = inl (refl, refl);
              balanced = refl;
              present = refl;
            })
      | inl full ↦
          let (d, l) = drop_sound c.entries h.distinct (ground (arith, full, h.positive)) in
          rw (make_room, e, full)
            (record {
              sound = record {
                positive = h.positive;
                bounded = omega (arith, l, h.bounded);
                distinct = d;
              };
              room = λ n. omega (arith, l, h.bounded);
              counts = (refl, refl);
              evicted = inr (refl, ground (arith, full, h.bounded));
              balanced = omega (arith, l);
              present = ap is_found (drop_absent key c.entries e ∙ sym e);
            })
    ]
  ]
    where
      drop_sound :
          (d : Dict String (ToolCacheEntry V))
          → IsDistinct d
          → 1 ≤ length d
          → IsDistinct (drop 1 d) × (suc (length (drop 1 d)) ≡ length d)
      drop_sound [] h l = absurd (omega arith)
      drop_sound (x ∷ d) h l = (h.1, omega arith)

  put-balanced :
      (key : String) (entry : ToolCacheEntry V) (c r : ToolResultCache V)
      → IsRoomy key c r
      → length (Dict.put key entry r.entries) + r.evictions
        ≡ length c.entries + c.evictions + (if has_key key c then 0 else 1)
  put-balanced key entry c r h =
      let total = length (Dict.put key entry r.entries) + r.evictions in
      let grown : Bool → Type 0 =
        λ b. total ≡ length c.entries + c.evictions + (if b then 0 else 1) in
      elim (Option-cases (Dict.get key r.entries)) [
        | inl new ↦
            subst grown (sym (ap is_found new) ∙ h.present)
              (omega (arith, length-put-absent key entry r.entries new, h.balanced))
        | inr (old, there) ↦
            subst grown (sym (ap is_found there) ∙ h.present)
              (omega (arith, length-put-present key entry old r.entries there, h.balanced))
      ]

  unfoldable pub stored : V → ℤ → ℕ → ToolCacheEntry V
  stored value ttl now = record { value = value; stored_at = now; ttl_seconds = pos_part ttl }

  pub put-ok :
      (key : String) (value : V) (ttl : Option ℤ) (now : ℕ) (c d : ToolResultCache V)
      → put V key value ttl now c ≡ ok d
      → (is_nonpos (ttl_of V ttl c) ≡ false)
        × (record (make_room V key c) {
          entries = Dict.put key (stored value (ttl_of V ttl c) now) (make_room V key c).entries;
        }
            ≡ d)
  unfolding put stored
  put-ok key value ttl now c d h = elim (Bool-cases (is_nonpos (ttl_of V ttl c))) [
    | inl refused ↦ absurd (ground (arith, refused, h))
    | inr positive ↦ (positive, ok_inj (rw positive at h))
  ]

  -- A write that is not refused keeps the cache sound and the counts of hits and misses, counts one
  -- eviction at most, and only from a full cache, and loses exactly as many entries as it counts: the
  -- entries and the evictions together grow by one where the key is new, and stay else.
  pub put-IsSound :
      (key : String) (value : V) (ttl : Option ℤ) (now : ℕ) (c d : ToolResultCache V)
      → IsSound c
      → put V key value ttl now c ≡ ok d
      → IsSound d
        × (d.hits ≡ c.hits)
        × (d.misses ≡ c.misses)
        × ((d.evictions ≡ c.evictions)
            ⊎ ((d.evictions ≡ c.evictions + 1) × (length c.entries ≡ c.max_entries)))
        × (length d.entries + d.evictions
            ≡ length c.entries + c.evictions + (if has_key key c then 0 else 1))
  put-IsSound key value ttl now c d h e =
      let r = make_room-IsRoomy key c h in
      let entry = stored value (ttl_of V ttl c) now in
      subst
        (λ x.
          IsSound x
          × (x.hits ≡ c.hits)
          × (x.misses ≡ c.misses)
          × ((x.evictions ≡ c.evictions)
              ⊎ ((x.evictions ≡ c.evictions + 1) × (length c.entries ≡ c.max_entries)))
          × (length x.entries + x.evictions
              ≡ length c.entries + c.evictions + (if has_key key c then 0 else 1)))
        (put-ok key value ttl now c d e).1
        (
          record {
            positive = r.sound.positive;
            bounded = elim (Option-cases (Dict.get key (make_room V key c).entries)) [
              | inl new ↦
                  omega
                    (arith, length-put-absent key entry (make_room V key c).entries new, r.room new)
              | inr (old, there) ↦ omega (
                arith,
                length-put-present key entry old (make_room V key c).entries there,
                r.sound.bounded,
              )
            ];
            distinct = put-IsDistinct key entry (make_room V key c).entries r.sound.distinct;
          },
          r.counts.0,
          r.counts.1,
          elim r.evicted [ inl same ↦ inl same.0 | inr full ↦ inr full ],
          put-balanced key entry c (make_room V key c) r,
        )

  -- A read of a key after a write of it answers the value while no more than its time to live has
  -- passed, and nothing later.
  pub get-put-value :
      (key : String) (value : V) (ttl : Option ℤ) (now later : ℕ) (c d : ToolResultCache V)
      → put V key value ttl now c ≡ ok d
      → (get V key later d).0
        ≡ (if leb (later - now) (pos_part (ttl_of V ttl c)) then some value else none)
  unfolding get stored
  get-put-value key value ttl now later c d e =
      let entry = stored value (ttl_of V ttl c) now in
      let room = make_room V key c in
      let found : Dict.get key d.entries ≡ some entry =
        subst (λ (x : ToolResultCache V). Dict.get key x.entries ≡ some entry)
          (put-ok key value ttl now c d e).1
          (ground (arith, get-put key key entry room.entries, eq_iff key key)) in
      rw (get, found) (ground arith)
