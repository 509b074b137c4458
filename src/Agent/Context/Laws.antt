-- ===== src/Agent/Context/Laws.antt =====
-- Where the compression of a history ends, and what it leaves as it is.
use atlas_agent_control_plan.Prelude.{
  ℕ, zero, suc, ◌+◌, ◌-◌, ◌≤◌, ◌<◌, String, true, ◌≡◌, ◌⊎◌, refl, ap, subst, none, some, List, [],
  ◌∷◌, length, leb, ltb, arith, Bool-cases, Option-cases, inl, inr, if◌then◌else◌,
}
use mathlib.Core.Option.{some_inj}
use atlas_agent_control_plan.Agent.Context.{
  ContextBudgetConfig, Level, estimate_chars, first_level, tighten, render, tighten_loop, fuel_of,
  compress, digest_line,
}

-- A step of the loop takes from what can be tightened.
tighten-fuel :
    (total : ℕ) (level next : Level)
    → tighten total level ≡ some next
    → fuel_of total next < fuel_of total level
unfolding tighten fuel_of
tighten-fuel total level next h = elim (Bool-cases (ltb level.title_only (total - level.recent))) [
  | inl more ↦
      subst
        (λ (l : Level).
          l.recent + l.recent + l.digest_chars + (total - l.recent - l.title_only)
          < fuel_of total level)
        (some_inj.0 (rw more at h)) (ground (arith, more))
  | inr titled ↦ elim (Bool-cases (ltb 1 level.digest_chars)) [
    | inl long ↦
        subst
          (λ (l : Level).
            l.recent + l.recent + l.digest_chars + (total - l.recent - l.title_only)
            < fuel_of total level)
          (some_inj.0 (rw (titled, long) at h)) (ground (arith, long))
    | inr short ↦ elim (Bool-cases (ltb 0 level.recent)) [
      | inl full ↦
          subst
            (λ (l : Level).
              l.recent + l.recent + l.digest_chars + (total - l.recent - l.title_only)
              < fuel_of total level)
            (some_inj.0 (rw (titled, short, full) at h)) (ground (arith, titled, full))
      | inr empty ↦ absurd (ground (arith, rw (titled, short, empty) at h))
    ]
  ]
]

-- Nothing is left to tighten where no entry is in full and every entry has its title.
tighten-none :
    (total : ℕ) (level : Level)
    → tighten total level ≡ none
    → (level.recent ≡ 0) × (total ≤ level.title_only)
unfolding tighten
tighten-none total level h = ground (arith, h)

tighten-empty : (total : ℕ) (level : Level) → fuel_of total level ≡ 0 → tighten total level ≡ none
unfolding tighten fuel_of
tighten-empty total level h = ground (arith, h)

module _ (title_line : String → ℕ → String) (to_text : ℕ → String) (max_history_chars : ℕ)
    (history : List String) where
  -- What the loop ends with: the rendering fits, or nothing is left to tighten.
  abbrev IsEnd : Level → Type 0
  IsEnd level =
      (estimate_chars (render title_line to_text (length history) level 0 history)
        ≤ max_history_chars)
      ⊎ (tighten (length history) level ≡ none)

  tighten_loop-IsEnd :
      (fuel : ℕ) (level : Level)
      → fuel_of (length history) level ≤ fuel
      → IsEnd (tighten_loop title_line to_text fuel max_history_chars history level)
  unfolding tighten_loop
  tighten_loop-IsEnd zero level h = inr (tighten-empty (length history) level (omega (arith, h)))
  tighten_loop-IsEnd (suc fuel) level h =
      elim (Bool-cases (
        leb (estimate_chars (render title_line to_text (length history) level 0 history))
          max_history_chars)) [
            | inl fits ↦ rw fits (inl (ground (arith, fits)))
            | inr over ↦ elim (Option-cases (tighten (length history) level)) [
              | inl e ↦ rw (over, tighten_loop, e) (inr e)
              | inr (next, e) ↦
                  rw (over, tighten_loop, e)
                    (tighten_loop-IsEnd fuel next
                      (omega (arith, h, tighten-fuel (length history) level next e)))
            ]
          ]

-- Each entry by its title line.
abbrev pub titles : (String → ℕ → String) → ℕ → List String → List String
titles title_line index [] = []
titles title_line index (entry ∷ entries) =
    title_line entry index ∷ titles title_line (index + 1) entries

module _ (title_line : String → ℕ → String) (to_text : ℕ → String) where
  render-titles :
      (total : ℕ) (level : Level) (index : ℕ) (entries : List String)
      → level.recent ≡ 0
      → total ≤ level.title_only
      → index + length entries ≡ total
      → render title_line to_text total level index entries ≡ titles title_line index entries
  unfolding render
  render-titles total level index [] none_full titled h = refl
  render-titles total level index (entry ∷ entries) none_full titled h =
      rw (line level.recent level.title_only none_full titled h) (
        ap (λ rest. title_line entry index ∷ rest)
          (render-titles total level (index + 1) entries none_full titled (omega (arith, h))))
    where
      line :
          (recent title_only : ℕ)
          → recent ≡ 0
          → total ≤ title_only
          → index + suc (length entries) ≡ total
          → (if leb (total - recent) index
              then entry
              else if ltb index title_only
              then title_line entry index
              else digest_line title_line to_text entry level.digest_chars)
            ≡ title_line entry index
      line recent title_only r t h = ground (arith, r, t, h)

  -- The compression of a history is within the limit, or every entry of it is down to its title.
  pub compress-fits :
      (cfg : ContextBudgetConfig) (history : List String)
      → (estimate_chars (compress title_line to_text cfg history) ≤ cfg.max_history_chars)
        ⊎ (compress title_line to_text cfg history ≡ titles title_line 0 history)
  unfolding compress
  compress-fits cfg history =
      let total = length history in
      let first = first_level cfg total in
      let last =
        tighten_loop title_line to_text (fuel_of total first) cfg.max_history_chars history first in
      elim (tighten_loop-IsEnd title_line to_text cfg.max_history_chars history
        (fuel_of total first) first (omega arith)) [
          | inl fits ↦ inl fits
          | inr e ↦
              let (none_full, titled) = tighten-none total last e in
              inr (render-titles total last 0 history none_full titled (omega arith))
        ]

  pub length-render :
      (total : ℕ) (level : Level) (index : ℕ) (entries : List String)
      → length (render title_line to_text total level index entries) ≡ length entries
  unfolding render
  length-render total level index [] = refl
  length-render total level index (entry ∷ entries) =
      ap suc (length-render total level (index + 1) entries)

  render-full :
      (total : ℕ) (level : Level) (index : ℕ) (entries : List String)
      → total ≤ level.recent + index
      → render title_line to_text total level index entries ≡ entries
  unfolding render
  render-full total level index [] h = refl
  render-full total level index (entry ∷ entries) h =
      rw (full level.recent h)
        (ap (λ rest. entry ∷ rest) (render-full total level (index + 1) entries (omega (arith, h))))
    where
      full : (recent : ℕ) → total ≤ recent + index → leb (total - recent) index ≡ true
      full recent h = ground (arith, h)

  loop-fitting :
      (fuel limit : ℕ) (history : List String) (level : Level)
      → leb (estimate_chars (render title_line to_text (length history) level 0 history)) limit
        ≡ true
      → tighten_loop title_line to_text fuel limit history level ≡ level
  unfolding tighten_loop
  loop-fitting zero limit history level h = refl
  loop-fitting (suc fuel) limit history level h = rw h refl

  -- A history of no more steps than are kept in full, and within the limit, is left as it is.
  pub compress-short :
      (cfg : ContextBudgetConfig) (history : List String)
      → length history ≤ cfg.recent_steps_full
      → estimate_chars history ≤ cfg.max_history_chars
      → compress title_line to_text cfg history ≡ history
  unfolding compress first_level
  compress-short cfg history few fits =
      let total = length history in
      let first = first_level cfg total in
      let full = render-full total first 0 history (omega (arith, few)) in
      rw
        (loop-fitting (fuel_of total first) cfg.max_history_chars history first
          (rw full (ground (arith, fits))))
        full
