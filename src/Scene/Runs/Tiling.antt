-- ===== src/Scene/Runs/Tiling.antt =====
-- The groups of contiguous runs are contiguous.
use yeson_meet.Prelude.{
  ℕ, Bool, List, Option, Option-cases, [], arith, inl, inr, none, some, ◌++◌, ◌<◌, ◌∷◌, ◌≡◌, ◌≤◌,
  ◌⊎◌, refl, Bool-cases, drop, length, suc, if◌then◌else◌, ltb, map, zero, ap, any, false, true,
}
use yeson_meet.Prelude.Text.{Str, CharTable}
use yeson_meet.Scene.Tokens.{
  label_matches, build_label, grouping_key, upto_index, Mode, SlateRule, mode_indices,
}
use yeson_meet.Scene.Keys.{read_tokens}
use yeson_meet.Scene.Boundaries.{Span, to_segment}
use yeson_meet.Scene.Boundaries.Tiling.{TilesSpans, Tiles}
use yeson_meet.Scene.Runs.{
  SceneRun, Pending, first_match, hold, close, group_start, last_label, emit, extend, group_runs,
  continues, find_return, flanked, absorb_rounds, no_pending, runs_to_segments, sweep,
}

-- From `a` to `b`, each run begins where the one before ends, and none is empty.
abbrev pub RunsTile : ℕ → ℕ → List SceneRun → Type 0
RunsTile a b [] = a ≡ b
RunsTile a b (r ∷ rs) = (r.start_ms ≡ a) × (a < r.end_ms) × RunsTile r.end_ms b rs

-- A last group that is not empty and ends at `x`.
abbrev EndsAt : Option Span → ℕ → Type 0
EndsAt none x = Unit
EndsAt (some g) x = (g.end_ms ≡ x) × (g.start_ms < g.end_ms)

abbrev InBlock : ℕ → ℕ → List (ℕ × Str) → Type 0
InBlock s now [] = Unit
InBlock s now ((st, txt) ∷ ts) = (s ≤ st) × (st ≤ now) × InBlock s now ts

InBlock-append :
    (s now : ℕ) (ts us : List (ℕ × Str))
    → InBlock s now ts
    → InBlock s now us
    → InBlock s now (ts ++ us)
InBlock-append s now [] us h k = k
InBlock-append s now ((st, txt) ∷ ts) us h k = (h.0, h.1, InBlock-append s now ts us h.2 k)

InBlock-mono :
    (s now later : ℕ) (ts : List (ℕ × Str)) → now ≤ later → InBlock s now ts → InBlock s later ts
InBlock-mono s now later [] le h = tt
InBlock-mono s now later ((st, txt) ∷ ts) le h =
    (h.0, omega arith, InBlock-mono s now later ts le h.2)

-- What the loop knows of the last group and the block when it is at `now`.
record Waits (lo : ℕ) (cur : Option Span) (p : Pending) (now : ℕ) : Type 0 where
  idle : p.start ≡ none → (p.texts ≡ []) × EndsAt cur now × (lo ≤ now)
  blocked :
      (s : ℕ)
      → p.start ≡ some s
      → (s < now) × (p.end_ms ≡ now) × EndsAt cur s × InBlock s now p.texts × (lo ≤ s)

first_match-InBlock :
    (test : Str → Bool) (s now m : ℕ) (ts : List (ℕ × Str))
    → InBlock s now ts
    → first_match test ts ≡ some m
    → (s ≤ m) × (m ≤ now)
unfolding first_match
first_match-InBlock test s now m [] h e = absurd (ground arith)
first_match-InBlock test s now m ((st, txt) ∷ ts) h e =
    ground (arith, first_match-InBlock test s now m ts h.2)

-- The groups begin at the last group, if there is one. Otherwise there are groups exactly if some run
-- is readable, and they begin at `lo` or later.
abbrev From : Option Span → ℕ → ℕ → Bool → List Span → Type 0
From none lo b readable out =
    ((readable ≡ false) × (out ≡ []))
    ⊎ ((readable ≡ true) × ((a : ℕ) × (lo ≤ a) × (a < b) × TilesSpans a b out))
From (some g) lo b readable out = TilesSpans g.start_ms b out

hold_texts-InBlock :
    (s now : ℕ) (p : Pending) (r : SceneRun)
    → r.start_ms ≡ now
    → now < r.end_ms
    → s ≤ now
    → InBlock s r.end_ms p.texts
    → InBlock s r.end_ms (hold p r).texts
unfolding hold
hold_texts-InBlock s now p r at lt le h = ground (
  arith,
  InBlock-append s r.end_ms p.texts ((r.start_ms, r.text) ∷ []) h (omega arith, omega arith, tt),
)

hold-Waits :
    (lo : ℕ) (cur : Option Span) (p : Pending) (now : ℕ) (r : SceneRun)
    → r.start_ms ≡ now
    → now < r.end_ms
    → Waits lo cur p now
    → Waits lo cur (hold p r) r.end_ms
unfolding hold
hold-Waits lo cur p now r at lt w = elim (Option-cases p.start) [
  | inl e ↦ record { idle = λ x. absurd (ground arith); blocked = λ s x. ground (arith, w.idle e) }
  | inr (s', e) ↦ record {
    idle = λ x. absurd (ground arith);
    blocked = λ s x.
        let (lt', end, ends, block, above) = w.blocked s' e in
        let same : s' ≡ s = ground arith in
        let old : InBlock s r.end_ms p.texts =
          rw (← same) (InBlock-mono s' now r.end_ms p.texts (omega arith) block) in
        (
          omega arith,
          refl,
          rw (← same) ends,
          hold_texts-InBlock s now p r at lt (omega arith) old,
          omega arith,
        );
  }
]

close-From :
    (cur : Option Span) (p : Pending) (now lo : ℕ)
    → Waits lo cur p now
    → From cur lo now false (close cur p)
unfolding close
close-From none p now lo w = inl (refl, refl)
close-From (some g) p now lo w = elim (Option-cases p.start) [
  | inl e ↦ ground (arith, w.idle e)
  | inr (s, e) ↦ ground (arith, w.blocked s e)
]

module _ (t : CharTable) (ds : List Str) where
  -- A new group starts within the block, or with its run.
  group_start_bounds :
      (cur : Option Span) (p : Pending) (r : SceneRun) (label : Str) (s : ℕ)
      → p.start ≡ some s
      → s ≤ r.start_ms
      → InBlock s r.start_ms p.texts
      → (s ≤ group_start t ds cur p r label) × (group_start t ds cur p r label ≤ r.start_ms)
  unfolding group_start
  group_start_bounds cur p r label s e le block = grind (
    arith,
    first_match-InBlock (λ txt. label_matches t txt label (last_label cur) ds) s r.start_ms,
  )

  group_start_idle :
      (cur : Option Span) (p : Pending) (r : SceneRun) (label : Str)
      → p.start ≡ none
      → group_start t ds cur p r label ≡ r.start_ms
  unfolding group_start
  group_start_idle cur p r label e = ground arith

  abbrev Starts : Option Span → ℕ → ℕ → Type 0
  Starts none lo st = lo ≤ st
  Starts (some g) lo st = g.start_ms < st

  group_start-Starts :
      (lo : ℕ) (cur : Option Span) (p : Pending) (now : ℕ) (r : SceneRun) (label : Str)
      → Waits lo cur p now
      → r.start_ms ≡ now
      → Starts cur lo (group_start t ds cur p r label) × (group_start t ds cur p r label ≤ now)
  group_start-Starts lo cur p now r label w at = elim (Option-cases p.start) [
    | inl e ↦ idle_Starts cur (group_start_idle cur p r label e) (w.idle e)
    | inr (s, e) ↦
        let (lt, end, ends, block, above) = w.blocked s e in
        blocked_Starts cur s above ends
          (group_start_bounds cur p r label s e (omega arith) (rw at block))
  ]
    where
      idle_Starts :
          (cur : Option Span) {st : ℕ}
          → st ≡ r.start_ms
          → (p.texts ≡ []) × EndsAt cur now × (lo ≤ now)
          → Starts cur lo st × (st ≤ now)
      idle_Starts none e h = (omega arith, omega arith)
      idle_Starts (some g) e h = (omega arith, omega arith)

      blocked_Starts :
          (cur : Option Span) {st : ℕ} (s : ℕ)
          → lo ≤ s
          → EndsAt cur s
          → (s ≤ st) × (st ≤ r.start_ms)
          → Starts cur lo st × (st ≤ now)
      blocked_Starts none s h e b = (omega arith, omega arith)
      blocked_Starts (some g) s h e b = (omega arith, omega arith)

  emit-From :
      (cur : Option Span) (lo st b : ℕ) (rest : List Span)
      → Starts cur lo st
      → st < b
      → TilesSpans st b rest
      → From cur lo b true (emit cur st rest)
  emit-From none lo st b rest h lt tiles = inr (refl, (st, h, lt, tiles))
  emit-From (some g) lo st b rest h lt tiles = (refl, h, tiles)

  extend-From :
      (cur : Option Span) (k : Str) (lo e b : ℕ) (x : Bool) (out : List Span)
      → continues cur k ≡ true
      → From (extend cur e) lo b x out
      → From cur lo b true out
  unfolding continues
  extend-From none k lo e b x out same h = cc
  extend-From (some g) k lo e b x out same h = h

  fresh-Waits :
      (lo : ℕ) (cur : Option Span) (p : Pending) (now : ℕ)
      → lo ≤ now
      → EndsAt cur now
      → Waits lo cur (record p { start = none; texts = [] }) now
  fresh-Waits lo cur p now le ends = record {
    idle = λ e. (refl, ends, le);
    blocked = λ s e. absurd (ground arith);
  }

  extend-EndsAt :
      (lo : ℕ) (cur : Option Span) (p : Pending) (now e : ℕ)
      → now < e
      → Waits lo cur p now
      → EndsAt (extend cur e) e × (lo ≤ e)
  extend-EndsAt lo none p now e lt w = elim (Option-cases p.start) [
    | inl i ↦ ground (arith, w.idle i)
    | inr (s, i) ↦ ground (arith, w.blocked s i)
  ]
  extend-EndsAt lo (some g) p now e lt w = elim (Option-cases p.start) [
    | inl i ↦ ground (arith, w.idle i)
    | inr (s, i) ↦ ground (arith, w.blocked s i)
  ]

  module _ (indices : List ℕ) where
    -- A run with a group key.
    pub is_readable : SceneRun → Bool
    is_readable r = elim (grouping_key t (read_tokens t r.text ds) indices) [
      | none ↦ false
      | some k ↦ true
    ]

    RunsTile-le : (now b : ℕ) (rs : List SceneRun) → RunsTile now b rs → now ≤ b
    RunsTile-le now b [] h = omega arith
    RunsTile-le now b (r ∷ rs) h = omega (arith, RunsTile-le r.end_ms b rs h.2)

    group_runs-From :
        (lo : ℕ) (cur : Option Span) (p : Pending) (now b : ℕ) (rs : List SceneRun)
        → Waits lo cur p now
        → RunsTile now b rs
        → From cur lo b (any is_readable rs) (group_runs t ds indices cur p rs)
    unfolding group_runs is_readable
    group_runs-From lo cur p now b [] w h = rw (← h) (close-From cur p now lo w)
    group_runs-From lo cur p now b (r ∷ rs) w (at, lt, h) =
        let toks = read_tokens t r.text ds in
        elim (Option-cases (grouping_key t toks indices)) [
          | inl e ↦
              rw (e, group_runs, is_readable)
                (group_runs-From lo cur (hold p r) r.end_ms b rs (hold-Waits lo cur p now r at lt w)
                  h)
          | inr (k, e) ↦ elim (Bool-cases (continues cur k)) [
            | inl same ↦
                let (ends, le) = extend-EndsAt lo cur p now r.end_ms lt w in
                rw (e, same, group_runs, is_readable)
                  (extend-From cur k lo r.end_ms b _ _ same (
                    group_runs-From lo (extend cur r.end_ms) (record p { start = none; texts = [] })
                      r.end_ms b rs (fresh-Waits lo (extend cur r.end_ms) p r.end_ms le ends) h))
            | inr new ↦
                let label = build_label t toks (upto_index indices) in
                let start = group_start t ds cur p r label in
                let (starts, le) = group_start-Starts lo cur p now r label w at in
                let above = extend-EndsAt lo cur p now r.end_ms lt w in
                let g : Option Span =
                  some (record { key = k; label = label; start_ms = start; end_ms = r.end_ms }) in
                rw (e, new, group_runs, is_readable)
                  (emit-From cur lo start b _ starts (omega (arith, RunsTile-le r.end_ms b rs h)) (
                    group_runs-From lo g (record p { start = none; texts = [] }) r.end_ms b rs
                      (fresh-Waits lo g p r.end_ms above.1 (refl, omega arith)) h))
          ]
        ]

-- The absorption of flanked blocks keeps the cover.
find_return-Tiles :
    (k : Str) (a b : ℕ) (ss : List Span) (block : List Span) (back : Span)
    → TilesSpans a b ss
    → find_return k ss ≡ some (block, back)
    → (a < back.end_ms) × TilesSpans back.end_ms b (drop (suc (length block)) ss)
unfolding find_return
find_return-Tiles k a b [] block back t e = absurd (ground arith)
find_return-Tiles k a b (s ∷ ss) [] back t e = ground arith
find_return-Tiles k a b (s ∷ ss) (x ∷ block) back t e =
    ground (arith, find_return-Tiles k s.end_ms b ss block back t.2)

flanked-found :
    (cap : ℕ) (k : Str) (ss : List Span) (n e : ℕ)
    → flanked cap k ss ≡ some (n, e)
    → (block : List Span) × (back : Span) × (find_return k ss ≡ some (block, back))
      × (n ≡ length block)
      × (e ≡ back.end_ms)
unfolding flanked
flanked-found cap k ss n e h = elim (Option-cases (find_return k ss)) [
  | inl miss ↦ absurd (ground arith)
  | inr (([], back), found) ↦ absurd (ground arith)
  | inr ((s ∷ block, back), found) ↦ (s ∷ block, back, found, ground arith, ground arith)
]

flanked-Tiles :
    (cap : ℕ) (k : Str) (a b : ℕ) (s : Span) (ss : List Span) (n e : ℕ)
    → TilesSpans a b (s ∷ ss)
    → flanked cap k (s ∷ ss) ≡ some (n, e)
    → (a < e) × TilesSpans e b (drop n ss)
flanked-Tiles cap k a b s ss n e t h =
    let (block, back, found, size, end) = flanked-found cap k (s ∷ ss) n e h in
    rw (size, end) (find_return-Tiles k a b (s ∷ ss) block back t found)

sweep-Tiles :
    (cap a b : ℕ) (last : Span) (skip : ℕ) (ss : List Span)
    → last.start_ms ≡ a
    → a < last.end_ms
    → TilesSpans last.end_ms b (drop skip ss)
    → TilesSpans a b (sweep cap last skip ss).0
unfolding sweep
sweep-Tiles cap a b last zero [] at lt t = (at, lt, t)
sweep-Tiles cap a b last (suc n) [] at lt t = (at, lt, t)
sweep-Tiles cap a b last (suc n) (s ∷ ss) at lt t = sweep-Tiles cap a b last n ss at lt t
sweep-Tiles cap a b last zero (s ∷ ss) at lt t =
    elim (Option-cases (flanked cap last.key (s ∷ ss))) [
      | inl e ↦ rw (e, sweep) (at, lt, sweep-Tiles cap last.end_ms b s zero ss t.0 t.1 t.2)
      | inr ((n, e), h) ↦
          let (lt', t') = flanked-Tiles cap last.key last.end_ms b s ss n e t h in
          rw (h, sweep) (sweep-Tiles cap a b (record last { end_ms = e }) n ss at (omega arith) t')
    ]

absorb_rounds-Tiles :
    (rounds cap a b : ℕ) (gs : List Span)
    → TilesSpans a b gs
    → TilesSpans a b (absorb_rounds rounds cap gs)
unfolding absorb_rounds
absorb_rounds-Tiles zero cap a b gs t = t
absorb_rounds-Tiles (suc n) cap a b [] t = t
absorb_rounds-Tiles (suc n) cap a b (g ∷ gs) t =
    let swept = sweep-Tiles cap a b g zero gs t.0 t.1 t.2 in
    ground (arith, swept, absorb_rounds-Tiles n cap a b (sweep cap g zero gs).0 swept)

absorb-From :
    (cap a b : ℕ) (readable : Bool) (gs : List Span)
    → From none a b readable gs
    → From none a b readable (if ltb 0 cap then absorb_rounds 8 cap gs else gs)
unfolding absorb_rounds
absorb-From cap a b readable gs (inl (none_read, e)) = inl (none_read, rw e (ground arith))
absorb-From cap a b readable gs (inr (read, (s, le, lt, t))) =
    inr (read, (s, le, lt, ground (arith, absorb_rounds-Tiles 8 cap s b gs t)))

module _ (t : CharTable) where
  abbrev pub some_readable : List SceneRun → SlateRule → Mode → Bool
  some_readable runs rule mode = any (is_readable t rule.delimiters (mode_indices rule mode)) runs

  -- Contiguous runs from `a` to `b` of which none is readable give no segments. If one is readable,
  -- the segments cover the time from some point in `[a, b)` up to `b`: each begins where the one
  -- before ends, and none is empty, with or without the absorption of flanked blocks.
  pub runs_to_segments-Tiles :
      (runs : List SceneRun) (rule : SlateRule) (mode : Mode) (absorb_flanked_ms a b : ℕ)
      → RunsTile a b runs
      → ((some_readable runs rule mode ≡ false)
          × (runs_to_segments t runs rule mode absorb_flanked_ms ≡ []))
        ⊎ ((some_readable runs rule mode ≡ true)
            × ((s : ℕ) × (a ≤ s)
                × (s < b)
                × Tiles s b (runs_to_segments t runs rule mode absorb_flanked_ms)))
  unfolding runs_to_segments
  runs_to_segments-Tiles runs rule mode cap a b h =
      let start : Waits a none no_pending a = record {
        idle = λ e. (refl, tt, omega arith);
        blocked = λ s e. absurd (ground arith);
      } in
      let ds = rule.delimiters in
      let indices = mode_indices rule mode in
      elim (absorb-From cap a b _ _
        (group_runs-From t ds indices a none no_pending a b runs start h)) [
          | inl (none_read, e) ↦ inl (none_read, ap (map to_segment) e)
          | inr found ↦ inr found
        ]
