-- ===== src/Scene/Boundaries/Spacing.antt =====
-- Neighbouring spans differ in their keys, and short spans do not survive.
use yeson_meet.Prelude.{
  ℕ, Bool, List, [], arith, false, refl, subst, sym, ◌-◌, ◌/◌, ◌==◌, ◌∷◌, ◌≡◌, text_eq,
}
use yeson_meet.Prelude.Text.{Str}
use yeson_meet.Scene.Keys.{Keyed}
use yeson_meet.Scene.Boundaries.{
  Span, boundary_spans, centre, centre_from, join_all, join_same, pull_first,
}

-- The keys of a list of spans differ from neighbour to neighbour, the first from `k`.
abbrev pub DifferFrom : Str → List Span → Type 0
DifferFrom k [] = Unit
DifferFrom k (s ∷ ss) = ((s.key == k) ≡ false) × DifferFrom s.key ss

abbrev pub Differ : List Span → Type 0
Differ [] = Unit
Differ (s ∷ ss) = DifferFrom s.key ss

abbrev BeginsWith : Str → List Span → Type 0
BeginsWith k [] = ⊥
BeginsWith k (s ∷ ss) = (s.key ≡ k) × DifferFrom k ss

BeginsWith→DifferFrom :
    (k j : Str) (ss : List Span) → BeginsWith j ss → (j == k) ≡ false → DifferFrom k ss
BeginsWith→DifferFrom k j [] b h = absurd b
BeginsWith→DifferFrom k j (s ∷ ss) (e, d) h = (ground arith, subst (λ i. DifferFrom i ss) (sym e) d)

join_same-BeginsWith : (cur : Span) (ss : List Span) → BeginsWith cur.key (join_same cur ss)
unfolding join_same
join_same-BeginsWith cur [] = (refl, tt)
join_same-BeginsWith cur (s ∷ ss) = ground (
  arith,
  join_same-BeginsWith (record cur { end_ms = s.end_ms }) ss,
  join_same-BeginsWith s ss,
  BeginsWith→DifferFrom cur.key s.key (join_same s ss),
)

BeginsWith→Differ : (k : Str) (ss : List Span) → BeginsWith k ss → Differ ss
BeginsWith→Differ k [] b = tt
BeginsWith→Differ k (s ∷ ss) (e, d) = subst (λ i. DifferFrom i ss) (sym e) d

join_all-Differ : (ss : List Span) → Differ (join_all ss)
unfolding join_all
join_all-Differ [] = tt
join_all-Differ (s ∷ ss) = BeginsWith→Differ s.key (join_same s ss) (join_same-BeginsWith s ss)

centre_from-BeginsWith :
    (m : ℕ) (cur : Span) (ss : List Span)
    → DifferFrom cur.key ss
    → BeginsWith cur.key (centre_from m cur ss)
unfolding centre_from
centre_from-BeginsWith m cur [] d = (refl, tt)
centre_from-BeginsWith m cur (s ∷ ss) d = ground (
  arith,
  centre_from-BeginsWith m (record s { start_ms = s.start_ms - m }) ss,
  centre_from-BeginsWith m s ss,
  BeginsWith→DifferFrom cur.key s.key (centre_from m s ss),
  BeginsWith→DifferFrom cur.key s.key (centre_from m (record s { start_ms = s.start_ms - m }) ss),
)

centre-Differ : (m : ℕ) (ss : List Span) → Differ ss → Differ (centre m ss)
unfolding centre
centre-Differ m [] d = tt
centre-Differ m (s ∷ ss) d = ground (
  arith,
  BeginsWith→Differ s.key (centre_from (m / 2) s ss) (centre_from-BeginsWith (m / 2) s ss d),
)

pull_first-Differ :
    (m : ℕ) (fs : List Keyed) (ss : List Span) → Differ ss → Differ (pull_first m fs ss)
unfolding pull_first
pull_first-Differ m [] ss d = d
pull_first-Differ m (f ∷ fs) [] d = tt
pull_first-Differ m (f ∷ fs) (s ∷ ss) d = ground arith

-- Neighbouring spans of the result have different group keys, whatever the samples are.
pub boundary_spans-Differ :
    (keyed : List Keyed) (total min_ms interval : ℕ) (absorb : Bool)
    → Differ (boundary_spans keyed total min_ms interval absorb)
unfolding boundary_spans
boundary_spans-Differ keyed total min_ms interval absorb =
    pull_first-Differ interval keyed _ (centre-Differ interval _ (join_all-Differ _))
