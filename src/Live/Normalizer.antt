-- ===== src/Live/Normalizer.antt =====
-- apps/server/ws/sidecar.py: `AISequenceNormalizer`, the sequence numbers of subtitles across the
-- reconnects of the provider. Of an utterance only the numbers matter here.
pub mod Order
use yeson_meet.Prelude.{ℕ_eq, ℕ, List, [], if◌then◌else◌, max, nat_eq, none, some, ◌+◌, ◌∷◌}
use yeson_meet.Prelude.Dict.{Dict, get, put}

pub record Utterance : Type 0 where
  pub provider_segment : ℕ
  pub seq : ℕ

pub record AiSequenceNormalizer : Type 0 where
  pub offset : ℕ
  pub last_assigned_seq : ℕ
  pub last_segment : ℕ
  pub provider_to_assigned : Dict ℕ ℕ

unfoldable pub new_normalizer : ℕ → AiSequenceNormalizer
new_normalizer initial_offset = record {
  offset = initial_offset;
  last_assigned_seq = initial_offset;
  last_segment = 0;
  provider_to_assigned = [];
}

-- A new segment of the provider starts after the last number that was assigned.
pub enter_segment : AiSequenceNormalizer → ℕ → AiSequenceNormalizer
enter_segment n segment = if nat_eq segment n.last_segment then n else record n {
  offset = n.last_assigned_seq;
  provider_to_assigned = [];
  last_segment = segment;
}

-- `setdefault`, then the maximum.
pub assign : AiSequenceNormalizer → ℕ → AiSequenceNormalizer × ℕ
assign n seq = elim (get seq n.provider_to_assigned) [
  | some a ↦ (record n { last_assigned_seq = max n.last_assigned_seq a }, a)
  | none ↦
      let a = n.offset + seq in
      (
        record n {
          provider_to_assigned = put seq a n.provider_to_assigned;
          last_assigned_seq = max n.last_assigned_seq a;
        },
        a,
      )
]

unfoldable pub normalize : AiSequenceNormalizer → Utterance → AiSequenceNormalizer × ℕ
unfolding enter_segment assign
normalize n u = assign (enter_segment n u.provider_segment) u.seq

-- The state after some utterances, and the numbers they got, the latest first.
unfoldable pub normalize_all :
    AiSequenceNormalizer → List ℕ → List Utterance → AiSequenceNormalizer × List ℕ
unfolding normalize
normalize_all n out [] = (n, out)
normalize_all n out (u ∷ us) = normalize_all (normalize n u).0 ((normalize n u).1 ∷ out) us
