-- ===== src/Captions/Retranslate.antt =====
-- apps/server/api/v1/video_jobs.py, `retranslate_video_job`: the captions that still copy their source
-- are translated again. The rows of the job, its status, and whether the engine can be used are
-- arguments; the translator is the service of the translation.
pub mod Remaining
use yeson_meet.Prelude.{
  ℕ_eq, ℕ, Bool, List, Option, [], if◌then◌else◌, keep, length, map, none, not, some, suc, ◌-◌, ◌∷◌,
}
use yeson_meet.Prelude.Dict.{Dict, get, put}
use yeson_meet.Prelude.Text.{Str, CharTable, codes}
use yeson_meet.Glossary.{Term, is_one_of}
use yeson_meet.Captions.{SubSegment}
use yeson_meet.Captions.Translate.{Service, translate_segments, finished, raised}
use yeson_meet.Captions.Guard.{is_source_copy, is_untranslated}

-- `VideoSegment`
pub record Row : Type 0 where
  pub seq : ℕ
  pub start_ms : ℕ
  pub end_ms : ℕ
  pub text_en : Str
  pub text_ko : Str

pub record Counts : Type 0 where
  pub total : ℕ
  pub retranslated : ℕ
  pub remaining : ℕ

-- The rows afterwards and the answer; a conflict for the status or for the engine; or an exception.
pub data Reply : Type 0 where
  answered : List Row → Counts → Reply
  busy : Str → Reply
  unavailable : Reply
  failed : Str → Reply

-- `{s.seq: s.text for s in out}`
unfoldable pub by_seq : Dict ℕ Str → List SubSegment → Dict ℕ Str
by_seq d [] = d
by_seq d (s ∷ ss) = by_seq (put s.seq s.text d) ss

abbrev pub segment_of : Row → SubSegment
segment_of r = record { seq = r.seq; start_ms = r.start_ms; end_ms = r.end_ms; text = r.text_en }

module _ (t : CharTable) where
  abbrev pub is_target : Row → Bool
  is_target r = is_source_copy t r.text_en r.text_ko

  -- The new text of a target, if it is stored.
  unfoldable pub accepted_text : Dict ℕ Str → Row → Option Str
  accepted_text d r = elim (get r.seq d) [
    | none ↦ none
    | some ko ↦ if is_untranslated t r.text_en ko then none else some ko
  ]

  -- The loop over the targets: it counts the texts that it stores.
  unfoldable pub count_stored : Dict ℕ Str → List Row → ℕ
  unfolding accepted_text
  count_stored d [] = 0
  count_stored d (r ∷ rs) = elim (accepted_text d r) [
    | none ↦ count_stored d rs
    | some ko ↦ suc (count_stored d rs)
  ]

  -- A row after the loop: the targets are the rows themselves.
  unfoldable pub after_store : Dict ℕ Str → Row → Row
  unfolding accepted_text
  after_store d r =
      if is_target r
      then elim (accepted_text d r) [
        | none ↦ r
        | some ko ↦ record {
          seq = r.seq;
          start_ms = r.start_ms;
          end_ms = r.end_ms;
          text_en = r.text_en;
          text_ko = ko;
        }
      ]
      else r

  -- Storing the translations in the rows, and the answer.
  unfoldable pub store_texts : List Row → List Row → List SubSegment → Reply
  unfolding by_seq count_stored after_store
  store_texts rows targets out =
      let d = by_seq [] out in
      answered (map (after_store d) rows) (record {
        total = length targets;
        retranslated = count_stored d targets;
        remaining = length targets - count_stored d targets;
      })

  unfoldable pub retranslate {ℓ} :
      {σ : Type ℓ} → Service σ → List Term → Str → Bool → List Row → σ → Reply
  unfolding store_texts
  retranslate service terms status engine_available rows st =
      if not
        (is_one_of status (codes "review" ∷ codes "done" ∷ codes "error" ∷ codes "cancelled" ∷ []))
      then busy status
      else if not engine_available
      then unavailable
      else elim (keep is_target rows) [
        | [] ↦ answered rows (record { total = 0; retranslated = 0; remaining = 0 })
        | r ∷ rs ↦ elim (translate_segments service t terms 50 (map segment_of (r ∷ rs)) st) [
          | raised e log st' ↦ failed e
          | finished out log st' ↦ store_texts rows (r ∷ rs) out
        ]
      ]
