-- ===== src/Captions/Retranslate/Remaining.antt =====
-- apps/server/api/v1/video_jobs.py, `retranslate_video_job`: what it leaves alone and what it counts.
use yeson_meet.Prelude.{
  ℕ, ℕ_eq, Bool-cases, List, Option-cases, [], arith, false, inl, inr, keep, length, map, refl,
  some, true, ◌+◌, ◌∷◌, ◌≡◌, ◌⊎◌, Bool, ap, subst, sym,
}
use yeson_meet.Prelude.Dict.{Dict}
use yeson_meet.Prelude.Text.{Str, CharTable}
use yeson_meet.Glossary.{Term}
use yeson_meet.Captions.{SubSegment}
use yeson_meet.Captions.Translate.{Service, Outcome, finished, raised, translate_segments}
use yeson_meet.Captions.Guard.{is_untranslated, is_source_copy}
use yeson_meet.Captions.Guard.Verdicts.{is_source_copy-is_untranslated}
use yeson_meet.Captions.Retranslate.{
  Row, accepted_text, after_store, count_stored, Reply, answered, busy, by_seq, failed, retranslate,
  store_texts, unavailable, segment_of,
}

module _ (t : CharTable) where
  -- The row is as it was, or its Korean was a copy of the source and is a translation now.
  abbrev pub IsUpdate : Row → Row → Type 0
  IsUpdate r r' =
      (r' ≡ r)
      ⊎ ((is_source_copy t r.text_en r.text_ko ≡ true)
          × (is_untranslated t r.text_en r'.text_ko ≡ false)
          × (r' ≡ record {
            seq = r.seq;
            start_ms = r.start_ms;
            end_ms = r.end_ms;
            text_en = r.text_en;
            text_ko = r'.text_ko;
          }))

  abbrev pub AreUpdates : List Row → List Row → Type 0
  AreUpdates [] [] = Unit
  AreUpdates (r ∷ rs) (s ∷ ss) = IsUpdate r s × AreUpdates rs ss
  AreUpdates _ _ = ⊥

  accepted_text-translated :
      (d : Dict ℕ Str) (r : Row) (ko : Str)
      → accepted_text t d r ≡ some ko
      → is_untranslated t r.text_en ko ≡ false
  unfolding accepted_text
  accepted_text-translated d r ko h = ground arith

  after_store-IsUpdate : (d : Dict ℕ Str) (r : Row) → IsUpdate r (after_store t d r)
  unfolding after_store
  after_store-IsUpdate d r = elim (Bool-cases (is_source_copy t r.text_en r.text_ko)) [
    | inr other ↦ inl (rw (other, after_store) refl)
    | inl target ↦ elim (Option-cases (accepted_text t d r)) [
      | inl nothing ↦ inl (rw (target, nothing, after_store) refl)
      | inr (ko, stored) ↦
          inr
            (rw (target, stored, after_store) (refl, accepted_text-translated d r ko stored, refl))
    ]
  ]

  AreUpdates-map : (d : Dict ℕ Str) (rs : List Row) → AreUpdates rs (map (after_store t d) rs)
  AreUpdates-map d [] = tt
  AreUpdates-map d (r ∷ rs) = (after_store-IsUpdate d r, AreUpdates-map d rs)

  AreUpdates-refl : (rs : List Row) → AreUpdates rs rs
  AreUpdates-refl [] = tt
  AreUpdates-refl (r ∷ rs) = (inl refl, AreUpdates-refl rs)

  abbrev pub copies : List Row → List Row
  copies = keep (λ r. is_source_copy t r.text_en r.text_ko)

  accepted_text-is_source_copy :
      (d : Dict ℕ Str) (r : Row) (ko : Str)
      → accepted_text t d r ≡ some ko
      → is_source_copy t r.text_en ko ≡ false
  accepted_text-is_source_copy d r ko h =
      is_source_copy-is_untranslated t r.text_en ko (accepted_text-translated d r ko h)

  count_stored-copies :
      (d : Dict ℕ Str) (rs : List Row)
      → count_stored t d (copies rs) + length (copies (map (after_store t d) rs))
        ≡ length (copies rs)
  unfolding count_stored after_store
  count_stored-copies d [] = refl
  count_stored-copies d (r ∷ rs) = elim (Bool-cases (is_source_copy t r.text_en r.text_ko)) [
    | inr other ↦ ground (arith, count_stored-copies d rs)
    | inl target ↦ elim (Option-cases (accepted_text t d r)) [
      | inl nothing ↦ ground (arith, count_stored-copies d rs)
      | inr (ko, stored) ↦
          ground (arith, count_stored-copies d rs, accepted_text-is_source_copy d r ko stored)
    ]
  ]

  -- What a reply says of the rows from before.
  abbrev pub IsHonest : List Row → Reply → Type 0
  IsHonest rows (answered rows' counts) =
      AreUpdates rows rows'
      × (counts.total ≡ length (copies rows))
      × (counts.remaining ≡ length (copies rows'))
      × (counts.retranslated + counts.remaining ≡ counts.total)
  IsHonest rows (busy status) = Unit
  IsHonest rows unavailable = Unit
  IsHonest rows (failed e) = Unit

  store_texts-IsHonest :
      (rows : List Row) (out : List SubSegment)
      → IsHonest rows (store_texts t rows (copies rows) out)
  unfolding store_texts
  store_texts-IsHonest rows out =
      let d = by_seq [] out in
      let counted = count_stored-copies d rows in
      (AreUpdates-map d rows, refl, omega (arith, counted), omega (arith, counted))

  outcome-IsHonest {ℓ} :
      {σ : Type ℓ} (rows ts : List Row) (o : Outcome σ (List SubSegment))
      → copies rows ≡ ts
      → IsHonest rows (elim o [
        | raised e log st' ↦ failed e
        | finished out log st' ↦ store_texts t rows ts out
      ])
  outcome-IsHonest rows ts (raised e log st) h = tt
  outcome-IsHonest rows ts (finished out log st) h =
      subst (λ us. IsHonest rows (store_texts t rows us out)) h (store_texts-IsHonest rows out)

  copies-IsHonest {ℓ} :
      {σ : Type ℓ} (service : Service σ) (terms : List Term) (rows ts : List Row) (st : σ)
      → copies rows ≡ ts
      → IsHonest rows (elim ts [
        | [] ↦ answered rows (record { total = 0; retranslated = 0; remaining = 0 })
        | r ∷ rs ↦ elim (translate_segments service t terms 50 (map segment_of (r ∷ rs)) st) [
          | raised e log st' ↦ failed e
          | finished out log st' ↦ store_texts t rows (r ∷ rs) out
        ]
      ])
  copies-IsHonest service terms rows [] st h =
      let none_left : length (copies rows) ≡ 0 = ap length h in
      (AreUpdates-refl rows, sym none_left, sym none_left, refl)
  copies-IsHonest service terms rows (r ∷ rs) st h =
      outcome-IsHonest rows (r ∷ rs)
        (translate_segments service t terms 50 (map segment_of (r ∷ rs)) st) h

  -- An answer changes only rows whose Korean was a copy of the source, and only their Korean, to a text
  -- that is no longer untranslated; it counts as total the copies before, as remaining the copies that
  -- are left afterwards, and as retranslated the difference.
  pub retranslate-IsHonest {ℓ} :
      {σ : Type ℓ} (service : Service σ) (terms : List Term) (status : Str) (available : Bool)
      (rows : List Row) (st : σ)
      → IsHonest rows (retranslate t service terms status available rows st)
  unfolding retranslate
  retranslate-IsHonest service terms status available rows st =
      ground (arith, copies-IsHonest service terms rows (copies rows) st refl)
