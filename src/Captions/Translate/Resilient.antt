-- ===== src/Captions/Translate/Resilient.antt =====
-- apps/server/domain/video_captions/translate.py: the halving of batches that the service gets wrong.
use yeson_meet.Prelude.{
  ℕ, List, [], arith, inl, inr, length, length-append, refl, suc, zero, ◌++◌, ◌∷◌, ◌≡◌, ◌≤◌, ◌⊎◌,
  Bool-cases, append-nil, append_assoc, drop, nat_eq, nat_eq_iff, subst, sym, take, take-drop, true,
  ◌/◌, ◌∙◌, length-drop, length-take_le, ◌≢◌,
}
use yeson_meet.Prelude.Text.{Str, codes, decimal, decimal_fuel}
use yeson_meet.Captions.Translate.{
  Answer, Service, Warning, Outcome, resilient, Verdict, accepted, and_then, batch, broken, crashed,
  finished, judge, mistaken, raised, refused, warning_of, translate_resilient, cause_or_unknown,
  mismatch,
}

judge-accepted :
    (xs ys : List Str) (a : Answer)
    → judge xs a ≡ accepted ys
    → (a ≡ batch ys) × (length ys ≡ length xs)
unfolding judge
judge-accepted xs ys (batch zs) h = ground arith
judge-accepted xs ys (refused why) h = cc
judge-accepted xs ys (crashed why) h = cc

judge-broken : (xs : List Str) (e : Str) (a : Answer) → judge xs a ≡ broken e → a ≡ crashed e
unfolding judge
judge-broken xs e (batch zs) h = ground arith
judge-broken xs e (refused why) h = cc
judge-broken xs e (crashed why) h = cc

pub Verdict-cases :
    (v : Verdict)
    → ((ys : List Str) × (v ≡ accepted ys))
      ⊎ (((why : Str) × (v ≡ mistaken why)) ⊎ ((e : Str) × (v ≡ broken e)))
Verdict-cases (accepted ys) = inl (ys, refl)
Verdict-cases (mistaken why) = inr (inl (why, refl))
Verdict-cases (broken e) = inr (inr (e, refl))

-- Why an answer to a single text is not taken.
abbrev pub Explains : Str → Answer → Type 0
Explains why (batch ys) =
    (length ys ≢ 1) × (why ≡ codes "반환 개수 불일치(" ++ (decimal (length ys) ++ codes " != 1)"))
Explains why (refused said) = why ≡ said
Explains why (crashed said) = ⊥

-- The cause as it is logged: an empty one is "unknown".
abbrev pub said : Str → Str
said [] = codes "원인 미상"
said (c ∷ why) = c ∷ why

judge-mistaken : (x why : Str) (a : Answer) → judge (x ∷ []) a ≡ mistaken why → Explains why a
unfolding judge mismatch decimal decimal_fuel
judge-mistaken x why (batch ys) h = elim (Bool-cases (nat_eq (length ys) 1)) [
  | inl fits ↦ absurd (ground arith)
  | inr wrong ↦ ((λ e. absurd (ground (arith, e))), ground arith)
]
judge-mistaken x why (refused said) h = ground arith
judge-mistaken x why (crashed said) h = cc

cause_or_unknown-said : (why : Str) → cause_or_unknown why ≡ said why
unfolding cause_or_unknown
cause_or_unknown-said [] = refl
cause_or_unknown-said (c ∷ why) = refl

module _ {ℓ} {σ : Type ℓ} (service : Service σ) where
  -- Texts and their translations, with the warnings: the translations are put together from answers
  -- of the service to consecutive texts, each as long as what was sent, and from single texts that
  -- are kept as they are, with a warning each that gives the service's reason and the start of the text.
  pub data Pieces : List Str → List Str → List Warning → Type ℓ where
    nothing : Pieces [] [] []
    answered :
        (st : σ) (xs ys : List Str)
        → (service st xs).0 ≡ batch ys
        → length ys ≡ length xs
        → Pieces xs ys []
    kept :
        (st : σ) (x why : Str)
        → Explains why (service st (x ∷ [])).0
        → Pieces (x ∷ []) (x ∷ []) (record { cause = said why; source = take 60 x } ∷ [])
    joined :
        (xs ys xs' ys' : List Str) (v w : List Warning)
        → Pieces xs ys v
        → Pieces xs' ys' w
        → Pieces (xs ++ xs') (ys ++ ys') (v ++ w)

  pub Pieces-length : {xs ys : List Str} {w : List Warning} → Pieces xs ys w → length ys ≡ length xs
  Pieces-length nothing = refl
  Pieces-length (answered st xs ys h k) = k
  Pieces-length (kept st x why h) = refl
  Pieces-length (joined xs ys xs' ys' v w p q) =
      ground (arith, Pieces-length p, Pieces-length q, length-append xs xs', length-append ys ys')

  -- A result is put together in that way and its warnings are added to the log; an exception is one
  -- of the service.
  abbrev pub IsSound : List Str → List Warning → Outcome σ (List Str) → Type ℓ
  IsSound xs log (finished ys log' st) = (w : List Warning) × ((log' ≡ log ++ w) × Pieces xs ys w)
  IsSound xs log (raised e log' st) = (s : σ) × (ts : List Str) × ((service s ts).0 ≡ crashed e)

  joined_up : List Str → Outcome σ (List Str) → Outcome σ (List Str)
  joined_up left o = and_then o (λ right log'' st''. finished (left ++ right) log'' st'')

  join_right :
      (xs xs' left : List Str) (v : List Warning) (log : List Warning) (o : Outcome σ (List Str))
      → Pieces xs left v
      → IsSound xs' (log ++ v) o
      → IsSound (xs ++ xs') log (joined_up left o)
  unfolding joined_up and_then
  join_right xs xs' left v log (finished right log'' st) p (w, (eq, q)) =
      (v ++ w, (eq ∙ append_assoc log v w, joined xs left xs' right v w p q))
  join_right xs xs' left v log (raised e log'' st) p h = h

  split-IsSound :
      (n : ℕ) (xs : List Str) (log : List Warning) (o : Outcome σ (List Str))
      (next : List Warning → σ → Outcome σ (List Str))
      → IsSound (take n xs) log o
      → ((log' : List Warning) (st : σ) → IsSound (drop n xs) log' (next log' st))
      → IsSound xs log (and_then o (λ left log' st'. joined_up left (next log' st')))
  unfolding and_then
  split-IsSound n xs log (finished left log' st) next (v, (eq, p)) k =
      subst (λ zs. IsSound zs log (joined_up left (next log' st))) (take-drop n xs)
        (join_right (take n xs) (drop n xs) left v log (next log' st) p
          (subst (λ l. IsSound (drop n xs) l (next log' st)) eq (k log' st)))
  split-IsSound n xs log (raised e log' st) next h k = h

  kept_one :
      (st : σ) (x : Str) (xs : List Str) (why : Str)
      → nat_eq (length (x ∷ xs)) 1 ≡ true
      → judge (x ∷ xs) (service st (x ∷ xs)).0 ≡ mistaken why
      → Pieces (x ∷ xs) (x ∷ xs) (warning_of why x ∷ [])
  kept_one st x [] why h k =
      subst (λ c. Pieces (x ∷ []) (x ∷ []) (record { cause = c; source = take 60 x } ∷ []))
        (sym (cause_or_unknown-said why))
        (kept st x why (judge-mistaken x why (service st (x ∷ [])).0 k))
  kept_one st x (y ∷ ys) why h k = absurd (omega (arith, (nat_eq_iff (length (x ∷ y ∷ ys)) 1).0 h))

  resilient-IsSound :
      (fuel : ℕ) (xs : List Str) (log : List Warning) (st : σ)
      → length xs ≤ fuel
      → IsSound xs log (resilient service fuel xs log st)
  unfolding resilient joined_up
  resilient-IsSound fuel [] log st h = ([], (sym (append-nil log), nothing))
  resilient-IsSound zero (x ∷ xs) log st h = absurd (omega arith)
  resilient-IsSound (suc fuel) (x ∷ xs) log st h =
      let a = (service st (x ∷ xs)).0 in
      let st' = (service st (x ∷ xs)).1 in
      elim (Verdict-cases (judge (x ∷ xs) a)) [
        | inl (ys, fits) ↦
            rw (fits, IsSound)
              (
                [],
                (
                  sym (append-nil log),
                  answered st (x ∷ xs) ys (judge-accepted (x ∷ xs) ys a fits).0
                      (judge-accepted (x ∷ xs) ys a fits).1,
                ),
              )
        | inr (inr (e, bad)) ↦ rw (bad, IsSound) (st, x ∷ xs, judge-broken (x ∷ xs) e a bad)
        | inr (inl (why, wrong)) ↦ elim (Bool-cases (nat_eq (length (x ∷ xs)) 1)) [
          | inl one ↦
              rw (wrong, one, IsSound)
                (warning_of why x ∷ [], (refl, kept_one st x xs why one wrong))
          | inr several ↦
              let more : 1 ≤ length xs = ground arith in
              rw (wrong, several, IsSound)
                (split-IsSound (length (x ∷ xs) / 2) (x ∷ xs) log
                  (resilient service fuel (take (length (x ∷ xs) / 2) (x ∷ xs)) log st')
                  (λ log' st''.
                    resilient service fuel (drop (length (x ∷ xs) / 2) (x ∷ xs)) log' st'')
                  (resilient-IsSound fuel (take (length (x ∷ xs) / 2) (x ∷ xs)) log st'
                    (omega (arith, length-take_le (length (x ∷ xs) / 2) (x ∷ xs))))
                  (λ log' st''.
                    resilient-IsSound fuel (drop (length (x ∷ xs) / 2) (x ∷ xs)) log' st''
                      (omega (arith, length-drop (length (x ∷ xs) / 2) (x ∷ xs)))))
        ]
      ]

  -- A batch of captions comes back with as many texts, each from the answer of the service to a run
  -- of them or left as it is, with a warning that has the reason of the service's refusal of that text,
  -- or the number of texts that it gave for it; an exception passes only if the service raised it and
  -- it is no `TranslationError`. The halving ends within as many rounds as texts.
  pub translate_resilient-IsSound :
      (xs : List Str) (log : List Warning) (st : σ)
      → IsSound xs log (translate_resilient service xs log st)
  unfolding translate_resilient
  translate_resilient-IsSound xs log st = resilient-IsSound (length xs) xs log st (omega arith)
