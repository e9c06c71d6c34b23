-- ===== src/Live/Session/Audio.antt =====
-- The queue keeps the latest chunks.
use yeson_meet.Prelude.{
  ℕ, List, Option, [], arith, drop, length, map, refl, some, suc, true, zero, ◌++◌, ◌+◌, ◌-◌, ◌∷◌,
  ◌≡◌, ◌≤◌, sym, ◌∙◌, Bool-cases, inl, inr, leb, leb→le, length-append, not_leb→lt, append-nil,
  append_assoc, ap, length-drop,
}
use yeson_meet.Live.Session.{AudioLiveSession, make_room, put_nowait, push_all, push_audio}

module _ {A : Type 0} where
  drop-append : (n : ℕ) (xs ys : List A) → n ≤ length xs → drop n xs ++ ys ≡ drop n (xs ++ ys)
  drop-append zero xs ys le = refl
  drop-append (suc n) [] ys le = absurd (omega arith)
  drop-append (suc n) (x ∷ xs) ys le = drop-append n xs ys (omega arith)

  drop-nil : (m : ℕ) → drop {A = A} m [] ≡ []
  drop-nil zero = refl
  drop-nil (suc m) = refl

  drop-drop : (m n k : ℕ) (xs : List A) → k ≡ n + m → drop m (drop n xs) ≡ drop k xs
  drop-drop m zero k xs e = let same : k ≡ m = omega arith in rw same
  drop-drop m (suc n) k [] e = drop-nil m ∙ sym (drop-nil k)
  drop-drop m (suc n) zero (x ∷ xs) e = absurd (omega arith)
  drop-drop m (suc n) (suc k) (x ∷ xs) e = drop-drop m n k xs (omega arith)

-- The last `n` entries of a list.
abbrev pub latest : {A : Type 0} → ℕ → List A → List A
latest n xs = drop (length xs - n) xs

module _ {Chunk : Type 0} where
  abbrev pub audio : List Chunk → List (Option Chunk)
  audio cs = map some cs

  abbrev pushed : Chunk → AudioLiveSession Chunk → AudioLiveSession Chunk
  pushed c s = put_nowait (some c) (make_room s)

  queue-pushed :
      (c : Chunk) (s : AudioLiveSession Chunk)
      → 1 ≤ s.capacity
      → length s.queue ≤ s.capacity
      → (pushed c s).queue ≡ latest s.capacity (s.queue ++ some c ∷ [])
  unfolding put_nowait make_room
  queue-pushed c s pos fit = elim (Bool-cases (leb s.capacity (length s.queue))) [
    | inl full ↦
        let one : length (s.queue ++ some c ∷ []) - s.capacity ≡ 1 =
          omega (arith, length-append s.queue (some c ∷ []), leb→le _ _ full) in
        rw one (
          ground (
            arith,
            drop-append 1 s.queue (some c ∷ []) (omega (arith, leb→le _ _ full)),
            length-drop 1 s.queue,
          ))
    | inr room ↦
        let none_lost : length (s.queue ++ some c ∷ []) - s.capacity ≡ 0 =
          omega (arith, length-append s.queue (some c ∷ []), not_leb→lt _ _ room) in
        rw none_lost (ground arith)
  ]

  dropped-pushed :
      (c : Chunk) (s : AudioLiveSession Chunk)
      → 1 ≤ s.capacity
      → length s.queue ≤ s.capacity
      → (pushed c s).dropped_chunks ≡ s.dropped_chunks + (length s.queue + 1 - s.capacity)
  unfolding put_nowait make_room
  dropped-pushed c s pos fit = ground (arith, length-drop 1 s.queue)

  config-pushed :
      (c : Chunk) (s : AudioLiveSession Chunk)
      → ((pushed c s).capacity ≡ s.capacity) × ((pushed c s).running ≡ s.running)
  unfolding put_nowait make_room
  config-pushed c s = ground arith

  latest-latest :
      (n : ℕ) (xs ys : List (Option Chunk)) → latest n (latest n xs ++ ys) ≡ latest n (xs ++ ys)
  latest-latest n xs ys =
      let k = length xs - n in
      let zs = xs ++ ys in
      rw (drop-append k xs ys (omega arith)) (
        drop-drop (length (drop k zs) - n) k (length zs - n) zs
          (omega (arith, length-drop k zs, length-append xs ys)))

  length-latest :
      (n : ℕ) (xs : List (Option Chunk)) → length (latest n xs) ≡ length xs - (length xs - n)
  length-latest n xs = length-drop (length xs - n) xs

  length-pushed :
      (c : Chunk) (s : AudioLiveSession Chunk)
      → 1 ≤ s.capacity
      → length s.queue ≤ s.capacity
      → length (pushed c s).queue ≡ length s.queue + 1 - (length s.queue + 1 - s.capacity)
  length-pushed c s pos fit = rw (
    queue-pushed c s pos fit,
    length-latest s.capacity (s.queue ++ some c ∷ []),
    length-append s.queue (some c ∷ []),
  )

  push_all-cons :
      (c : Chunk) (cs : List Chunk) (s : AudioLiveSession Chunk)
      → s.running ≡ true
      → push_all (c ∷ cs) s ≡ push_all cs (pushed c s)
  unfolding push_all push_audio
  push_all-cons c cs s run = ground arith

  latest-pushed :
      (c : Chunk) (s : AudioLiveSession Chunk) (ys : List (Option Chunk))
      → 1 ≤ s.capacity
      → length s.queue ≤ s.capacity
      → latest (pushed c s).capacity ((pushed c s).queue ++ ys)
        ≡ latest s.capacity (s.queue ++ some c ∷ ys)
  latest-pushed c s ys pos fit =
      ap (λ n. latest n ((pushed c s).queue ++ ys)) (config-pushed c s).0
      ∙ ap (λ q. latest s.capacity (q ++ ys)) (queue-pushed c s pos fit)
      ∙ latest-latest s.capacity (s.queue ++ some c ∷ []) ys
      ∙ ap (latest s.capacity) (append_assoc s.queue (some c ∷ []) ys)

  -- A running session that is given chunks keeps the latest ones, as many as the queue holds, in their
  -- order, and counts each one that it drops. It never refuses a chunk.
  pub push_all_lem :
      (cs : List Chunk) (s : AudioLiveSession Chunk)
      → s.running ≡ true
      → 1 ≤ s.capacity
      → length s.queue ≤ s.capacity
      → (s' : AudioLiveSession Chunk) × (push_all cs s ≡ some s')
        × (s'.queue ≡ latest s.capacity (s.queue ++ audio cs))
        × (s'.dropped_chunks ≡ s.dropped_chunks + (length (s.queue ++ audio cs) - s.capacity))
  unfolding push_all
  push_all_lem [] s run pos fit =
      let none_lost : length s.queue - s.capacity ≡ 0 = omega arith in
      (s, refl, rw (append-nil, none_lost), rw append-nil (omega arith))
  push_all_lem (c ∷ cs) s run pos fit =
      let s1 = pushed c s in
      let (cap, runs) = config-pushed c s in
      let size = length-pushed c s pos fit in
      let (s', pushes, queue, dropped) =
        push_all_lem cs s1 (runs ∙ run) (omega arith) (omega arith) in
      (
        s',
        push_all-cons c cs s run ∙ pushes,
        queue ∙ latest-pushed c s (audio cs) pos fit,
        omega (
          arith,
          dropped,
          dropped-pushed c s pos fit,
          length-append s1.queue (audio cs),
          length-append s.queue (some c ∷ audio cs),
        ),
      )
