-- ===== src/Tests/Boundaries.antt =====
-- The refinement of a boundary.
use yeson_meet.Prelude.{
  ℕ, List, [], ◌∷◌, some, text_eq, ◌≡◌, ◌≤◌, ◌<◌, ◌+◌, leb, if◌then◌else◌, refl, arith,
}
use yeson_meet.Prelude.Text.{Str, codes, join, starts_with, strip, join_words}
use yeson_meet.Scene.Tokens.{label_matches, squash, tokenize}
use yeson_meet.Scene.Boundaries.{Segment}
use yeson_meet.Refine.{Window, search_window, solve, refine}
use yeson_meet.Refine.Search.{search_window_finds}
use yeson_meet.Refine.Apply.{Adjoins, IsMove, labels, last_end, refine-Adjoins, solve-IsChange}
use yeson_meet.Tests.{ascii}

-- The slate changes at 1800 ms, the scan has it at 2000 ms.
abbrev first_label : Str
first_label = codes "EP_010"

abbrev second_label : Str
second_label = codes "EP_020"

abbrev pub label_at : ℕ → Str
label_at t_ms = if leb 1800 t_ms then second_label else first_label

abbrev pub segments : List Segment
segments =
    record { label = first_label; start_ms = 0; end_ms = 2000 }
    ∷ record { label = second_label; start_ms = 2000; end_ms = 4000 }
    ∷ []

abbrev pub delimiters : List Str
delimiters = codes "_" ∷ []

abbrev w : Window
w = record { b = 2000; floor = 0; ceil_ms = 4000; label = second_label; other = first_label }

search_window_found : search_window (leb 1800) 500 w ≡ some 1812
unfolding search_window
search_window_found = refl

search_window_finds_example :
    (x : ℕ) × (search_window (leb 1800) 500 w ≡ some x) × (1800 ≤ x) × (x < 1800 + 20)
search_window_finds_example =
    search_window_finds (leb 1800) 500 w 1800 (λ t_ms. refl) (omega arith) (omega arith)
      (omega arith) (omega arith) (omega arith) (omega arith)

solved : solve ascii delimiters label_at 500 segments 1 ≡ some (1, 1812)
unfolding solve label_matches squash join tokenize starts_with strip join_words
solved = refl

solve-IsChange_example : (◌≡◌ {A = ℕ} 1 1) × IsMove ascii delimiters label_at 500 segments 1 1812
solve-IsChange_example =
    solve-IsChange ascii delimiters label_at 500 segments 1 1 1812 0 4000 (ground arith) solved

refine-Adjoins_example :
    Adjoins (refine ascii delimiters label_at 500 segments)
    × (labels (refine ascii delimiters label_at 500 segments) ≡ labels segments)
    × (last_end (refine ascii delimiters label_at 500 segments) ≡ last_end segments)
refine-Adjoins_example = refine-Adjoins ascii delimiters label_at 500 segments (refl, tt)
