-- ===== src/Export/Files.antt =====
-- Which segments are written, under which names.
use yeson_meet.Prelude.{
  ℕ, true, false, List, [], ◌∷◌, ◌++◌, Option, some, length, map, ltb, nat_eq, ◌+◌, ◌≡◌, ◌||◌, ◌&&◌,
  keep, append_assoc, append-nil, refl, arith, ap, sym, ◌∙◌, zero, suc, none, any, Bool, get_elem?,
  Bool-cases, inl, inr, if_both, ltb→lt, subst, leb, ◌≤◌,
}
use yeson_meet.Prelude.Text.{Str, CharTable}
use yeson_meet.Scene.Boundaries.{Segment}
use yeson_meet.Refine.{range}
use yeson_meet.Fingerprint.Cuts.{Ascending, Ascending-mono}
use yeson_meet.Export.{
  is_in, insert_index, sorted_set, pick, cuts, Status, name_at, write_files, file_names,
  run_scene_export,
}

is_in-insert_index :
    (i j : ℕ) (is : List ℕ) → is_in i (insert_index j is) ≡ (nat_eq i j || is_in i is)
unfolding insert_index is_in
is_in-insert_index i j [] = ground arith
is_in-insert_index i j (k ∷ is) = ground (arith, is_in-insert_index i j is)

is_in-sorted_set : (i : ℕ) (is : List ℕ) → is_in i (sorted_set is) ≡ is_in i is
unfolding sorted_set is_in
is_in-sorted_set i [] = refl
is_in-sorted_set i (j ∷ is) =
    ground (arith, is_in-insert_index i j (sorted_set is), is_in-sorted_set i is)

is_in-keep : (i n : ℕ) (is : List ℕ) → is_in i (keep (λ j. ltb j n) is) ≡ (is_in i is && ltb i n)
unfolding is_in
is_in-keep i n [] = ground arith
is_in-keep i n (j ∷ is) = ground (arith, is_in-keep i n is)

-- A segment is picked exactly if it is asked for and exists.
pub is_in-pick :
    (i n : ℕ) (indices : List ℕ) → is_in i (pick n (some indices)) ≡ (is_in i indices && ltb i n)
unfolding pick
is_in-pick i n indices =
    ground (arith, is_in-keep i n (sorted_set indices), is_in-sorted_set i indices)

insert_index-Ascending :
    (a i : ℕ) (js : List ℕ) → a ≤ i → Ascending a js → Ascending a (insert_index i js)
unfolding insert_index
insert_index-Ascending a i [] le h = (le, tt)
insert_index-Ascending a i (j ∷ js) le h =
    if_both (Ascending a) (ltb i j) (λ less. (le, (omega (arith, ltb→lt i j less), h.1)))
      (λ not_lt.
        if_both (Ascending a) (nat_eq i j) (λ _. h)
          (λ ne. (h.0, insert_index-Ascending (j + 1) i js (ground (arith, not_lt, ne)) h.1)))

pub sorted_set-Ascending : (is : List ℕ) → Ascending 0 (sorted_set is)
unfolding sorted_set
sorted_set-Ascending [] = tt
sorted_set-Ascending (i ∷ is) =
    insert_index-Ascending 0 i (sorted_set is) (omega arith) (sorted_set-Ascending is)

keep-Ascending : (p : ℕ → Bool) (a : ℕ) (is : List ℕ) → Ascending a is → Ascending a (keep p is)
keep-Ascending p a [] h = tt
keep-Ascending p a (i ∷ is) h = elim (Bool-cases (p i)) [
  | inl kept ↦ rw (kept, keep) (h.0, keep-Ascending p (i + 1) is h.1)
  | inr dropped ↦
      rw (dropped, keep)
        (Ascending-mono a (i + 1) (keep p is) (omega (arith, h.0))
          (keep-Ascending p (i + 1) is h.1))
]

range-Ascending : (a n : ℕ) → Ascending a (range a n)
unfolding range
range-Ascending a zero = tt
range-Ascending a (suc n) = (
  omega arith,
  subst (λ b. Ascending b (range (suc a) n)) (omega arith) (range-Ascending (suc a) n),
)

is_in-range : (i a n : ℕ) → is_in i (range a n) ≡ (leb a i && ltb i (a + n))
unfolding range is_in
is_in-range i a zero = ground arith
is_in-range i a (suc n) = ground (arith, is_in-range i (suc a) n)

is_in-any : (i : ℕ) (is : List ℕ) → is_in i is ≡ any (nat_eq i) is
unfolding is_in
is_in-any i [] = refl
is_in-any i (j ∷ is) = ap (λ b. nat_eq i j || b) (is_in-any i is)

-- A segment is asked for: any of them is without a selection.
abbrev pub is_asked : Option (List ℕ) → ℕ → Bool
is_asked none i = true
is_asked (some indices) i = any (nat_eq i) indices

-- The indices of the segments that are asked for and exist, each once and in ascending order.
abbrev pub IsSelection : ℕ → Option (List ℕ) → List ℕ → Type 0
IsSelection n asked picked =
    Ascending 0 picked × ((i : ℕ) → any (nat_eq i) picked ≡ (is_asked asked i && ltb i n))

pick-IsSelection : (n : ℕ) (asked : Option (List ℕ)) → IsSelection n asked (pick n asked)
unfolding pick
pick-IsSelection n none =
    (range-Ascending 0 n, λ i. ground (arith, is_in-any i (range 0 n), is_in-range i 0 n))
pick-IsSelection n (some indices) = (
  keep-Ascending (λ i. ltb i n) 0 (sorted_set indices) (sorted_set-Ascending indices),
  λ i.
      ground
        (arith, is_in-any i (pick n (some indices)), is_in-any i indices, is_in-pick i n indices),
)

-- The status after a complete export.
abbrev pub complete : List Str → ℕ → Status
complete files total = record {
  exporting = false;
  done = total;
  total = total;
  is_error = false;
  files = files;
}

write_files_all :
    (names written : List Str) (total done : ℕ) (is : List ℕ)
    → write_files (λ i. cuts) names total written done is
      ≡ (written ++ map (name_at names) is, complete (written ++ map (name_at names) is) total)
unfolding write_files
write_files_all names written total done [] =
    ap (λ w. (w, complete w total)) (sym (append-nil written))
write_files_all names written total done (i ∷ is) =
    write_files_all names (written ++ name_at names i ∷ []) total (done + 1) is
    ∙ ap (λ w. (w, complete w total))
        (append_assoc written (name_at names i ∷ []) (map (name_at names) is))

-- The name at a position.
abbrev pub named_at : List Str → ℕ → Str
named_at names i = elim (get_elem? names i) [ none ↦ [] | some name ↦ name ]

-- A complete export of the segments that are asked for, each under its name in the whole cut.
abbrev pub IsExported : CharTable → List Segment → Option (List ℕ) → List Str × Status → Type 0
IsExported t segments asked result =
    (picked : List ℕ) × (IsSelection (length segments) asked picked
      × (let files = map (named_at (file_names t segments)) picked in
          result ≡ (files, complete files (length picked))))

-- An export, of all segments or of a selection, in which nothing fails writes for each segment that is
-- asked for and exists the file that has its name in the whole cut, once and in ascending order of the
-- segments, and says that it is complete.
pub run_scene_export_all :
    (t : CharTable) (s : Segment) (ss : List Segment) (asked : Option (List ℕ))
    → IsExported t (s ∷ ss) asked (run_scene_export t (some (s ∷ ss)) true asked (λ i. cuts))
unfolding run_scene_export name_at
run_scene_export_all t s ss asked =
    let picked = pick (length (s ∷ ss)) asked in
    (
      picked,
      (
        pick-IsSelection (length (s ∷ ss)) asked,
        write_files_all (file_names t (s ∷ ss)) [] (length picked) 0 picked,
      ),
    )
