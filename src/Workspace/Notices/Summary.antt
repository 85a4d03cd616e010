-- ===== src/Workspace/Notices/Summary.antt =====
-- cmux/src/model/workspace.rs: the summary of a notification is a short single line, and never
-- empty.
use mathlib.Core.List.{reverse, reverse_aux}
use cmux_gtk.Prelude.{
  ℕ, zero, suc, ◌+◌, ◌≤◌, ◌<◌, ◌≡◌, refl, ◌∙◌, Str, codes, ◌==◌, ltb, list_eq, Bool, true, false,
  not, ◌&&◌, ◌||◌, List, [], ◌∷◌, ◌++◌, take, length, is_empty_list, arith, Bool-cases, inl, inr,
  length-take, length-append,
}
use cmux_gtk.Workspace.Notices.{
  is_whitespace, trim_start, trim, extend, close, words_from, split_whitespace, join_space,
  truncate_for_sidebar, summary_text, notification_summary,
}

-- No whitespace but the space.
abbrev pub is_single_line : Str → Bool
is_single_line [] = true
is_single_line (c ∷ s) = (not (is_whitespace c) || c == 0x20) && is_single_line s

abbrev has_text : Str → Bool
has_text [] = false
has_text (c ∷ s) = not (is_whitespace c) || has_text s

abbrev is_word : Str → Bool
is_word [] = true
is_word (c ∷ s) = not (is_whitespace c) && is_word s

-- Words without whitespace, none of them empty.
abbrev are_words : List Str → Bool
are_words [] = true
are_words (w ∷ ws) = (not (is_empty_list w) && is_word w) && are_words ws

is_single_line-append : (s t : Str) → is_single_line (s ++ t) ≡ is_single_line s && is_single_line t
is_single_line-append [] t = refl
is_single_line-append (c ∷ s) t = ground (arith, is_single_line-append s t)

is_single_line-take : (n : ℕ) (s : Str) → is_single_line s ≡ true → is_single_line (take n s) ≡ true
is_single_line-take zero s h = refl
is_single_line-take (suc n) [] h = refl
is_single_line-take (suc n) (c ∷ s) h = ground (arith, is_single_line-take n s)

has_text-append : (s t : Str) → has_text (s ++ t) ≡ has_text s || has_text t
has_text-append [] t = refl
has_text-append (c ∷ s) t = ground (arith, has_text-append s t)

has_text-reverse_aux : (s t : Str) → has_text (reverse_aux s t) ≡ has_text s || has_text t
has_text-reverse_aux [] t = refl
has_text-reverse_aux (c ∷ s) t = ground (arith, has_text-reverse_aux s (c ∷ t))

has_text-reverse : (s : Str) → has_text (reverse s) ≡ has_text s
has_text-reverse s = ground (arith, has_text-reverse_aux s [])

not_empty-reverse : (s : Str) → is_empty_list (reverse s) ≡ false → is_empty_list s ≡ false
not_empty-reverse [] h = h
not_empty-reverse (c ∷ s) h = refl

has_text-trim_start :
    (s : Str) → is_empty_list (trim_start s) ≡ false → has_text (trim_start s) ≡ true
unfolding trim_start
has_text-trim_start [] h = ground arith
has_text-trim_start (c ∷ s) h = ground (arith, has_text-trim_start s)

has_text-trim : (s : Str) → is_empty_list (trim s) ≡ false → has_text (trim s) ≡ true
unfolding trim
has_text-trim s h =
    let u = trim_start (reverse (trim_start s)) in
    has_text-reverse u ∙ has_text-trim_start (reverse (trim_start s)) (not_empty-reverse u h)

word_line : (w : Str) → is_word w ≡ true → is_single_line w ≡ true
word_line [] h = refl
word_line (c ∷ w) h = ground (arith, word_line w)

are_words-extend :
    (c : ℕ) (r : Str × List Str)
    → is_whitespace c ≡ false
    → is_word r.0 ≡ true
    → are_words r.1 ≡ true
    → are_words (close (extend c r)) ≡ true
are_words-extend c (w, ws) e h k = ground arith

are_words-close :
    (s : Str)
    → (is_word (words_from s).0 ≡ true)
      × (are_words (words_from s).1 ≡ true)
      × (are_words (close (words_from s)) ≡ true)
unfolding words_from
are_words-close [] = (refl, refl, refl)
are_words-close (c ∷ s) =
    let (a, b, d) = are_words-close s in
    elim (Bool-cases (is_whitespace c)) [
      | inl e ↦ rw e (refl, d, d)
      | inr e ↦ rw e (rw e a, b, are_words-extend c (words_from s) e a b)
    ]

has_text-words : (s : Str) → has_text s ≡ true → is_empty_list (close (words_from s)) ≡ false
unfolding words_from
has_text-words [] h = ground arith
has_text-words (c ∷ s) h = elim (Bool-cases (is_whitespace c)) [
  | inl e ↦ rw e (has_text-words s (ground arith))
  | inr e ↦ rw e refl
]

join_space_line : (ws : List Str) → are_words ws ≡ true → is_single_line (join_space ws) ≡ true
unfolding join_space
join_space_line [] h = refl
join_space_line (w ∷ []) h = ground (arith, word_line w)
join_space_line (w ∷ v ∷ ws) h = ground (
  arith,
  word_line w,
  is_single_line-append w (0x20 ∷ join_space (v ∷ ws)),
  join_space_line (v ∷ ws),
)

join_space_some :
    (ws : List Str)
    → are_words ws ≡ true
    → is_empty_list ws ≡ false
    → is_empty_list (join_space ws) ≡ false
unfolding join_space
join_space_some [] h e = ground arith
join_space_some (w ∷ []) h e = ground arith
join_space_some ([] ∷ v ∷ ws) h e = ground arith
join_space_some ((c ∷ w) ∷ v ∷ ws) h e = refl

has_text-append_left : (s t : Str) → has_text s ≡ true → has_text (s ++ t) ≡ true
has_text-append_left s t h = rw (has_text-append s t, h) refl

has_text-summary_text : (title body : Str) → has_text (summary_text (trim title) (trim body)) ≡ true
unfolding summary_text is_whitespace
has_text-summary_text title body = elim (Bool-cases (is_empty_list (trim title))) [
  | inl e ↦ elim (Bool-cases (is_empty_list (trim body))) [
    | inl e' ↦ rw (e, e') refl
    | inr e' ↦ rw (e, e') (has_text-trim body e')
  ]
  | inr e ↦
      let t = has_text-trim title e in
      let u = has_text-append_left (trim title) (codes ": " ++ trim body) t in
      elim (Bool-cases (is_empty_list (trim body))) [
        | inl k ↦ rw (e, k) t
        | inr k ↦ elim (Bool-cases (list_eq (trim body) (trim title))) [
          | inl m ↦ rw (e, k, m) t
          | inr m ↦ rw (e, k, m) u
        ]
      ]
]

short_line :
    (n : ℕ) (s : Str)
    → 0 < n
    → is_single_line s ≡ true
    → is_empty_list s ≡ false
    → (length (truncate_for_sidebar s n) ≤ n + 3)
      × (is_single_line (truncate_for_sidebar s n) ≡ true)
      × (is_empty_list (truncate_for_sidebar s n) ≡ false)
unfolding truncate_for_sidebar is_whitespace
short_line zero s p h e = elim p [ ]
short_line (suc n) [] p h e = ground arith
short_line (suc n) (c ∷ s) p h e =
    let line : is_single_line (c ∷ take n s) ≡ true = is_single_line-take (suc n) (c ∷ s) h in
    elim (Bool-cases (ltb (suc n) (length (c ∷ s)))) [
      | inl k ↦ rw k (
        omega (arith, length-append (c ∷ take n s) (codes "..."), length-take n s),
        rw (is_single_line-append (c ∷ take n s) (codes "..."), line) refl,
        refl,
      )
      | inr k ↦ rw k (omega (arith, length-take n s), line, refl)
    ]

-- The summary has from 1 to 123 characters, and of all whitespace only spaces.
pub notification_summary_lem :
    (title body : Str)
    → (length (notification_summary title body) ≤ 123)
      × (is_single_line (notification_summary title body) ≡ true)
      × (is_empty_list (notification_summary title body) ≡ false)
unfolding notification_summary split_whitespace
notification_summary_lem title body =
    let s = summary_text (trim title) (trim body) in
    let words = (are_words-close s).2 in
    short_line 120 (join_space (close (words_from s))) (omega arith)
      (join_space_line (close (words_from s)) words)
      (join_space_some (close (words_from s)) words
        (has_text-words s (has_text-summary_text title body)))
