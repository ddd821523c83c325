-- ===== src/Properties/Split/RoundTrip.antt =====
-- properties.go: splitDelimmitedString gives the words back that were put together with delimiters.
use smudge.Prelude.{
  ℕ, ◌+◌, ◌-◌, ◌≡◌, refl, sym, ap, ◌∙◌, some, List, [], ◌∷◌, ◌++◌, map, append_assoc, append-nil,
  length, length-append, take, drop, take_append, drop_append, All, arith,
}
use smudge.Prelude.Text.{Text, trim_left, trim_right, unless_last}
use smudge.Properties.Split.{find_all, cut, special_case, split_trimmed, split_delimmited_string}
use smudge.Properties.Split.Words.{
  Separator, separator_text, Spaces, IsSeparator, Plain, IsWord, AreWords, join, second,
  find_all-word, find_all-separator,
}

-- The head of what is joined is plain.
abbrev StartsPlain : Text → Type 0
StartsPlain [] = ⊥
StartsPlain (c ∷ s) = Plain c

join-starts : (w : Text) (others : List (Separator × Text)) → IsWord w → StartsPlain (join w others)
join-starts [] others h = absurd h
join-starts (c ∷ w) [] h = h.0
join-starts (c ∷ w) ((d, v) ∷ others) h = h.0

IsWord-All : (w : Text) → IsWord w → All Plain w
IsWord-All [] h = absurd h
IsWord-All (c ∷ w) h = h

find_all-next :
    (d : Separator) (s : Text) (i : ℕ)
    → IsSeparator d
    → StartsPlain s
    → find_all 0 i (separator_text d ++ s)
      ≡ (i, i + length (separator_text d)) ∷ find_all 0 (i + length (separator_text d)) s
find_all-next d [] i h p = absurd p
find_all-next d (c ∷ s) i h p = find_all-separator d c s i h p

-- One word and the separator behind it.
cut-word :
    (before w d s : Text) (i : ℕ) (indices : List (ℕ × ℕ))
    → i ≡ length before
    → cut (before ++ (w ++ (d ++ s))) i ((i + length w, i + length w + length d) ∷ indices)
      ≡ w ∷ cut ((before ++ (w ++ d)) ++ s) (i + length w + length d) indices
unfolding cut
cut-word before w d s i indices e =
    let width : i + length w - i ≡ length w = omega arith in
    let same : before ++ (w ++ (d ++ s)) ≡ (before ++ (w ++ d)) ++ s =
      ap (◌++◌ before) (sym (append_assoc w d s)) ∙ sym (append_assoc before (w ++ d) s) in
    let piece : take (i + length w - i) (drop i (before ++ (w ++ (d ++ s)))) ≡ w =
      rw (width, e, drop_append before (w ++ (d ++ s))) (take_append w (d ++ s)) in
    rw piece (ap (λ t. w ∷ cut t (i + length w + length d) indices) same)

cut-join :
    (others : List (Separator × Text)) (before w : Text)
    → AreWords w others
    → cut (before ++ join w others) (length before) (find_all 0 (length before) (join w others))
      ≡ w ∷ map second others
cut-join [] before w h =
    ap (cut (before ++ w) (length before)) (
      ap (find_all 0 (length before)) (sym (append-nil w))
      ∙ find_all-word w [] (length before) (IsWord-All w h.0))
    ∙ last
  where
    last : cut (before ++ w) (length before) (find_all 0 (length before + length w) []) ≡ w ∷ []
    last = unfold cut find_all in ap (λ t. t ∷ []) (drop_append before w)
cut-join ((d, v) ∷ others) before w h =
    let i = length before in
    let t = separator_text d in
    let s = join v others in
    let next = before ++ (w ++ t) in
    let size : length next ≡ i + length w + length t =
      omega (arith, length-append before (w ++ t), length-append w t) in
    ap (cut (before ++ (w ++ (t ++ s))) i) (
      find_all-word w (t ++ s) i (IsWord-All w h.0)
      ∙ find_all-next d s (i + length w) h.1.0.0 (join-starts v others h.1.0.1))
    ∙ cut-word before w t s i (find_all 0 (i + length w + length t) s) refl
    ∙ ap (λ k. w ∷ cut (next ++ s) k (find_all 0 k s)) (sym size)
    ∙ ap (◌∷◌ w) (cut-join others next v (h.1.0.1, h.1.1))

trim_left-Spaces : (pre s : Text) → Spaces pre → StartsPlain s → trim_left (pre ++ s) ≡ s
unfolding trim_left
trim_left-Spaces [] [] h p = absurd p
trim_left-Spaces [] (c ∷ s) h p = rw p.0 refl
trim_left-Spaces (x ∷ pre) s h p = rw h.0 (trim_left-Spaces pre s h.1 p)

trim_right-Spaces : (post : Text) → Spaces post → trim_right post ≡ []
unfolding trim_right
trim_right-Spaces [] h = refl
trim_right-Spaces (x ∷ post) h = rw (trim_right-Spaces post h.1, h.0) refl

unless_last-Plain : (c : ℕ) (s : Text) → Plain c → unless_last c s ≡ c ∷ s
unless_last-Plain c [] p = rw p.0 refl
unless_last-Plain c (d ∷ s) p = refl

trim_right-word : (w post : Text) → All Plain w → Spaces post → trim_right (w ++ post) ≡ w
unfolding trim_right
trim_right-word [] post h p = trim_right-Spaces post p
trim_right-word (c ∷ w) post h p = rw (trim_right-word w post h.1 p) (unless_last-Plain c w h.0)

-- Nothing is taken away before a text of which something is left.
trim_right-front :
    (front s t : Text) → StartsPlain t → trim_right s ≡ t → trim_right (front ++ s) ≡ front ++ t
unfolding trim_right
trim_right-front [] s t p e = e
trim_right-front (c ∷ front) s t p e =
    ap (unless_last c) (trim_right-front front s t p e) ∙ kept front t p
  where
    kept : (f u : Text) → StartsPlain u → unless_last c (f ++ u) ≡ c ∷ (f ++ u)
    kept [] [] q = absurd q
    kept [] (d ∷ u) q = refl
    kept (d ∷ f) u q = refl

trim_right-join :
    (others : List (Separator × Text)) (w post : Text)
    → AreWords w others
    → Spaces post
    → trim_right (join w others ++ post) ≡ join w others
trim_right-join [] w post h p = trim_right-word w post (IsWord-All w h.0) p
trim_right-join ((d, v) ∷ others) w post h p =
    let t = separator_text d in
    let s = join v others in
    ap trim_right (append_assoc w (t ++ s) post ∙ ap (◌++◌ w) (append_assoc t s post))
    ∙ ap trim_right (sym (append_assoc w t (s ++ post)))
    ∙ trim_right-front (w ++ t) (s ++ post) s (join-starts v others h.1.0.1)
        (trim_right-join others v post (h.1.0.1, h.1.1) p)
    ∙ append_assoc w t s

split_trimmed-join :
    (s w : Text) (others : List Text)
    → StartsPlain s
    → IsWord w
    → cut s 0 (find_all 0 0 s) ≡ w ∷ others
    → split_trimmed s ≡ some (w ∷ others)
unfolding split_trimmed
split_trimmed-join [] w others p h e = absurd p
split_trimmed-join (c ∷ s) [] others p h e = absurd h
split_trimmed-join (c ∷ s) (d ∷ w) others p h e = ap (λ ps. some (special_case ps)) e

-- A text of words, with blanks or a comma with blanks around it between each two and with spaces of any
-- kind at its ends, is split into these words, if no word is empty and none has a space or a comma
-- in it.
pub split_delimmited_string-join :
    (pre w : Text) (others : List (Separator × Text)) (post : Text)
    → Spaces pre
    → AreWords w others
    → Spaces post
    → split_delimmited_string (pre ++ (join w others ++ post)) ≡ some (w ∷ map second others)
unfolding split_delimmited_string
split_delimmited_string-join pre w others post hp h hq =
    let starts = join-starts w others h.0 in
    ap split_trimmed (ap trim_right (left starts) ∙ trim_right-join others w post h hq)
    ∙ split_trimmed-join (join w others) w (map second others) starts h.0 (cut-join others [] w h)
  where
    appended : (s : Text) → StartsPlain s → StartsPlain (s ++ post)
    appended [] p = absurd p
    appended (c ∷ s) p = p

    left :
        StartsPlain (join w others)
        → trim_left (pre ++ (join w others ++ post)) ≡ join w others ++ post
    left p = trim_left-Spaces pre (join w others ++ post) hp (appended (join w others) p)
