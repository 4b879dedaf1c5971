-- ===== src/Docker/Stream/Lines.antt =====
-- The lines of a text, and what the loop over them does.
use dashboard_rpi.Common.{
  ℕ, zero, suc, ◌<◌, ◌≡◌, refl, ap, ◌∙◌, false, Option, none, some, List, [], ◌∷◌, ◌++◌, ◌==◌,
  if◌then◌else◌, length, Text, arith, Bool-cases, Option-cases, inl, inr,
}
use dashboard_rpi.Common.Json.{Json}
use dashboard_rpi.Docker.Stream.{Outcome, throws, returned, cut_line, take_line, drain_lines, drain}

-- The lines that a newline ends, and the rest.
unfoldable pub extend : ℕ → List Text × Text → List Text × Text
extend c ([], rest) = ([], c ∷ rest)
extend c (line ∷ lines, rest) = ((c ∷ line) ∷ lines, rest)

unfoldable pub end_line : List Text × Text → List Text × Text
end_line (lines, rest) = ([] ∷ lines, rest)

unfoldable pub lines_of : Text → List Text × Text
unfolding extend end_line
lines_of [] = ([], [])
lines_of (c ∷ s) = if c == 10 then end_line (lines_of s) else extend c (lines_of s)

abbrev pub prefix : List Text → List Text × Text → List Text × Text
prefix lines p = (lines ++ p.0, p.1)

extend-prefix :
    (c : ℕ) (p : List Text × Text) (q : Text)
    → (c == 10) ≡ false
    → extend c (prefix p.0 (lines_of (p.1 ++ q)))
      ≡ prefix (extend c p).0 (lines_of ((extend c p).1 ++ q))
unfolding extend lines_of
extend-prefix c ([], rest) q other = rw other
extend-prefix c (line ∷ lines, rest) q other = refl

-- A text in two parts: the rest of the first begins the second.
pub lines_of-append :
    (p q : Text) → lines_of (p ++ q) ≡ prefix (lines_of p).0 (lines_of ((lines_of p).1 ++ q))
unfolding lines_of end_line
lines_of-append [] q = refl
lines_of-append (c ∷ p) q = elim (Bool-cases (c == 10)) [
  | inl newline ↦ rw newline (ap end_line (lines_of-append p q))
  | inr other ↦
      rw other (ap (extend c) (lines_of-append p q) ∙ extend-prefix c (lines_of p) q other)
]

cut_line-none : (p : Text) → cut_line p ≡ none → lines_of p ≡ ([], p)
unfolding cut_line lines_of extend
cut_line-none [] e = refl
cut_line-none (c ∷ p) e = elim (Bool-cases (c == 10)) [
  | inl newline ↦ absurd (ground arith)
  | inr other ↦ elim (Option-cases (cut_line p)) [
    | inl none_left ↦ rw (other, cut_line-none p none_left)
    | inr (x, e') ↦ absurd (ground arith)
  ]
]

cut_line-some :
    (p line rest : Text)
    → cut_line p ≡ some (line, rest)
    → (lines_of p ≡ (line ∷ (lines_of rest).0, (lines_of rest).1)) × (length rest < length p)
unfolding cut_line lines_of extend end_line
cut_line-some [] line rest e = absurd (ground arith)
cut_line-some (c ∷ p) line rest e = elim (Bool-cases (c == 10)) [
  | inl newline ↦
      let empty : [] ≡ line = ground arith in
      let same : p ≡ rest = ground arith in rw (newline, ← empty, ← same) (refl, omega arith)
  | inr other ↦ elim (Option-cases (cut_line p)) [
    | inl none_left ↦ absurd (ground arith)
    | inr ((line', rest'), e') ↦
        let (lines, shorter) = cut_line-some p line' rest' e' in
        let longer : c ∷ line' ≡ line = ground arith in
        let same : rest' ≡ rest = ground arith in
        rw (other, lines, ← longer, ← same) (refl, omega arith)
  ]
]

module _ (json_parse : Text → Option Json) where
  -- The values of lines, after those that are there.
  unfoldable pub collect : List Json → List Text → Option (List Json)
  collect values [] = some values
  collect values (line ∷ lines) = elim (take_line json_parse values line) [
    | none ↦ none
    | some values' ↦ collect values' lines
  ]

  pub collect-append :
      (values : List Json) (xs ys : List Text)
      → collect values (xs ++ ys) ≡ elim (collect values xs) as (λ _. Option (List Json)) [
        | none ↦ none
        | some values' ↦ collect values' ys
      ]
  unfolding collect
  collect-append values [] ys = refl
  collect-append values (line ∷ xs) ys = elim (Option-cases (take_line json_parse values line)) [
    | inl bad ↦ rw (bad, collect)
    | inr (values', good) ↦ rw (good, collect) (collect-append values' xs ys)
  ]

  unfoldable pub with_rest : Text → Option (List Json) → Outcome (List Json × Text)
  with_rest rest none = throws
  with_rest rest (some values) = returned (values, rest)

  drain_lines-ends :
      (fuel : ℕ) (values : List Json) (p : Text)
      → length p < fuel
      → drain_lines json_parse fuel values p
        ≡ with_rest (lines_of p).1 (collect values (lines_of p).0)
  unfolding drain_lines collect with_rest
  drain_lines-ends zero values p enough = absurd (omega arith)
  drain_lines-ends (suc fuel) values p enough = elim (Option-cases (cut_line p)) [
    | inl no_line ↦ rw (no_line, drain_lines, cut_line-none p no_line)
    | inr ((line, rest), cut) ↦
        let (lines, shorter) = cut_line-some p line rest cut in
        elim (Option-cases (take_line json_parse values line)) [
          | inl bad ↦ rw (cut, drain_lines, lines, bad, collect)
          | inr (values', good) ↦
              rw (cut, drain_lines, lines, good, collect)
                (drain_lines-ends fuel values' rest (omega arith))
        ]
  ]

  -- The loop over the lines of the pending text ends within as many rounds as the text has
  -- characters, and one: it throws if a line, trimmed and not empty, is no JSON, and else has added
  -- the values of those lines in their order and leaves the text after the last newline.
  pub drain-ends :
      (values : List Json) (p : Text)
      → drain json_parse values p ≡ with_rest (lines_of p).1 (collect values (lines_of p).0)
  drain-ends values p = drain_lines-ends (suc (length p)) values p (omega arith)
