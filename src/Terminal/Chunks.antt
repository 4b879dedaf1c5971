-- ===== src/Terminal/Chunks.antt =====
-- Cutting a text into chunks of bounded UTF-8 length: the specification of
-- `splitTerminalOutput` and `splitTerminalLocalOutput`.
use dashboard_rpi.Common.{
  ℕ, ◌+◌, ◌≤◌, ◌<◌, ◌≡◌, refl, ap, ◌∙◌, Bool, false, not, ◌&&◌, List, [], ◌∷◌, ◌++◌, ltb,
  if◌then◌else◌, is_empty, Text, utf8_width, byte_length, byte_length-append, All, arith,
  Bool-cases, inl, inr,
}
use mathlib.Core.List.{flatten, append_assoc}

-- The chunks from a text under way, of `bytes` bytes.
unfoldable pub greedy : ℕ → Text → ℕ → Text → List Text
greedy max current bytes [] = if is_empty current then [] else current ∷ []
greedy max current bytes (c ∷ rest) =
    let full = not (is_empty current) && ltb max (bytes + utf8_width c) in
    let flushed = current ∷ greedy max (c ∷ []) (utf8_width c) rest in
    let longer = greedy max (current ++ c ∷ []) (bytes + utf8_width c) rest in
    if full then flushed else longer

-- The next chunk's first code point did not fit.
abbrev IsFull : ℕ → Text → Text → Type 0
IsFull max a [] = ⊥
IsFull max a (c ∷ b) = max < byte_length a + utf8_width c

abbrev IsTight : ℕ → List Text → Type 0
IsTight max [] = Unit
IsTight max (a ∷ []) = Unit
IsTight max (a ∷ b ∷ chunks) = IsFull max a b × IsTight max (b ∷ chunks)

abbrev Fits : ℕ → Text → Type 0
Fits max chunk = (is_empty chunk ≡ false) × (byte_length chunk ≤ max)

-- The chunks of a text: joined they are the text, none is empty or longer than the limit, and
-- each one ends only where the next code point would exceed the limit.
pub record IsSplit (max : ℕ) (whole : Text) (chunks : List Text) : Type 0 where
  pub joined : flatten chunks ≡ whole
  pub fitting : All (Fits max) chunks
  pub tight : IsTight max chunks

pub utf8_width-le : (c : ℕ) → (1 ≤ utf8_width c) × (utf8_width c ≤ 4)
unfolding utf8_width
utf8_width-le c = ground arith

is_full : ℕ → Text → ℕ → ℕ → Bool
is_full max current bytes c = not (is_empty current) && ltb max (bytes + utf8_width c)

flatten-greedy :
    (max : ℕ) (s current : Text) (bytes : ℕ) → flatten (greedy max current bytes s) ≡ current ++ s
unfolding greedy flatten is_full
flatten-greedy max [] [] bytes = refl
flatten-greedy max [] (a ∷ current) bytes = refl
flatten-greedy max (c ∷ s) current bytes = elim (Bool-cases (is_full max current bytes c)) [
  | inl full ↦ rw full (ap (◌++◌ current) (flatten-greedy max s (c ∷ []) (utf8_width c)))
  | inr room ↦ rw room (
      flatten-greedy max s (current ++ c ∷ []) (bytes + utf8_width c)
      ∙ append_assoc current (c ∷ []) s)
]

byte_length-snoc : (s : Text) (c : ℕ) → byte_length (s ++ c ∷ []) ≡ byte_length s + utf8_width c
unfolding byte_length
byte_length-snoc s c = omega (arith, byte_length-append s (c ∷ []))

is_empty-snoc : (s : Text) (c : ℕ) → is_empty (s ++ c ∷ []) ≡ false
is_empty-snoc [] c = refl
is_empty-snoc (a ∷ s) c = refl

greedy-fitting :
    (max : ℕ) (s current : Text) (bytes : ℕ)
    → 4 ≤ max
    → bytes ≡ byte_length current
    → bytes ≤ max
    → All (Fits max) (greedy max current bytes s)
unfolding greedy is_full
greedy-fitting max [] [] bytes h e k = tt
greedy-fitting max [] (a ∷ current) bytes h e k = ((refl, omega arith), tt)
greedy-fitting max (c ∷ s) current bytes h e k = elim (Bool-cases (is_full max current bytes c)) [
  | inl full ↦ rw full (
    (ground arith, omega arith),
    greedy-fitting max s (c ∷ []) (utf8_width c) h (unfold byte_length in omega arith)
        (omega (arith, (utf8_width-le c).1)),
  )
  | inr room ↦ rw room (
      greedy-fitting max s (current ++ c ∷ []) (bytes + utf8_width c) h
        (omega (arith, byte_length-snoc current c)) (step current e k room))
]
  where
    step :
        (current : Text)
        → bytes ≡ byte_length current
        → bytes ≤ max
        → is_full max current bytes c ≡ false
        → bytes + utf8_width c ≤ max
    step [] e k room = unfold byte_length in omega (arith, (utf8_width-le c).1)
    step (a ∷ current) e k room = ground arith

-- The first chunk begins as the text under way does.
greedy-head :
    (max : ℕ) (s : Text) (c : ℕ) (current : Text) (bytes : ℕ)
    → (u : Text) × (chunks : List Text) × (greedy max (c ∷ current) bytes s ≡ (c ∷ u) ∷ chunks)
unfolding greedy is_full
greedy-head max [] c current bytes = (current, [], refl)
greedy-head max (d ∷ s) c current bytes = elim (Bool-cases (is_full max (c ∷ current) bytes d)) [
  | inl full ↦ (current, greedy max (d ∷ []) (utf8_width d) s, rw full)
  | inr room ↦
      let (u, chunks, e) = greedy-head max s c (current ++ d ∷ []) (bytes + utf8_width d) in
      (u, chunks, rw room e)
]

IsTight-cons :
    (max : ℕ) (a : Text) (c : ℕ) (u : Text) (chunks : List Text) {all : List Text}
    → all ≡ (c ∷ u) ∷ chunks
    → max < byte_length a + utf8_width c
    → IsTight max all
    → IsTight max (a ∷ all)
IsTight-cons max a c u chunks e full tight = rw e (full, rw e at tight)

greedy-IsTight :
    (max : ℕ) (s current : Text) (bytes : ℕ)
    → bytes ≡ byte_length current
    → IsTight max (greedy max current bytes s)
unfolding greedy is_full
greedy-IsTight max [] [] bytes e = tt
greedy-IsTight max [] (a ∷ current) bytes e = tt
greedy-IsTight max (c ∷ s) current bytes e = elim (Bool-cases (is_full max current bytes c)) [
  | inl full ↦
      let (u, chunks, begins) = greedy-head max s c [] (utf8_width c) in
      rw full (
        IsTight-cons max current c u chunks begins (ground arith)
          (greedy-IsTight max s (c ∷ []) (utf8_width c) (unfold byte_length in omega arith)))
  | inr room ↦ rw room (
      greedy-IsTight max s (current ++ c ∷ []) (bytes + utf8_width c)
        (omega (arith, byte_length-snoc current c)))
]

pub greedy-IsSplit : (max : ℕ) (s : Text) → 4 ≤ max → IsSplit max s (greedy max [] 0 s)
greedy-IsSplit max s h = record {
  joined = flatten-greedy max s [] 0;
  fitting = greedy-fitting max s [] 0 h (unfold byte_length in refl) (omega arith);
  tight = greedy-IsTight max s [] 0 (unfold byte_length in refl);
}
