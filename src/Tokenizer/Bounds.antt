-- ===== src/Tokenizer/Bounds.antt =====
-- `tokenizer_tokenize` of src/fts/tokenizer.c ends, and keeps to its bounds.
use kanbudb.Prelude.{
  if◌then◌else◌, ℕ, zero, suc, ◌+◌, ◌-◌, ◌≤◌, ◌<◌, ◌≡◌, refl, inl, inr, true, false, Option, none,
  some, List, [], ◌∷◌, map, arith, ltb, leb, ◌==◌, Bool-cases, length, take, All, Bytes,
}
use kanbudb.Tokenizer.{
  Tokenizer, Token, is_token_char, to_lower, has_suffix, cut_word, stem_with, suffixes,
  stem_english, is_stopword, token_chars, after_token, next_run, word_of, tokenize_loop,
  tokenizer_tokenize,
}

take_shorter : (n : ℕ) (xs : Bytes) → length (take n xs) ≤ length xs
take_shorter zero xs = omega arith
take_shorter (suc n) [] = omega arith
take_shorter (suc n) (x ∷ xs) = omega (arith, take_shorter n xs)

take_bound : (n : ℕ) (xs : Bytes) → length (take n xs) ≤ n
take_bound zero xs = omega arith
take_bound (suc n) [] = omega arith
take_bound (suc n) (x ∷ xs) = omega (arith, take_bound n xs)

length-lower : (xs : Bytes) → length (map to_lower xs) ≡ length xs
length-lower [] = refl
length-lower (x ∷ xs) = omega (arith, length-lower xs)

after_shorter : (text : Bytes) → length (after_token text) ≤ length text
after_shorter [] = omega arith
after_shorter (c ∷ text) = elim (Bool-cases (is_token_char c)) [
  | inl e ↦ rw e (omega (arith, after_shorter text))
  | inr e ↦ rw e (omega arith)
]

cut_shorter : (word : Bytes) (n : ℕ) → length (cut_word word n) ≤ length word
cut_shorter word n = ground (arith, take_shorter n word, take_shorter (n - 1) word)

stem_shorter : (word : Bytes) (ss : List Bytes) → length (stem_with word ss) ≤ length word
stem_shorter word [] = omega arith
stem_shorter word (s ∷ ss) = elim (Bool-cases (has_suffix word s)) [
  | inl e ↦ rw e (cut_shorter word (length word - length s))
  | inr e ↦ rw e (stem_shorter word ss)
]

stem_english_shorter : (word : Bytes) → length (stem_english word) ≤ length word
unfolding stem_english
stem_english_shorter word = elim (Bool-cases (ltb (length word) 3)) [
  | inl e ↦ rw e (omega arith)
  | inr e ↦ rw e (stem_shorter word suffixes)
]

-- A run fits the buffer, and what is left of so many bytes is shorter.
abbrev RunFits : ℕ → Option (Bytes × Bytes) → Type 0
RunFits n none = Unit
RunFits n (some (buf, rest)) = (length buf ≤ 255) × (length rest < n)

RunFits-suc : (n : ℕ) (r : Option (Bytes × Bytes)) → RunFits n r → RunFits (suc n) r
RunFits-suc n none f = tt
RunFits-suc n (some (buf, rest)) f = (f.0, omega (arith, f.1))

next_run-RunFits : (text : Bytes) → RunFits (length text) (next_run text)
next_run-RunFits [] = tt
next_run-RunFits (c ∷ text) = elim (Bool-cases (is_token_char c)) [
  | inl e ↦ rw e (
    omega (
      arith,
      length-lower (take 255 (c ∷ token_chars text)),
      take_bound 255 (c ∷ token_chars text),
    ),
    omega (arith, after_shorter text),
  )
  | inr e ↦ rw e (RunFits-suc (length text) (next_run text) (next_run-RunFits text))
]

abbrev pub WordFits : Bytes → Type 0
WordFits w = (2 ≤ length w) × (length w ≤ 255)

abbrev MayFit : Option Bytes → Type 0
MayFit none = Unit
MayFit (some w) = WordFits w

long_enough : (w : Bytes) → length w ≤ 255 → MayFit (if ltb (length w) 2 then none else some w)
long_enough w b = elim (Bool-cases (ltb (length w) 2)) [
  | inl e ↦ rw e tt
  | inr e ↦ rw e (ground (arith, e), b)
]

buf_word :
    (t : Tokenizer) (buf : Bytes)
    → length buf ≤ 255
    → length (if t.stem_enabled then stem_english buf else buf) ≤ 255
buf_word t buf b = elim (Bool-cases t.stem_enabled) [
  | inl e ↦ rw e (omega (arith, stem_english_shorter buf))
  | inr e ↦ rw e b
]

word_of-MayFit : (t : Tokenizer) (buf : Bytes) → length buf ≤ 255 → MayFit (word_of t buf)
word_of-MayFit t buf b = elim (Bool-cases (is_stopword t.stopwords buf)) [
  | inl e ↦ rw e tt
  | inr e ↦ rw e (long_enough (if t.stem_enabled then stem_english buf else buf) (buf_word t buf b))
]

-- The loop ends with tokens that fit, and not too many.
abbrev Ends : ℕ → Option (List Token) → Type 0
Ends room r =
    (tokens : List Token) × ((r ≡ some tokens)
      × (All (λ x. WordFits x.word) tokens × (length tokens ≤ room)))

-- One round, by the outcome of its word; `next` is what the rest of the text gives.
round_Ends :
    (fuel : ℕ) (t : Tokenizer) (max_tokens pos : ℕ) (rest : Bytes) (w : Option Bytes)
    → MayFit w
    → pos < max_tokens
    → ((p : ℕ) → p < max_tokens → Ends (max_tokens - p) (tokenize_loop fuel t max_tokens p rest))
    → Ends (max_tokens - pos) (elim w [
      | none ↦ tokenize_loop fuel t max_tokens pos rest
      | some w ↦ elim (leb max_tokens (pos + 1)) [
        | true ↦ some (record { word = w; pos = pos } ∷ [])
        | false ↦ elim (tokenize_loop fuel t max_tokens (pos + 1) rest) [
          | none ↦ none
          | some tokens ↦ some (record { word = w; pos = pos } ∷ tokens)
        ]
      ]
    ])
round_Ends fuel t max_tokens pos rest none m h ih = ih pos h
round_Ends fuel t max_tokens pos rest (some w) m h ih =
    elim (Bool-cases (leb max_tokens (pos + 1))) [
      | inl e ↦ rw e (record { word = w; pos = pos } ∷ [], (refl, ((m, tt), omega (arith, h))))
      | inr e ↦
          let (tokens, (r, (fits, few))) = ih (pos + 1) (ground (arith, e, h)) in
          rw (e, r)
            (record { word = w; pos = pos } ∷ tokens, (refl, ((m, fits), omega (arith, h, few))))
    ]

loop_run :
    (fuel : ℕ) (t : Tokenizer) (max_tokens pos : ℕ) (text : Bytes) (run : Option (Bytes × Bytes))
    → next_run text ≡ run
    → RunFits (length text) run
    → pos < max_tokens
    → ((rest : Bytes)
        → length rest < length text
        → (p : ℕ) → p < max_tokens
        → Ends (max_tokens - p) (tokenize_loop fuel t max_tokens p rest))
    → Ends (max_tokens - pos) (tokenize_loop (suc fuel) t max_tokens pos text)
unfolding tokenize_loop
loop_run fuel t max_tokens pos text none e f h ih =
    rw (e, tokenize_loop) ([], (refl, (tt, omega arith)))
loop_run fuel t max_tokens pos text (some (buf, rest)) e f h ih =
    rw (e, tokenize_loop)
      (round_Ends fuel t max_tokens pos rest (word_of t buf) (word_of-MayFit t buf f.0) h
        (ih rest f.1))

tokenize_loop-Ends :
    (fuel : ℕ) (t : Tokenizer) (max_tokens pos : ℕ) (text : Bytes)
    → length text < fuel
    → pos < max_tokens
    → Ends (max_tokens - pos) (tokenize_loop fuel t max_tokens pos text)
tokenize_loop-Ends zero t max_tokens pos text l h = absurd (omega (arith, l))
tokenize_loop-Ends (suc fuel) t max_tokens pos text l h =
    loop_run fuel t max_tokens pos text (next_run text) refl (next_run-RunFits text) h
      (λ rest s p g. tokenize_loop-Ends fuel t max_tokens p rest (omega (arith, l, s)) g)

-- `tokenizer_tokenize` ends on every text, with at most as many tokens as it may give, each of 2 to 255
-- bytes.
pub tokenizer_tokenize_ends :
    (t : Tokenizer) (text : Bytes) (max_tokens : ℕ)
    → (tokens : List Token) × ((tokenizer_tokenize t text max_tokens ≡ some tokens)
        × (All (λ (x : Token). WordFits x.word) tokens × (length tokens ≤ max_tokens)))
unfolding tokenizer_tokenize
tokenizer_tokenize_ends t text zero = ([], (refl, (tt, omega arith)))
tokenizer_tokenize_ends t text (suc n) =
    let some_allowed : (suc n == 0) ≡ false = ground arith in
    let (tokens, (r, (fits, few))) =
      tokenize_loop-Ends (length text + 1) t (suc n) 0 text (omega arith) (omega arith) in
    rw some_allowed (tokens, (r, (fits, omega (arith, few))))
