-- ===== src/Tokenizer.antt =====
-- The tokenizer, src/fts/tokenizer.c, on the list of the bytes of a text. `isalnum`, `isalpha` and `tolower` are
-- those of the C locale. The array of words that the tokenizer keeps, which only serves to free
-- them, is left out.
pub mod Bounds
use kanbudb.Prelude.{
  ℕ, zero, suc, ◌+◌, ◌-◌, Bool, true, false, ◌&&◌, ◌||◌, not, Option, none, some, List, [], ◌∷◌,
  map, ltb, leb, ◌==◌, if◌then◌else◌, length, get_or, take, drop, Bytes,
}
use kanbudb.Key.{memcmp, key_cmp, is_eq}

-- `struct kanbudb_tokenizer`
pub record Tokenizer : Type 0 where
  pub stem_enabled : Bool
  pub stopwords : List Bytes

-- `kanbudb_token_t`; its length is that of the word.
pub record Token : Type 0 where
  pub word : Bytes
  pub pos : ℕ

abbrev pub stem_buf_size : ℕ
stem_buf_size = 256

abbrev pub is_upper : ℕ → Bool
is_upper c = leb 65 c && leb c 90

abbrev pub is_alpha : ℕ → Bool
is_alpha c = is_upper c || leb 97 c && leb c 122

abbrev pub is_token_char : ℕ → Bool
is_token_char c = is_alpha c || leb 48 c && leb c 57 || c == 39

abbrev pub to_lower : ℕ → ℕ
to_lower c = if is_upper c then c + 32 else c

unfoldable pub tokenizer_create : Tokenizer
tokenizer_create = record { stem_enabled = false; stopwords = [] }

unfoldable pub tokenizer_set_stemmer : Bool → Tokenizer → Tokenizer
tokenizer_set_stemmer enabled t = record t { stem_enabled = enabled }

unfoldable pub tokenizer_set_stopwords : List Bytes → Tokenizer → Tokenizer
tokenizer_set_stopwords words t = record t { stopwords = words }

unfoldable pub has_suffix : Bytes → Bytes → Bool
has_suffix word suffix =
    if ltb (length word) (length suffix)
    then false
    else is_eq (memcmp (length suffix) (drop (length word - length suffix) word) suffix)

-- ing, ed, ly, es, s, er, or
abbrev pub suffixes : List Bytes
suffixes =
    (105 ∷ 110 ∷ 103 ∷ [])
    ∷ (101 ∷ 100 ∷ [])
    ∷ (108 ∷ 121 ∷ [])
    ∷ (101 ∷ 115 ∷ [])
    ∷ (115 ∷ [])
    ∷ (101 ∷ 114 ∷ [])
    ∷ (111 ∷ 114 ∷ [])
    ∷ []

-- The end of the word from `new_len` on is cut off, with one letter of a doubled one.
abbrev pub cut_word : Bytes → ℕ → Bytes
cut_word word new_len =
    let last = get_or word (new_len - 1) 0 in
    if ltb new_len 3
    then word
    else if last == get_or word (new_len - 2) 0 && is_alpha last
    then take (new_len - 1) word
    else take new_len word

abbrev pub stem_with : Bytes → List Bytes → Bytes
stem_with word [] = word
stem_with word (s ∷ rest) =
    if has_suffix word s then cut_word word (length word - length s) else stem_with word rest

unfoldable pub stem_english : Bytes → Bytes
stem_english word = if ltb (length word) 3 then word else stem_with word suffixes

abbrev pub is_stopword : List Bytes → Bytes → Bool
is_stopword [] word = false
is_stopword (s ∷ stopwords) word = is_eq (key_cmp word s) || is_stopword stopwords word

-- The characters of a token, and what follows them.
abbrev pub token_chars : Bytes → Bytes
token_chars [] = []
token_chars (c ∷ text) = if is_token_char c then c ∷ token_chars text else []

abbrev pub after_token : Bytes → Bytes
after_token [] = []
after_token (c ∷ text) = if is_token_char c then after_token text else c ∷ text

-- The contents of `stem_buf` for the next run of token characters, and the text behind the run.
abbrev pub next_run : Bytes → Option (Bytes × Bytes)
next_run [] = none
next_run (c ∷ text) =
    if is_token_char c
    then some (map to_lower (take (stem_buf_size - 1) (c ∷ token_chars text)), after_token text)
    else next_run text

-- The word that becomes a token, if there is one.
abbrev pub word_of : Tokenizer → Bytes → Option Bytes
word_of t buf =
    let word = if t.stem_enabled then stem_english buf else buf in
    if is_stopword t.stopwords buf then none else if ltb (length word) 2 then none else some word

-- The loop, where as many tokens were found as the next one has for a position.
unfoldable pub tokenize_loop : ℕ → Tokenizer → ℕ → ℕ → Bytes → Option (List Token)
tokenize_loop zero t max_tokens pos text = none
tokenize_loop (suc fuel) t max_tokens pos text = elim (next_run text) [
  | none ↦ some []
  | some (buf, rest) ↦ elim (word_of t buf) [
    | none ↦ tokenize_loop fuel t max_tokens pos rest
    | some w ↦ elim (leb max_tokens (pos + 1)) [
      | true ↦ some (record { word = w; pos = pos } ∷ [])
      | false ↦ elim (tokenize_loop fuel t max_tokens (pos + 1) rest) [
        | none ↦ none
        | some tokens ↦ some (record { word = w; pos = pos } ∷ tokens)
      ]
    ]
  ]
]

-- `tokenizer_tokenize`
unfoldable pub tokenizer_tokenize : Tokenizer → Bytes → ℕ → Option (List Token)
tokenizer_tokenize t text max_tokens =
    if max_tokens == 0 then some [] else tokenize_loop (length text + 1) t max_tokens 0 text
