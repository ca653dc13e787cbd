-- ===== src/Tests/Tokens.antt =====
-- The theorem on the tokenizer, src/fts/tokenizer.c, at a text of two words.
use kanbudb.Prelude.{◌≡◌, ◌≤◌, true, some, List, [], ◌∷◌, length, All, Bytes}
use kanbudb.Tokenizer.{Tokenizer, Token, tokenizer_tokenize}
use kanbudb.Tokenizer.Bounds.{WordFits, tokenizer_tokenize_ends}

-- The stop word is "an".
abbrev stemming : Tokenizer
stemming = record { stem_enabled = true; stopwords = (97 ∷ 110 ∷ []) ∷ [] }

-- "An Eel"
abbrev eel : Bytes
eel = 65 ∷ 110 ∷ 32 ∷ 69 ∷ 101 ∷ 108 ∷ []

tokenizer_tokenize_ends_example :
    (tokens : List Token) × ((tokenizer_tokenize stemming eel 4 ≡ some tokens)
      × (All (λ (x : Token). WordFits x.word) tokens × (length tokens ≤ 4)))
tokenizer_tokenize_ends_example = tokenizer_tokenize_ends stemming eel 4
