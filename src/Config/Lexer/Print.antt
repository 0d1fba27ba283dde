-- ===== src/Config/Lexer/Print.antt =====
-- Text and tokens: what one writes into a configuration file is what the lexer reads.
use server_x.Common.{
  ℕ, Bool, true, false, not, ◌&&◌, ◌||◌, List, [], ◌∷◌, ◌++◌, ◌≡◌, ◌==◌, Bytes, codes, is_space,
  is_empty,
}
use server_x.Config.Lexer.{
  Token, token, left_brace, right_brace, semicolon, is_punctuation, identify, last_token,
}

-- A thing that one writes: a word, a quoted text, one of the signs, a comment, or white space.
pub data Lexeme : Type 0 where
  word quoted comment blank : Bytes → Lexeme
  opening closing stop : Lexeme

-- A byte of a word is no 0, no sign, no number sign and no white space.
is_word_byte : ℕ → Bool
is_word_byte c =
    not (c == 0 || (c == b'{' || (c == b'}' || (c == b';' || (c == b'#' || is_space c)))))

all_word : Bytes → Bool
unfolding is_word_byte
all_word [] = true
all_word (c ∷ cs) = is_word_byte c && all_word cs

-- No byte of `s` is `c` or 0.
unfoldable pub free_of : ℕ → Bytes → Bool
free_of c [] = true
free_of c (x ∷ xs) = not (x == 0 || x == c) && free_of c xs

not_quote : Bytes → Bool
not_quote [] = false
not_quote (c ∷ _) = not (c == b'"')

all_space : Bytes → Bool
unfolding is_space
all_space [] = true
all_space (c ∷ cs) = is_space c && all_space cs

-- A word is not empty, does not begin with a quote, and holds no white space and no sign; a quoted
-- text holds no quote, a comment no newline, and white space is some of it.
unfoldable pub is_plain : Lexeme → Bool
unfolding all_word not_quote free_of all_space
is_plain (word w) = not_quote w && all_word w
is_plain (quoted w) = free_of b'"' w
is_plain (comment w) = free_of b'\n' w
is_plain (blank w) = not (is_empty w) && all_space w
is_plain _ = true

-- Whether what follows ends a word: the end of the text, white space, a comment or a sign.
unfoldable pub ends_word : List Lexeme → Bool
ends_word (word _ ∷ _) = false
ends_word (quoted _ ∷ _) = false
ends_word _ = true

unfoldable pub is_followed : Lexeme → List Lexeme → Bool
unfolding ends_word
is_followed (word _) ls = ends_word ls
is_followed _ ls = true

-- Each is plain, and a word is followed by what ends it.
unfoldable pub all_plain : List Lexeme → Bool
unfolding is_plain is_followed
all_plain [] = true
all_plain (l ∷ ls) = is_plain l && (is_followed l ls && all_plain ls)

abbrev text_of : Lexeme → Bytes
text_of (word w) = w
text_of (blank w) = w
text_of (quoted w) = b'"' ∷ (w ++ codes "\"")
text_of (comment w) = b'#' ∷ (w ++ codes "\n")
text_of opening = codes "{"
text_of closing = codes "}"
text_of stop = codes ";"

abbrev pub print : List Lexeme → Bytes
print [] = []
print (l ∷ ls) = text_of l ++ print ls

abbrev pub tokens_of : Lexeme → List Token
tokens_of (word w) = identify w ∷ []
tokens_of (quoted w) = identify w ∷ []
tokens_of (comment w) = []
tokens_of (blank w) = []
tokens_of opening = token left_brace (codes "{") ∷ []
tokens_of closing = token right_brace (codes "}") ∷ []
tokens_of stop = token semicolon (codes ";") ∷ []

abbrev pub all_tokens : List Lexeme → List Token
all_tokens [] = last_token
all_tokens (l ∷ ls) = tokens_of l ++ all_tokens ls

-- What `read_word` stops at.
stops : Bytes → Bool
stops [] = true
stops (c ∷ _) = c == 0 || (is_punctuation c || is_space c)

-- What a round leaves of a lexeme: a comment leaves its newline.
abbrev rest_of : Lexeme → Bytes
rest_of (comment w) = codes "\n"
rest_of _ = []

-- The lexemes that a round reads, which is all but white space.
is_blank : Lexeme → Bool
is_blank (blank w) = true
is_blank _ = false

-- The text behind a lexeme, where it has to end a word.
Follows : Lexeme → Bytes → Type 0
Follows (word w) t = stops t ≡ true
Follows _ t = Unit
