-- ===== src/Config/Lexer.antt =====
-- src/config/pipeline/Lexer.cpp, inc/config/pipeline/Lexer.hpp and inc/config/internal/Token.hpp:
-- the tokens of a configuration file. The text from `pos_ - 1` on stands for the position, and its
-- first byte for `ch_`, which is 0 at the end; a byte 0 of the file ends the reading too.
pub mod Fuel
pub mod Print
use server_x.Common.{
  ℕ, zero, suc, Bool, true, ◌||◌, List, [], ◌∷◌, ◌++◌, ◌==◌, if◌then◌else◌, length, Bytes, is_space,
  is_all_digit,
}

-- `IDENTIFIER` and `ENDPOINT` are never made.
pub data TokenType : Type 0 where
  identifier string number endpoint left_brace right_brace semicolon unknown end_of_file : TokenType

pub record Token : Type 0 where
  pub literal : Bytes
  pub kind : TokenType

abbrev pub token : TokenType → Bytes → Token
token kind literal = record { literal = literal; kind = kind }

-- `!ch_`.
abbrev pub ended : Bytes → Bool
ended [] = true
ended (c ∷ _) = c == 0

unfoldable pub is_punctuation : ℕ → Bool
is_punctuation c = c == b'#' || (c == b'{' || (c == b'}' || c == b';'))

unfoldable pub eat_whitespaces : Bytes → Bytes
unfolding is_space
eat_whitespaces [] = []
eat_whitespaces (c ∷ cs) = if is_space c then eat_whitespaces cs else c ∷ cs

unfoldable pub handle_comment : Bytes → Bytes
handle_comment [] = []
handle_comment (c ∷ cs) = if c == b'\n' || c == 0 then c ∷ cs else handle_comment cs

-- The two loops of `handleValue`: what they read, and where they stop.
unfoldable pub read_quoted : Bytes → Bytes × Bytes
read_quoted [] = ([], [])
read_quoted (c ∷ cs) =
    if c == 0 || c == b'"' then ([], c ∷ cs) else (c ∷ (read_quoted cs).0, (read_quoted cs).1)

unfoldable pub read_word : Bytes → Bytes × Bytes
unfolding is_punctuation is_space
read_word [] = ([], [])
read_word (c ∷ cs) =
    if c == 0 || (is_punctuation c || is_space c)
    then ([], c ∷ cs)
    else (c ∷ (read_word cs).0, (read_word cs).1)

-- `pushToken(STRING, ...)` and then `identifyLastToken`: an empty literal is a number as well.
unfoldable pub identify : Bytes → Token
identify w = token (if is_all_digit w then number else string) w

-- Behind the opening quote. Without a closing one `handleUnknown` pushes the 0 that `ch_` is.
end_quoted : Bytes × Bytes → List Token × Bytes
unfolding identify
end_quoted (w, []) = (token unknown (0 ∷ []) ∷ [], [])
end_quoted (w, c ∷ cs) =
    if c == 0 then (token unknown (0 ∷ []) ∷ [], c ∷ cs) else (identify w ∷ [], cs)

-- One round of `run` behind the white space: the tokens that it pushes, and what is left.
unfoldable pub lex_one : Bytes → List Token × Bytes
unfolding handle_comment read_quoted read_word end_quoted
lex_one [] = ([], [])
lex_one (c ∷ cs) =
    if c == b'#'
    then ([], handle_comment (c ∷ cs))
    else if c == b'{'
    then (token left_brace (c ∷ []) ∷ [], cs)
    else if c == b'}'
    then (token right_brace (c ∷ []) ∷ [], cs)
    else if c == b';'
    then (token semicolon (c ∷ []) ∷ [], cs)
    else if c == b'"'
    then end_quoted (read_quoted cs)
    else (identify (read_word (c ∷ cs)).0 ∷ [], (read_word (c ∷ cs)).1)

abbrev pub last_token : List Token
last_token = token end_of_file [] ∷ []

unfoldable pub run : ℕ → Bytes → List Token
unfolding eat_whitespaces lex_one
run zero text = last_token
run (suc fuel) text =
    let t = eat_whitespaces text in
    let rest = run fuel (lex_one t).1 in
    if ended text then last_token else if ended t then last_token else (lex_one t).0 ++ rest

-- A round takes a byte at least, so that the length of the text is fuel enough.
unfoldable pub tokenize : Bytes → List Token
unfolding run
tokenize content = run (suc (length content)) content
