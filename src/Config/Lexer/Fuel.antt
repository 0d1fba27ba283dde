-- ===== src/Config/Lexer/Fuel.antt =====
-- The loop of `run` ends: every round shortens the text.
use server_x.Common.{
  ℕ, zero, suc, ◌≤◌, ◌<◌, true, false, [], ◌∷◌, ◌++◌, ◌≡◌, refl, sym, ◌∙◌, arith, ap, inl, inr,
  Bool-cases, ◌==◌, length, Bytes, is_space,
}
use server_x.Config.Lexer.{
  ended, eat_whitespaces, handle_comment, read_quoted, read_word, end_quoted, lex_one, run,
  tokenize,
}

length-eat_whitespaces : (t : Bytes) → length (eat_whitespaces t) ≤ length t
unfolding eat_whitespaces
length-eat_whitespaces [] = omega arith
length-eat_whitespaces (c ∷ t) = ground (arith, length-eat_whitespaces t)

length-handle_comment : (t : Bytes) → length (handle_comment t) ≤ length t
unfolding handle_comment
length-handle_comment [] = omega arith
length-handle_comment (c ∷ t) = ground (arith, length-handle_comment t)

length-read_quoted : (t : Bytes) → length (read_quoted t).1 ≤ length t
unfolding read_quoted
length-read_quoted [] = omega arith
length-read_quoted (c ∷ t) = ground (arith, length-read_quoted t)

length-read_word : (t : Bytes) → length (read_word t).1 ≤ length t
unfolding read_word
length-read_word [] = omega arith
length-read_word (c ∷ t) = ground (arith, length-read_word t)

length-end_quoted : (w t : Bytes) → length (end_quoted (w, t)).1 ≤ length t
unfolding end_quoted
length-end_quoted w [] = omega arith
length-end_quoted w (c ∷ t) = ground arith

-- At a byte that is neither white space nor the end.
lex_one_shorter :
    (c : ℕ) (t : Bytes)
    → is_space c ≡ false
    → (c == 0) ≡ false
    → length (lex_one (c ∷ t)).1 ≤ length t
unfolding lex_one
lex_one_shorter c t s z = ground (
  arith,
  length-handle_comment t,
  length-read_word t,
  length-end_quoted (read_quoted t).0 (read_quoted t).1,
  length-read_quoted t,
)

-- The first byte that the loop does not skip.
eaten : (t : Bytes) (c : ℕ) (u : Bytes) → eat_whitespaces t ≡ c ∷ u → is_space c ≡ false
unfolding eat_whitespaces
eaten [] c u e = absurd (cc)
eaten (x ∷ t) c u e = ground (arith, eaten t c u)

round_shorter :
    (t u : Bytes) → eat_whitespaces t ≡ u → ended u ≡ false → length (lex_one u).1 < length t
round_shorter t [] e n = absurd (cc)
round_shorter t (c ∷ u) e n =
    let len : length (eat_whitespaces t) ≡ suc (length u) = ap length e in
    omega (arith, len, length-eat_whitespaces t, lex_one_shorter c u (eaten t c u e) n)

-- A round, with what is left behind the white space at hand.
run_round :
    (fuel : ℕ) (x : ℕ) (t : Bytes) (c : ℕ) (u : Bytes)
    → (x == 0) ≡ false
    → eat_whitespaces (x ∷ t) ≡ c ∷ u
    → (c == 0) ≡ false
    → run (suc fuel) (x ∷ t) ≡ (lex_one (c ∷ u)).0 ++ run fuel (lex_one (c ∷ u)).1
unfolding run
run_round fuel x t c u nx e nc = rw (e, nx, nc) refl

-- The loop of `run` ends by its own tests: any fuel above the length of the text gives the same
-- tokens.
pub run-fuel : (f g : ℕ) (t : Bytes) → length t < f → length t < g → run f t ≡ run g t
unfolding run
run-fuel zero g t h k = absurd (omega arith)
run-fuel (suc f) zero t h k = absurd (omega arith)
run-fuel (suc f) (suc g) t h k =
    let u = eat_whitespaces t in
    elim (Bool-cases (ended u)) [
      | inl e ↦ rw e refl
      | inr e ↦
          let s = round_shorter t u refl e in
          rw (run-fuel f g (lex_one u).1 (omega arith) (omega arith)) refl
    ]

eat_whitespaces-none : (c : ℕ) (u : Bytes) → is_space c ≡ false → eat_whitespaces (c ∷ u) ≡ c ∷ u
unfolding eat_whitespaces
eat_whitespaces-none c u s = rw s refl

tokenize-eq : (t : Bytes) → tokenize t ≡ run (suc (length t)) t
unfolding tokenize
tokenize-eq t = refl

space-not_end : (c : ℕ) → is_space c ≡ true → (c == 0) ≡ false
unfolding is_space
space-not_end c s = ground arith

ended-eaten : (u : Bytes) → ended u ≡ true → ended (eat_whitespaces u) ≡ true
unfolding eat_whitespaces is_space
ended-eaten [] e = refl
ended-eaten (c ∷ u) e = ground arith

run_space : (f c : ℕ) (u : Bytes) → is_space c ≡ true → run (suc f) (c ∷ u) ≡ run (suc f) u
unfolding run eat_whitespaces
run_space f c u s = elim (Bool-cases (ended u)) [
  | inl e ↦ rw (s, space-not_end c s, e, ended-eaten u e) refl
  | inr e ↦ rw (s, space-not_end c s, e) refl
]

-- At a byte that is neither white space nor the end, `tokenize` makes a round.
pub tokenize_round :
    (c : ℕ) (u : Bytes)
    → is_space c ≡ false
    → (c == 0) ≡ false
    → tokenize (c ∷ u) ≡ (lex_one (c ∷ u)).0 ++ tokenize (lex_one (c ∷ u)).1
unfolding tokenize
tokenize_round c u s z =
    let len = length (lex_one (c ∷ u)).1 in
    run_round (suc (length u)) c u c u z (eat_whitespaces-none c u s) z
    ∙ ap (◌++◌ (lex_one (c ∷ u)).0) (
        run-fuel (suc (length u)) (suc len) (lex_one (c ∷ u)).1
          (omega (arith, lex_one_shorter c u s z)) (omega arith))

-- White space is skipped.
pub tokenize_space : (c : ℕ) (u : Bytes) → is_space c ≡ true → tokenize (c ∷ u) ≡ tokenize u
tokenize_space c u s =
    tokenize-eq (c ∷ u)
    ∙ run_space (suc (length u)) c u s
    ∙ run-fuel (suc (suc (length u))) (suc (length u)) u (omega arith) (omega arith)
    ∙ sym (tokenize-eq u)
