-- ===== src/Http/Chunked/Crlf.antt =====
-- Laws of `findCRLF`, and what `parseHex` accepts: a size line that ends at the first CRLF.
use server_x.Common.{
  ℕ, ◌+◌, ◌≤◌, ◌<◌, false, none, some, [], ◌∷◌, ◌++◌, ◌≡◌, refl, arith, length, Bytes, ◌==◌,
  has_byte, Option-cases, inl, inr,
}
use server_x.Http.Chunked.{hex_digit_value, push_digit, parse_hex_from, parse_hex, find_crlf}

pub find_crlf-line :
    (h rest : Bytes)
    → has_byte b'\r' h ≡ false
    → find_crlf (h ++ (b'\r' ∷ b'\n' ∷ rest)) ≡ some (length h)
unfolding find_crlf has_byte
find_crlf-line [] rest p = refl
find_crlf-line (x ∷ []) rest p = ground arith
find_crlf-line (x ∷ y ∷ h) rest p = ground (arith, find_crlf-line (y ∷ h) rest)

pub find_crlf-append : (a b : Bytes) {k : ℕ} → find_crlf a ≡ some k → find_crlf (a ++ b) ≡ some k
unfolding find_crlf
find_crlf-append [] b p = cc
find_crlf-append (x ∷ []) b p = cc
find_crlf-append (x ∷ y ∷ a) b {k} p = elim (Option-cases (find_crlf (y ∷ a))) [
  | inl e ↦ ground arith
  | inr (j, e) ↦ ground (arith, find_crlf-append (y ∷ a) b e)
]

pub find_crlf-bound : (a : Bytes) {k : ℕ} → find_crlf a ≡ some k → k + 2 ≤ length a
unfolding find_crlf
find_crlf-bound [] p = cc
find_crlf-bound (x ∷ []) p = cc
find_crlf-bound (x ∷ y ∷ a) {k} p = elim (Option-cases (find_crlf (y ∷ a))) [
  | inl e ↦ ground arith
  | inr (j, e) ↦ ground (arith, find_crlf-bound (y ∷ a) e)
]

pub find_crlf-append_late :
    (a b : Bytes) {k : ℕ} → find_crlf a ≡ none → find_crlf (a ++ b) ≡ some k → length a < k + 2
unfolding find_crlf
find_crlf-append_late [] b {k} p q = omega arith
find_crlf-append_late (x ∷ []) b {k} p q = omega arith
find_crlf-append_late (x ∷ y ∷ a) b {k} p q = elim (Option-cases (find_crlf (y ∷ (a ++ b)))) [
  | inl e ↦ ground arith
  | inr (j, e) ↦ elim (Option-cases (find_crlf (y ∷ a))) [
    | inl e' ↦ ground (arith, find_crlf-append_late (y ∷ a) b e' e)
    | inr (i, e') ↦ ground arith
  ]
]

digit_ne_cr : (r c : ℕ) {r' : ℕ} → push_digit r (hex_digit_value c) ≡ some r' → (c == b'\r') ≡ false
unfolding push_digit hex_digit_value
digit_ne_cr r c p = ground arith

parse_hex_from-has_byte :
    (r : ℕ) (h : Bytes) {n : ℕ} → parse_hex_from r h ≡ some n → has_byte b'\r' h ≡ false
unfolding parse_hex_from has_byte
parse_hex_from-has_byte r [] p = refl
parse_hex_from-has_byte r (c ∷ cs) {n} p = elim (Option-cases (push_digit r (hex_digit_value c))) [
  | inl e ↦ ground arith
  | inr (r', e) ↦ ground (arith, digit_ne_cr r c e, parse_hex_from-has_byte r' cs {n = n})
]

-- Every byte of an accepted size line is a digit, so none of them is a carriage return.
pub parse_hex-has_byte : (h : Bytes) {n : ℕ} → parse_hex h ≡ some n → has_byte b'\r' h ≡ false
unfolding parse_hex has_byte
parse_hex-has_byte [] p = refl
parse_hex-has_byte (c ∷ cs) p = parse_hex_from-has_byte 0 (c ∷ cs) p
