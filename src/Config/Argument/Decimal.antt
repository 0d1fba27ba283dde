-- ===== src/Config/Argument/Decimal.antt =====
-- `utils::toString` of two numbers is the same text only if the numbers are, and holds digits only.
use server_x.Common.{
  ℕ, zero, suc, ◌+◌, ◌/◌, ◌%◌, ◌≤◌, ◌-◌, ◌*◌, ◌&&◌, leb, if-true, ◌≡◌, refl, sym, ap, ◌∙◌, true, [],
  ◌∷◌, arith, Bytes, is_digit, is_all_digit, read_digits,
}
use server_x.Config.Argument.{digits_onto, to_string}

last_digit :
    (n : ℕ) (rest : Bytes) → read_digits (n / 10) ((b'0' + n % 10) ∷ rest) ≡ read_digits n rest
unfolding read_digits is_digit
last_digit n rest =
    let same : n / 10 * 10 + (b'0' + n % 10 - b'0') ≡ n = omega arith in
    let digit : (leb b'0' (b'0' + n % 10) && leb (b'0' + n % 10) b'9') ≡ true = ground arith in
    if-true _ _ digit ∙ ap (λ k. read_digits k rest) same

read_digits-onto :
    (fuel n : ℕ) (rest : Bytes)
    → n ≤ fuel
    → read_digits 0 (digits_onto fuel n rest) ≡ read_digits n rest
unfolding digits_onto read_digits is_digit
read_digits-onto zero zero rest h = refl
read_digits-onto zero (suc n) rest h = absurd (omega arith)
read_digits-onto (suc fuel) n rest h =
    by_quotient (read_digits-onto fuel (n / 10) ((b'0' + n % 10) ∷ rest)) (n / 10) refl
  where
    d : ℕ
    d = b'0' + n % 10

    by_quotient :
        (n / 10 ≤ fuel
          → read_digits 0 (digits_onto fuel (n / 10) (d ∷ rest)) ≡ read_digits (n / 10) (d ∷ rest))
        → (q : ℕ) → n / 10 ≡ q
        → read_digits 0 (elim q [ zero ↦ d ∷ rest | suc _ ↦ digits_onto fuel (n / 10) (d ∷ rest) ])
          ≡ read_digits n rest
    by_quotient ih zero e = ap (λ k. read_digits k (d ∷ rest)) (sym e) ∙ last_digit n rest
    by_quotient ih (suc q) e = ih (omega arith) ∙ last_digit n rest

is_all_digit-onto :
    (fuel n : ℕ) (rest : Bytes)
    → is_all_digit rest ≡ true
    → is_all_digit (digits_onto fuel n rest) ≡ true
unfolding digits_onto is_all_digit is_digit
is_all_digit-onto zero n rest h = ground arith
is_all_digit-onto (suc fuel) n rest h =
    ground (arith, is_all_digit-onto fuel (n / 10) ((b'0' + n % 10) ∷ rest))

pub to_string-inj : (m n : ℕ) → to_string m ≡ to_string n → m ≡ n
unfolding to_string read_digits
to_string-inj m n e =
    sym (read_digits-onto m m [] (omega arith))
    ∙ ap (read_digits 0) e
    ∙ read_digits-onto n n [] (omega arith)

pub is_all_digit-to_string : (n : ℕ) → is_all_digit (to_string n) ≡ true
unfolding to_string is_all_digit
is_all_digit-to_string n = is_all_digit-onto n n [] refl
