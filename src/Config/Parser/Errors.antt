-- ===== src/Config/Parser/Errors.antt =====
-- A text that is no configuration is refused with `ConfigError`, and every location that is read
-- has a name.
use server_x.Common.{
  ℕ, zero, suc, ◌≤◌, ◌<◌, ◌≡◌, false, refl, ensures_weaken, ◌||◌, List, [], ◌∷◌, arith, if-holds,
  length, All, All-append, Bytes, codes, beq, Ensures, value_with, refused, ensures-bind,
}
use server_x.Config.Lexer.{Token, TokenType, semicolon, left_brace, right_brace, end_of_file}
use server_x.Config.Parser.{
  ConfigNode, ServerNode, new_server_node, current_token, consume_token, eq_type, expect_type,
  expect_literal, is_value, values, add_directive, handle_directive, directives_until,
  location_args, location_body, handle_location_block, handle_statement, statements_until,
  handle_server_block, parse,
}

abbrev pub Named : ConfigNode → Type 0
Named n = 1 ≤ length n.args

abbrev pub LocationsNamed : ServerNode → Type 0
LocationsNamed s = All Named s.children

-- What is left is shorter, or not longer, than what there was.
abbrev Shorter : {A : Type 0} → List Token → A × List Token → Type 0
Shorter ts r = length r.1 < length ts

abbrev NotLonger : {A : Type 0} → List Token → A × List Token → Type 0
NotLonger ts r = length r.1 ≤ length ts

expect_type-Ensures :
    (kind : TokenType) (ts : List Token)
    → eq_type end_of_file kind ≡ false
    → Ensures (λ rest. length rest < length ts) (expect_type kind ts)
unfolding expect_type
expect_type-Ensures kind [] e = rw e refused
expect_type-Ensures kind (t ∷ ts) e =
    if-holds (Ensures (λ rest. length rest < suc (length ts))) (eq_type t.kind kind)
      (λ _. value_with ts (omega arith)) (λ _. refused)

expect_literal-Ensures :
    (l : Bytes) (ts : List Token)
    → beq [] l ≡ false
    → Ensures (λ rest. length rest < length ts) (expect_literal l ts)
unfolding expect_literal
expect_literal-Ensures l [] e = rw e refused
expect_literal-Ensures l (t ∷ ts) e =
    if-holds (Ensures (λ rest. length rest < suc (length ts))) (beq t.literal l)
      (λ _. value_with ts (omega arith)) (λ _. refused)

length-values : (ts : List Token) → length (values ts).1 ≤ length ts
unfolding values
length-values [] = omega arith
length-values (t ∷ ts) = ground (arith, length-values ts)

length-consume_token : (ts : List Token) → length (consume_token ts) ≤ length ts
length-consume_token [] = omega arith
length-consume_token (t ∷ ts) = omega arith

handle_directive-Ensures : (ts : List Token) → Ensures (Shorter ts) (handle_directive ts)
unfolding handle_directive eq_type
handle_directive-Ensures ts =
    let vs = values (consume_token ts) in
    if-holds (Ensures (Shorter ts)) (is_value (current_token ts))
      (λ _.
        ensures-bind (λ rest. length rest < length vs.1) _ (expect_type-Ensures semicolon vs.1 refl)
          λ rest h.
            value_with _
              (omega (arith, h, length-values (consume_token ts), length-consume_token ts)))
      (λ _. refused)

directives_until-Ensures :
    (fuel : ℕ) (node : ConfigNode) (ts : List Token)
    → Named node
    → length ts < fuel
    → Ensures (λ r. Named r.0 × NotLonger ts r) (directives_until fuel node ts)
unfolding directives_until add_directive
directives_until-Ensures zero node ts h f = absurd (omega arith)
directives_until-Ensures (suc fuel) node ts h f =
    if-holds (Ensures (λ r. Named r.0 × NotLonger ts r))
      (eq_type (current_token ts).kind right_brace) (λ _. value_with _ (h, omega arith))
      (λ _. ensures-bind (Shorter ts) _ (handle_directive-Ensures ts) λ r l.
        ensures_weaken _
          (directives_until-Ensures fuel (add_directive node r.0) r.1 h (omega arith))
          λ q m. (m.0, omega (arith, l, m.1)))

location_args-Ensures : (ts : List Token) → Ensures (NotLonger ts) (location_args ts)
unfolding location_args
location_args-Ensures [] = value_with _ (omega arith)
location_args-Ensures (t ∷ ts) =
    if-holds (Ensures (NotLonger (t ∷ ts)))
      (eq_type t.kind left_brace || eq_type t.kind end_of_file) (λ _. value_with _ (omega arith))
      (λ _.
        if-holds (Ensures (NotLonger (t ∷ ts))) (is_value t)
          (λ _.
            ensures-bind (NotLonger ts) _ (location_args-Ensures ts)
              λ r l. value_with _ (omega (arith, l)))
          (λ _. refused))

location_body-Ensures :
    (fuel : ℕ) (args ts : List Token)
    → length ts < fuel
    → Ensures (λ r. Named r.0 × Shorter ts r) (location_body fuel (args, ts))
unfolding location_body eq_type
location_body-Ensures fuel [] ts f = refused
location_body-Ensures fuel (a ∷ args) ts f =
    ensures-bind (λ rest. length rest < length ts) _ (expect_type-Ensures left_brace ts refl)
      λ ts1 l1.
        ensures-bind (λ r. Named r.0 × NotLonger ts1 r) _
          (directives_until-Ensures fuel _ ts1 (omega arith) (omega arith))
          λ r h.
            ensures-bind (λ rest. length rest < length r.1) _
              (expect_type-Ensures right_brace r.1 refl)
              λ ts2 l2. value_with _ (h.0, omega (arith, l1, l2, h.1))

handle_location_block-Ensures :
    (fuel : ℕ) (ts : List Token)
    → length ts ≤ fuel
    → Ensures (λ r. Named r.0 × Shorter ts r) (handle_location_block fuel ts)
unfolding handle_location_block beq
handle_location_block-Ensures fuel ts f =
    ensures-bind (λ rest. length rest < length ts) _
      (expect_literal-Ensures (codes "location") ts refl)
      λ ts1 l1. ensures-bind (NotLonger ts1) _ (location_args-Ensures ts1) λ r l2.
        ensures_weaken _ (location_body-Ensures fuel r.0 r.1 (omega (arith, l1, l2)))
          λ q h. (h.0, omega (arith, l1, l2, h.1))

handle_statement-Ensures :
    (fuel : ℕ) (s : ServerNode) (ts : List Token)
    → LocationsNamed s
    → length ts ≤ fuel
    → Ensures (λ r. LocationsNamed r.0 × Shorter ts r) (handle_statement fuel s ts)
unfolding handle_statement
handle_statement-Ensures fuel s ts h f =
    if-holds (Ensures (λ r. LocationsNamed r.0 × Shorter ts r))
      (beq (current_token ts).literal (codes "location"))
      (λ _.
        ensures-bind (λ r. Named r.0 × Shorter ts r) _ (handle_location_block-Ensures fuel ts f)
          λ r n. value_with _ (All-append Named s.children (r.0 ∷ []) h (n.0, tt), n.1))
      (λ _. ensures-bind (Shorter ts) _ (handle_directive-Ensures ts) λ r l. value_with _ (h, l))

statements_until-Ensures :
    (fuel : ℕ) (s : ServerNode) (ts : List Token)
    → LocationsNamed s
    → length ts < fuel
    → Ensures (λ r. LocationsNamed r.0 × NotLonger ts r) (statements_until fuel s ts)
unfolding statements_until
statements_until-Ensures zero s ts h f = absurd (omega arith)
statements_until-Ensures (suc fuel) s ts h f =
    if-holds (Ensures (λ r. LocationsNamed r.0 × NotLonger ts r))
      (eq_type (current_token ts).kind right_brace) (λ _. value_with _ (h, omega arith))
      (λ _.
        ensures-bind (λ r. LocationsNamed r.0 × Shorter ts r) _
          (handle_statement-Ensures fuel s ts h (omega arith))
          λ r h1.
            ensures_weaken _ (statements_until-Ensures fuel r.0 r.1 h1.0 (omega (arith, h1.1, f)))
              λ q m. (m.0, omega (arith, h1.1, m.1)))

handle_server_block-Ensures :
    (fuel : ℕ) (ts : List Token)
    → length ts < fuel
    → Ensures (All LocationsNamed) (handle_server_block fuel ts)
unfolding handle_server_block beq eq_type
handle_server_block-Ensures zero ts f = absurd (omega arith)
handle_server_block-Ensures (suc fuel) ts f =
    if-holds (Ensures (All LocationsNamed)) (eq_type (current_token ts).kind end_of_file)
      (λ _. value_with _ tt)
      (λ _.
        ensures-bind (λ rest. length rest < length ts) _
          (expect_literal-Ensures (codes "server") ts refl)
          λ ts1 l1.
            ensures-bind (λ rest. length rest < length ts1) _
              (expect_type-Ensures left_brace ts1 refl)
              λ ts2 l2.
                ensures-bind (λ r. LocationsNamed r.0 × NotLonger ts2 r) _
                  (statements_until-Ensures fuel new_server_node ts2 tt (omega (arith, l1, l2, f)))
                  λ r h.
                    ensures-bind (λ rest. length rest < length r.1) _
                      (expect_type-Ensures right_brace r.1 refl)
                      λ ts3 l3.
                        ensures-bind (All LocationsNamed) _
                          (handle_server_block-Ensures fuel ts3 (omega (arith, l1, l2, l3, h.1, f)))
                          λ ss hs. value_with _ (h.0, hs))

-- The fuel of `parse` is enough: it answers `ConfigError` or servers.
pub parse-Ensures : (ts : List Token) → Ensures (All LocationsNamed) (parse ts)
unfolding parse
parse-Ensures ts = handle_server_block-Ensures (suc (length ts)) ts (omega arith)
