-- ===== src/Config/Parser/Locations.antt =====
-- The directives of a location, and a location, parsed from the tokens that the grammar gives them.
use server_x.Common.{
  ℕ, zero, suc, ◌+◌, ◌≤◌, ◌<◌, Bool, true, false, ◌&&◌, ◌||◌, List, [], ◌∷◌, ◌++◌, ◌≡◌, refl, sym,
  ap, ◌∙◌, arith, length, length-append, codes, beq, returns, ◌>>=◌, Result,
}
use server_x.Config.Lexer.{
  Token, TokenType, token, identifier, string, number, endpoint, semicolon, unknown, left_brace,
  right_brace, end_of_file,
}
use server_x.Config.Parser.{
  ConfigNode, new_node, eq_type, expect_type, is_value, values, handle_directive, directives_until,
  location_args, location_body, handle_location_block,
}
use server_x.Config.Parser.Grammar.{
  location, Directive, all_values, is_directive, all_directives, semi, opened, closed,
  put_directive, put_directives, put_statement, with_directive, with_directives,
}

values-all : (vs ts : List Token) → all_values vs ≡ true → values (vs ++ semi ts) ≡ (vs, semi ts)
unfolding values all_values
values-all [] ts e = refl
values-all (v ∷ vs) ts e = ground (arith, values-all vs ts)

pub handle_directive-put :
    (d : Directive) (ts : List Token)
    → is_directive d ≡ true
    → handle_directive (put_directive d ts) ≡ returns ((d.name.literal, d.parameters), ts)
unfolding handle_directive is_directive
handle_directive-put d ts e = ground (arith, values-all d.parameters ts)

kind-not_sign :
    (k : TokenType)
    → eq_type k identifier || (eq_type k string || eq_type k number) ≡ true
    → (eq_type k right_brace ≡ false)
      × (eq_type k left_brace ≡ false)
      × (eq_type k end_of_file ≡ false)
unfolding eq_type
kind-not_sign identifier e = (refl, refl, refl)
kind-not_sign string e = (refl, refl, refl)
kind-not_sign number e = (refl, refl, refl)
kind-not_sign endpoint e = (refl, refl, refl)
kind-not_sign left_brace e = (refl, sym e, refl)
kind-not_sign right_brace e = (sym e, refl, refl)
kind-not_sign semicolon e = (refl, refl, refl)
kind-not_sign unknown e = (refl, refl, refl)
kind-not_sign end_of_file e = (refl, refl, sym e)

pub value-not_sign :
    (t : Token)
    → is_value t ≡ true
    → (eq_type t.kind right_brace ≡ false)
      × (eq_type t.kind left_brace ≡ false)
      × (eq_type t.kind end_of_file ≡ false)
unfolding is_value
value-not_sign t e = kind-not_sign t.kind e

pub directive-value : (d : Directive) → is_directive d ≡ true → is_value d.name ≡ true
unfolding is_directive
directive-value d e = ground arith

pub both : {a b : Bool} → a && b ≡ true → (a ≡ true) × (b ≡ true)
both {a = a} {b = b} e = (ground arith, ground arith)

directives_until-put :
    (ds : List Directive) (fuel : ℕ) (node : ConfigNode) (ts : List Token)
    → all_directives ds ≡ true
    → length ds < fuel
    → directives_until fuel node (put_directives ds (closed ts))
      ≡ returns (with_directives node ds, closed ts)
unfolding directives_until all_directives eq_type
directives_until-put ds zero node ts e h = absurd (omega arith)
directives_until-put [] (suc fuel) node ts e h = refl
directives_until-put (d ∷ ds) (suc fuel) node ts e h =
    let ok = both e in
    rw
      (
        (value-not_sign d.name (directive-value d ok.0)).0,
        handle_directive-put d (put_directives ds (closed ts)) ok.0,
      )
      (directives_until-put ds fuel (with_directive node d) ts ok.1 (omega arith))

location_args-put :
    (args ts : List Token)
    → all_values args ≡ true
    → location_args (args ++ opened ts) ≡ returns (args, opened ts)
unfolding location_args all_values eq_type
location_args-put [] ts e = refl
location_args-put (a ∷ args) ts e =
    let ok = both e in
    let sign = value-not_sign a ok.0 in
    rw (sign.1, sign.2, ok.0, location_args-put args ts ok.1) refl

abbrev close : ConfigNode × List Token → Result (ConfigNode × List Token)
close r = expect_type right_brace r.1 >>= λ ts. returns (r.0, ts)

close-closed : (node : ConfigNode) (ts : List Token) → close (node, closed ts) ≡ returns (node, ts)
unfolding expect_type
close-closed node ts = refl

handle_location_block-eq :
    (fuel : ℕ) (ts : List Token)
    → handle_location_block fuel (token string (codes "location") ∷ ts)
      ≡ (location_args ts >>= location_body fuel)
unfolding handle_location_block beq
handle_location_block-eq fuel ts = refl

location_body-eq :
    (fuel : ℕ) (a : Token) (args ts : List Token)
    → location_body fuel (a ∷ args, opened ts) ≡ (
        directives_until fuel (record (new_node (codes "location")) { args = a ∷ args }) ts
        >>= close)
unfolding location_body
location_body-eq fuel a args ts = refl

pub location-put :
    (a : Token) (args : List Token) (ds : List Directive) (fuel : ℕ) (ts : List Token)
    → all_values (a ∷ args) ≡ true
    → all_directives ds ≡ true
    → length ds < fuel
    → handle_location_block fuel (put_statement (location (a ∷ args) ds) ts)
      ≡ returns (with_directives (record (new_node (codes "location")) { args = a ∷ args }) ds, ts)
location-put a args ds fuel ts v e h =
    let node : ConfigNode = record (new_node (codes "location")) { args = a ∷ args } in
    let rest = put_directives ds (closed ts) in
    handle_location_block-eq fuel (a ∷ (args ++ opened rest))
    ∙ ap (λ r. r >>= location_body fuel) (location_args-put (a ∷ args) rest v)
    ∙ location_body-eq fuel a args rest
    ∙ ap (λ r. r >>= close) (directives_until-put ds fuel node ts e h)
    ∙ close-closed (with_directives node ds) ts

pub length-put_directives :
    (ds : List Directive) (ts : List Token) → length ds + length ts ≤ length (put_directives ds ts)
length-put_directives [] ts = omega arith
length-put_directives (d ∷ ds) ts =
    omega
      (arith, length-put_directives ds ts, length-append d.parameters (semi (put_directives ds ts)))
