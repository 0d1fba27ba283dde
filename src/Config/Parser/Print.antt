-- ===== src/Config/Parser/Print.antt =====
-- What the grammar lets one write, parsed.
use server_x.Common.{
  ℕ, zero, suc, ◌+◌, ◌≤◌, ◌<◌, true, false, List, [], ◌∷◌, ◌++◌, ◌≡◌, ◌≢◌, refl, ap, ◌∙◌, arith,
  if◌then◌else◌, if-true, if-false, length, length-append, Bytes, codes, beq, beq_refl, returns,
  ◌>>=◌, Result,
}
use server_x.Config.Lexer.{Token, token, string, right_brace, end_of_file}
use server_x.Config.Parser.{
  ConfigNode, ServerNode, new_server_node, current_token, eq_type, expect_type, add_directive,
  handle_directive, handle_location_block, handle_statement, statements_until, handle_server_block,
  parse,
}
use server_x.Config.Parser.Grammar.{
  directive, location, Directive, Statement, all_values, is_directive, all_directives, is_statement,
  all_statements, all_servers, semi, opened, closed, put_directive, put_directives, put_statement,
  put_statements, put_servers, with_statement, with_statements, nodes_of,
}
use server_x.Config.Parser.Locations.{
  handle_directive-put, value-not_sign, directive-value, both, location-put, length-put_directives,
}

length-put_statement :
    (st : Statement) (ts : List Token) → 2 + length ts ≤ length (put_statement st ts)
length-put_statement (directive d) ts = omega (arith, length-append d.parameters (semi ts))
length-put_statement (location args ds) ts =
    let rest = put_directives ds (closed ts) in
    omega (arith, length-append args (opened rest), length-put_directives ds (closed ts))

abbrev add_child : ServerNode → ConfigNode × List Token → Result (ServerNode × List Token)
add_child s r = returns (record s { children = s.children ++ (r.0 ∷ []) }, r.1)

abbrev add_own : ServerNode → (Bytes × List Token) × List Token → Result (ServerNode × List Token)
add_own s r = returns (record s { node = add_directive s.node r.0 }, r.1)

handle_statement-eq :
    (fuel : ℕ) (s : ServerNode) (ts : List Token)
    → handle_statement fuel s ts ≡ (
        if beq (current_token ts).literal (codes "location")
        then (handle_location_block fuel ts >>= add_child s)
        else (handle_directive ts >>= add_own s))
unfolding handle_statement
handle_statement-eq fuel s ts = refl

statement-directive :
    (d : Directive)
    → is_statement (directive d) ≡ true
    → (is_directive d ≡ true) × (beq d.name.literal (codes "location") ≡ false)
unfolding is_statement
statement-directive d e = (ground arith, ground arith)

statement-not_empty : (ds : List Directive) → is_statement (location [] ds) ≢ true
unfolding is_statement
statement-not_empty ds e = cc

statement-parts :
    (a : Token) (args : List Token) (ds : List Directive)
    → is_statement (location (a ∷ args) ds) ≡ true
    → (all_values (a ∷ args) ≡ true) × (all_directives ds ≡ true)
unfolding is_statement
statement-parts a args ds e = (ground arith, ground arith)

handle_statement-put :
    (st : Statement) (fuel : ℕ) (s : ServerNode) (ts : List Token)
    → is_statement st ≡ true
    → length (put_statement st ts) ≤ suc fuel
    → handle_statement fuel s (put_statement st ts) ≡ returns (with_statement s st, ts)
handle_statement-put (directive d) fuel s ts e h =
    let ok = statement-directive d e in
    handle_statement-eq fuel s (put_directive d ts)
    ∙ if-false _ _ ok.1
    ∙ ap (λ r. r >>= add_own s) (handle_directive-put d ts ok.0)
handle_statement-put (location [] ds) fuel s ts e h = absurd (statement-not_empty ds e)
handle_statement-put (location (a ∷ args) ds) fuel s ts e h =
    let rest = put_directives ds (closed ts) in
    let ok = statement-parts a args ds e in
    handle_statement-eq fuel s (put_statement (location (a ∷ args) ds) ts)
    ∙ if-true _ _ (beq_refl (codes "location"))
    ∙ ap (λ r. r >>= add_child s)
        (location-put a args ds fuel ts ok.0 ok.1
          (omega (arith, length-append args (opened rest), length-put_directives ds (closed ts))))

next_statement : ℕ → ServerNode × List Token → Result (ServerNode × List Token)
next_statement fuel r = statements_until fuel r.0 r.1

statements_until-eq :
    (fuel : ℕ) (s : ServerNode) (ts : List Token)
    → statements_until (suc fuel) s ts ≡ (
        if eq_type (current_token ts).kind right_brace
        then returns (s, ts)
        else (handle_statement fuel s ts >>= next_statement fuel))
unfolding statements_until next_statement
statements_until-eq fuel s ts = refl

statement-not_end :
    (st : Statement) (ts : List Token)
    → is_statement st ≡ true
    → eq_type (current_token (put_statement st ts)).kind right_brace ≡ false
unfolding eq_type
statement-not_end (directive d) ts e =
    (value-not_sign d.name (directive-value d (statement-directive d e).0)).0
statement-not_end (location args ds) ts e = refl

put_statements-some :
    (sts : List Statement) (ts : List Token) → 0 < length (put_statements sts (closed ts))
put_statements-some [] ts = omega arith
put_statements-some (st ∷ sts) ts =
    omega (arith, length-put_statement st (put_statements sts (closed ts)))

statements_until-put :
    (sts : List Statement) (fuel : ℕ) (s : ServerNode) (ts : List Token)
    → all_statements sts ≡ true
    → length (put_statements sts (closed ts)) ≤ fuel
    → statements_until fuel s (put_statements sts (closed ts))
      ≡ returns (with_statements s sts, closed ts)
unfolding all_statements eq_type next_statement
statements_until-put sts zero s ts e h = absurd (omega (arith, put_statements-some sts ts))
statements_until-put [] (suc fuel) s ts e h = statements_until-eq fuel s (closed ts)
statements_until-put (st ∷ sts) (suc fuel) s ts e h =
    let ok = both e in
    let rest = put_statements sts (closed ts) in
    statements_until-eq fuel s (put_statement st rest)
    ∙ if-false _ _ (statement-not_end st rest ok.0)
    ∙ ap (λ r. r >>= next_statement fuel) (handle_statement-put st fuel s rest ok.0 h)
    ∙ statements_until-put sts fuel (with_statement s st) ts ok.1
        (omega (arith, length-put_statement st rest))

length-put_statements :
    (sts : List Statement) (ts : List Token) → length ts ≤ length (put_statements sts ts)
length-put_statements [] ts = omega arith
length-put_statements (st ∷ sts) ts =
    omega (arith, length-put_statements sts ts, length-put_statement st (put_statements sts ts))

parse-eq : (ts : List Token) → parse ts ≡ handle_server_block (suc (length ts)) ts
unfolding parse
parse-eq ts = refl

handle_server_block-end :
    (fuel : ℕ) → handle_server_block (suc fuel) (token end_of_file [] ∷ []) ≡ returns []
unfolding handle_server_block
handle_server_block-end fuel = refl

server_rest : ℕ → ServerNode × List Token → Result (List ServerNode)
server_rest fuel r =
    expect_type right_brace r.1 >>= λ ts. handle_server_block fuel ts >>= λ ss. returns (r.0 ∷ ss)

handle_server_block-server :
    (fuel : ℕ) (ts : List Token)
    → handle_server_block (suc fuel) (token string (codes "server") ∷ opened ts)
      ≡ (statements_until fuel new_server_node ts >>= server_rest fuel)
unfolding handle_server_block beq server_rest
handle_server_block-server fuel ts = refl

server_rest-closed :
    (fuel : ℕ) (s : ServerNode) (ts : List Token)
    → server_rest fuel (s, closed ts) ≡ (handle_server_block fuel ts >>= λ ss. returns (s ∷ ss))
unfolding server_rest expect_type
server_rest-closed fuel s ts = refl

handle_server_block-put :
    (ss : List (List Statement)) (fuel : ℕ)
    → all_servers ss ≡ true
    → length (put_servers ss) ≤ fuel
    → handle_server_block fuel (put_servers ss) ≡ returns (nodes_of ss)
unfolding all_servers
handle_server_block-put [] zero e h = absurd (omega arith)
handle_server_block-put (s ∷ ss) zero e h = absurd (omega arith)
handle_server_block-put [] (suc fuel) e h = handle_server_block-end fuel
handle_server_block-put (s ∷ ss) (suc fuel) e h =
    let ok = both e in
    let node = with_statements new_server_node s in
    handle_server_block-server fuel (put_statements s (closed (put_servers ss)))
    ∙ ap (λ r. r >>= server_rest fuel)
        (statements_until-put s fuel new_server_node (put_servers ss) ok.0 (omega arith))
    ∙ server_rest-closed fuel node (put_servers ss)
    ∙ ap (λ r. r >>= λ ns. returns (node ∷ ns))
        (handle_server_block-put ss fuel ok.1
          (omega (arith, length-put_statements s (closed (put_servers ss)))))

-- `parse` of the tokens of a file gives the nodes that its statements add up to.
pub parse-put_servers :
    (ss : List (List Statement))
    → all_servers ss ≡ true
    → parse (put_servers ss) ≡ returns (nodes_of ss)
parse-put_servers ss e =
    parse-eq (put_servers ss)
    ∙ handle_server_block-put ss (suc (length (put_servers ss))) e (omega arith)
