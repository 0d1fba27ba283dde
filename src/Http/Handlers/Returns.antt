-- ===== src/Http/Handlers/Returns.antt =====
-- What `return` comes to, from the directive to the answer.
use server_x.Common.{
  ◌≡◌, sym, ap, ◌∙◌, true, false, Option, none, some, List, [], ◌∷◌, if-true, if-false, Bytes,
  codes, beq, lookup, lookup-insert, out_of_range, returns, throws, ◌>>=◌, >>=-eq-returns,
  returns-inj,
}
use server_x.Config.Argument.{Argument, string}
use server_x.Config.Block.{has, get, add, add_strings}
use server_x.Config.Location.{LocationBlock}
use server_x.Config.Server.{ServerBlock}
use server_x.Config.Lexer.{Token, number}
use server_x.Config.Parser.{eq_type}
use server_x.Config.Directives.{Target, of_location, check, return_args, return_to, anywhere}
use server_x.Http.Status.{internal_server_error}
use server_x.Http.Headers
use server_x.Http.Request.{Request}
use server_x.Http.Response.{Response, set_status}
use server_x.Http.Handlers.{located, return_with, redirect_at, redirect}

check-return :
    (t u : Target) (args : List Token)
    → return_to t args ≡ returns u
    → return_args t args ≡ returns u
unfolding return_to
check-return t u args e = (>>=-eq-returns (check anywhere 1 2 t args) (λ _. return_args t args) e).2

-- What the directive stores for a single argument that is no number.
stored : LocationBlock → Token → LocationBlock
stored l a = record l { block = add_strings (codes "return") (codes "302") a.literal l.block }

return_args-url :
    (l l' : LocationBlock) (a : Token)
    → eq_type a.kind number ≡ false
    → return_args (of_location l) (a ∷ []) ≡ returns (of_location l')
    → l' ≡ stored l a
unfolding return_args stored
return_args-url l l' a k e =
    of_location-inj l' (stored l a) (sym (returns-inj _ _ (sym (if-false _ _ k) ∙ e)))
  where
    of_location-inj : (x y : LocationBlock) → of_location x ≡ of_location y → x ≡ y
    of_location-inj x y q = cc

there :
    (l : LocationBlock) (a : Token)
    → lookup (codes "return") (stored l a).block.directives
      ≡ some (string (codes "302") ∷ string a.literal ∷ [])
unfolding stored add beq
there l a =
    lookup-insert (codes "return") (codes "return") (string (codes "302") ∷ string a.literal ∷ [])
      l.block.directives

has-stored : (l : LocationBlock) (a : Token) → has (codes "return") (stored l a).block ≡ true
unfolding has
has-stored l a =
    ap (λ (o : Option (List Argument)). elim o [ none ↦ false | some _ ↦ true ]) (there l a)

get-stored :
    (l : LocationBlock) (a : Token)
    → get (codes "return") (stored l a).block
      ≡ returns (string (codes "302") ∷ string a.literal ∷ [])
unfolding get
get-stored l a =
    ap
      (λ (o : Option (List Argument)). elim o [
        | none ↦ throws out_of_range
        | some args ↦ returns args
      ])
      (there l a)

redirect_at-stored :
    (host : Bytes) (l : LocationBlock) (a : Token) (res : Response)
    → redirect_at host (stored l a) res ≡ returns (set_status internal_server_error res)
unfolding redirect_at return_with
redirect_at-stored host l a res =
    if-true _ _ (has-stored l a)
    ∙ ap (λ m. m >>= λ args. returns (return_with host args res)) (get-stored l a)

-- The handler of redirections sets 500 for a location with `return URL;`, whatever the request: the
-- directive stores the status 302 as a text, and the handler wants a number.
pub return-url_fails :
    (l l' : LocationBlock) (a : Token) (req : Request) (s : ServerBlock) (res : Response)
    → eq_type a.kind number ≡ false
    → return_to (of_location l) (a ∷ []) ≡ returns (of_location l')
    → req.location ≡ some l'
    → req.server ≡ some s
    → redirect req res ≡ returns (set_status internal_server_error res)
unfolding redirect located
return-url_fails l l' a req s res k e el es =
    rw (el, es)
      (ap (λ x. redirect_at (Headers.get (codes "Host") req.headers) x res)
          (return_args-url l l' a k (check-return (of_location l) (of_location l') (a ∷ []) e))
        ∙ redirect_at-stored (Headers.get (codes "Host") req.headers) l a res)
