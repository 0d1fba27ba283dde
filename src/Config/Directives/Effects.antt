-- ===== src/Config/Directives/Effects.antt =====
-- What every directive leaves as it was, or fails with `ConfigError`.
use server_x.Common.{
  ℕ, ◌≤◌, ◌<◌, ◌≡◌, true, Bool, ◌&&◌, Option, none, some, List, [], ◌∷◌, arith, leb, if-holds,
  length, Bytes, codes, find_sub, is_some, Result, ◌>>◌, Ensures, Anything, value_with, refused,
  ensures_any, ensures-bind, require-Ensures, ensures_weaken,
}
use server_x.Config.Argument.{Argument, integer, bool_of-Ensures}
use server_x.Config.Block.Filled.{
  Filled, is_read_first, add-Filled, push_arg-Filled, set_root-Ensures,
}
use server_x.Config.Block.{Block, add}
use server_x.Config.Factory.Errors.{get_all-Ensures}
use server_x.Config.Endpoint.{IpInfo, extract_ip_info}
use server_x.Config.Endpoint.Ports.{InRange, HasPort, extract_ip_info-HasPort}
use server_x.Config.Lexer.{Token, number}
use server_x.Config.Parser.{eq_type}
use server_x.Config.Directives.{
  Target, block_of, with_block, check, check_args, check_context, check_type, add_args,
  first_literal, alias, allow_methods, cgi_values, set_auto_index, autoindex, cgi_pass, add_pages,
  last_literal, error_page, index, set_endpoint, set_listen, listen, return_args, return_to, root,
  server_name, upload_path, anywhere,
}
use server_x.Config.Directives.BodySize.{client_max_body_size, size_value-Ensures}

first_literal-Ensures :
    (args : List Token) → 1 ≤ length args → Ensures Anything (first_literal args)
unfolding first_literal
first_literal-Ensures [] h = absurd (omega arith)
first_literal-Ensures (a ∷ args) h = ensures_any _

last_literal-Ensures : (args : List Token) → 1 ≤ length args → Ensures Anything (last_literal args)
unfolding last_literal
last_literal-Ensures [] h = absurd (omega arith)
last_literal-Ensures (a ∷ []) h = ensures_any _
last_literal-Ensures (a ∷ b ∷ args) h = last_literal-Ensures (b ∷ args) (omega arith)

-- Behind the checks there is the least number of arguments.
checked {ℓ} :
    {A : Type ℓ} (P : A → Type 0) (contexts : Bytes) (least most : ℕ) (t : Target)
    (args : List Token) {k : Result A}
    → (least ≤ length args → Ensures P k)
    → Ensures P (check contexts least most t args >> k)
unfolding check check_context check_args
checked P contexts least most t args {k} h =
    ensures-bind (λ _. least ≤ length args) (λ _. k)
      (ensures-bind _ _ (require-Ensures (is_some (find_sub (block_of t).name contexts))) λ _ _.
        ensures_weaken _ (require-Ensures (leb least (length args) && leb (length args) most))
          (λ _ e. ground arith))
      (λ _. h)

-- A property that no change of a block's directives touches, and that the two directives which set
-- a member of their own keep.
module _ (P : Target → Type 0) (filled : (t : Target) → P t → Filled (block_of t))
    (with_block-P : (t : Target) (b : Block) → P t → Filled b → P (with_block b t)) where
  pub add_args-Ensures :
      (name : Bytes) (args : List Token) (t : Target)
      → P t
      → (is_read_first name ≡ true → 0 < length args)
      → Ensures P (add_args name args t)
  unfolding add_args
  add_args-Ensures name args t h l =
      ensures-bind (λ values. length values ≡ length args) _ (get_all-Ensures args)
        λ values e. value_with _ (
          with_block-P t _ h
            (add-Filled name values (block_of t) (filled t h) λ r. omega (arith, e, l r)))

  -- A directive that stores what is not empty.
  with_value :
      (key : Bytes) (vs : List Argument) (t : Target)
      → P t
      → 0 < length vs
      → P (with_block (add key vs (block_of t)) t)
  with_value key vs t h l =
      with_block-P t _ h (add-Filled key vs (block_of t) (filled t h) (λ _. l))

  pub alias-Ensures : (t : Target) (args : List Token) → P t → Ensures P (alias t args)
  unfolding alias
  alias-Ensures t args h =
      checked P (codes "location") 1 1 t args
        λ l. add_args-Ensures (codes "alias") args t h (λ _. l)

  pub index-Ensures : (t : Target) (args : List Token) → P t → Ensures P (index t args)
  unfolding index
  index-Ensures t args h =
      checked P anywhere 1 10 t args λ l. add_args-Ensures (codes "index") args t h (λ _. l)

  pub server_name-Ensures : (t : Target) (args : List Token) → P t → Ensures P (server_name t args)
  unfolding server_name
  server_name-Ensures t args h =
      checked P (codes "server") 1 10 t args
        λ l. add_args-Ensures (codes "server_name") args t h (λ _. l)

  pub allow_methods-Ensures :
      (t : Target) (args : List Token) → P t → Ensures P (allow_methods t args)
  unfolding allow_methods
  allow_methods-Ensures t args h = checked P anywhere 1 3 t args λ l.
      ensures-bind _ _ (require-Ensures _)
        λ _ _. add_args-Ensures (codes "allow_methods") args t h (λ _. l)

  pub root-Ensures : (t : Target) (args : List Token) → P t → Ensures P (root t args)
  unfolding root
  root-Ensures t args h = checked P anywhere 1 1 t args λ l.
      ensures-bind Anything _ (first_literal-Ensures args l) λ literal _.
        ensures-bind Filled _ (set_root-Ensures literal (block_of t) (filled t h))
          λ b f. value_with _ (with_block-P t b h f)

  pub upload_path-Ensures : (t : Target) (args : List Token) → P t → Ensures P (upload_path t args)
  unfolding upload_path
  upload_path-Ensures t args h = checked P (codes "location") 1 1 t args λ l.
      ensures-bind Anything _ (first_literal-Ensures args l) λ literal _.
        ensures-bind _ _ (require-Ensures _)
          λ _ _. add_args-Ensures (codes "upload_path") args t h (λ _. l)

  pub cgi_pass-Ensures : (t : Target) (args : List Token) → P t → Ensures P (cgi_pass t args)
  unfolding cgi_pass cgi_values
  cgi_pass-Ensures t [] h =
      checked P (codes "location") 0 2 t [] λ _. value_with _ (with_value _ _ t h (omega arith))
  cgi_pass-Ensures t (a ∷ []) h =
      checked P (codes "location") 0 2 t (a ∷ [])
        λ _. value_with _ (with_value _ _ t h (omega arith))
  cgi_pass-Ensures t (a ∷ b ∷ args) h =
      checked P (codes "location") 0 2 t (a ∷ b ∷ args)
        λ _. value_with _ (with_value _ _ t h (omega arith))

  pub client_max_body_size-Ensures :
      (t : Target) (args : List Token) → P t → Ensures P (client_max_body_size t args)
  unfolding client_max_body_size
  client_max_body_size-Ensures t args h = checked P anywhere 1 1 t args λ l.
      ensures-bind Anything _ (size_value-Ensures args l) λ total _. value_with _ (
        with_block-P t _ h (
          push_arg-Filled (codes "client_max_body_size") (integer total) (block_of t) (filled t h)))

  pages-Ensures :
      (path : Bytes) (args : List Token) (t : Target) → P t → Ensures P (add_pages path args t)
  unfolding add_pages check_type
  pages-Ensures path [] t h = value_with _ h
  pages-Ensures path (a ∷ []) t h = value_with _ h
  pages-Ensures path (a ∷ b ∷ args) t h = ensures-bind _ _ (require-Ensures _) λ _ _.
      ensures-bind _ _ (require-Ensures _)
        λ _ _. pages-Ensures path (b ∷ args) _ (with_value _ _ t h (omega arith))

  pub error_page-Ensures : (t : Target) (args : List Token) → P t → Ensures P (error_page t args)
  unfolding error_page
  error_page-Ensures t args h = checked P anywhere 2 20 t args λ l.
      ensures-bind Anything _ (last_literal-Ensures args (omega arith))
        λ path _. pages-Ensures path args t h

  return_args-Ensures :
      (t : Target) (args : List Token) → 1 ≤ length args → P t → Ensures P (return_args t args)
  unfolding return_args check_type
  return_args-Ensures t [] l h = absurd (omega arith)
  return_args-Ensures t (a ∷ []) l h =
      if-holds (Ensures P) (eq_type a.kind number)
        (λ _. ensures-bind _ _ (require-Ensures _) λ _ _.
          ensures-bind _ _ (require-Ensures _)
            λ _ _. add_args-Ensures (codes "return") (a ∷ []) t h (λ _. omega arith))
        λ _. value_with _ (with_value _ _ t h (omega arith))
  return_args-Ensures t (a ∷ b ∷ args) l h = ensures-bind _ _ (require-Ensures _) λ _ _.
      ensures-bind _ _ (require-Ensures _)
        λ _ _. add_args-Ensures (codes "return") (a ∷ b ∷ args) t h (λ _. omega arith)

  pub return_to-Ensures : (t : Target) (args : List Token) → P t → Ensures P (return_to t args)
  unfolding return_to
  return_to-Ensures t args h = checked P anywhere 1 2 t args λ l. return_args-Ensures t args l h

  -- Of the two directives that set a member of their own.
  pub autoindex-Ensures :
      (t : Target) (args : List Token)
      → ((b : Bool) → Ensures P (set_auto_index b t))
      → Ensures P (autoindex t args)
  unfolding autoindex
  autoindex-Ensures t args h = checked P (codes "location") 1 1 t args λ l.
      ensures-bind Anything _ (first_literal-Ensures args l)
        λ literal _. ensures-bind Anything _ (bool_of-Ensures literal) λ b _. h b

  set_listen-Ensures :
      (args : List Token) (o : Option IpInfo) (t : Target)
      → HasPort o
      → 1 ≤ length args
      → ((i : IpInfo) → InRange i.port → Ensures P (set_endpoint i t))
      → Ensures P (set_listen args o t)
  unfolding set_listen
  set_listen-Ensures args none t e l h = refused
  set_listen-Ensures args (some i) t e l h =
      ensures-bind P _ (h i e) λ t1 p. add_args-Ensures (codes "listen") args t1 p (λ _. l)

  pub listen-Ensures :
      (inet_pton : Bytes → Bool) (t : Target) (args : List Token)
      → ((i : IpInfo) → InRange i.port → Ensures P (set_endpoint i t))
      → Ensures P (listen inet_pton t args)
  unfolding listen
  listen-Ensures inet_pton t args h = checked P (codes "server") 1 1 t args λ l.
      ensures-bind Anything _ (first_literal-Ensures args l) λ literal _.
        set_listen-Ensures args (extract_ip_info inet_pton literal) t
          (extract_ip_info-HasPort inet_pton literal) l h
