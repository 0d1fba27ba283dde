-- ===== src/Http/Router/Safety.antt =====
-- Who is let through to a handler.
use server_x.Common.{
  ℕ, ◌<◌, Bool, true, false, Option, none, some, ◌≡◌, ◌≢◌, inl, inr, refl, sym, ap, ◌∙◌, arith,
  Bool-cases, leb, if◌then◌else◌, if-true, if-false, Bytes, codes, Result, returns, throws, ◌>>=◌,
  List,
}
use server_x.Config.Block.{has, get_raw_values}
use server_x.Config.Location.{LocationBlock}
use server_x.Config.Server.{ServerBlock, contains}
use server_x.Http.Status.{HttpStatus, value, not_found, method_not_allowed}
use server_x.Http.Request.{Method, post, delete, Request, method_to_string}
use server_x.Http.Router.{
  Handler, file_delete, file_upload, Route, answer, handle, handler_at, is_allowed_at,
  is_method_allowed, route_at, execute_handler, caught, dispatch,
}

-- The location allows the method: it has no `allow_methods`, or the method's name is a value of it.
pub data Allows (l : LocationBlock) (m : Method) : Type 0 where
  no_directive : has (codes "allow_methods") l.block ≡ false → Allows l m
  listed :
      (names : List Bytes)
      → get_raw_values (codes "allow_methods") l.block ≡ returns names
      → contains names (method_to_string m) ≡ true
      → Allows l m

-- What a request that is handed to `h` is known to be.
pub record IsRouted (r : Request) (h : Handler) : Type 0 where
  pub server : ServerBlock
  pub location : LocationBlock
  pub has_server : r.server ≡ some server
  pub has_location : r.location ≡ some location
  pub allows : Allows location r.start_line.method
  pub no_error : value r.status < 400
  pub deletes : h ≡ file_delete → r.start_line.method ≡ delete
  pub uploads : h ≡ file_upload → r.start_line.method ≡ post

contains_some :
    (m : Result (List Bytes)) (s : Bytes)
    → (m >>= λ names. returns (contains names s)) ≡ returns true
    → (names : List Bytes) × (m ≡ returns names) × (contains names s ≡ true)
contains_some (returns names) s e = (names, refl, cc)
contains_some (throws x) s e = absurd (cc)

is_allowed_at-eq :
    (l : LocationBlock) (m : Method)
    → is_allowed_at (some l) m ≡ (
        if has (codes "allow_methods") l.block
        then (get_raw_values (codes "allow_methods") l.block >>= λ allowed.
            returns (contains allowed (method_to_string m)))
        else returns true)
unfolding is_allowed_at
is_allowed_at-eq l m = refl

is_allowed_at-Allows :
    (l : LocationBlock) (m : Method) → is_allowed_at (some l) m ≡ returns true → Allows l m
is_allowed_at-Allows l m e = elim (Bool-cases (has (codes "allow_methods") l.block)) [
  | inr h ↦ no_directive h
  | inl h ↦
      let values = get_raw_values (codes "allow_methods") l.block in
      let (names, is, there) =
        contains_some values (method_to_string m)
          (sym (if-true _ _ h) ∙ sym (is_allowed_at-eq l m) ∙ e) in
      listed names is there
]

handler_at-delete : (l : LocationBlock) (m : Method) → handler_at l m ≡ file_delete → m ≡ delete
unfolding handler_at
handler_at-delete l m e = ground arith

handler_at-upload : (l : LocationBlock) (m : Method) → handler_at l m ≡ file_upload → m ≡ post
unfolding handler_at
handler_at-upload l m e = ground arith

answered : {status : HttpStatus} {h : Handler} → returns (answer status) ≢ returns (handle h)
answered e = cc

refused : {status : HttpStatus} {h : Handler} → answer status ≢ handle h
refused e = cc

-- What is let through has a server and a location, and its method is allowed.
record IsLet (s : Option ServerBlock) (o : Option LocationBlock) (r : Request) (h : Handler)
    : Type 0 where
  server : ServerBlock
  location : LocationBlock
  has_server : s ≡ some server
  has_location : o ≡ some location
  allowed : is_method_allowed r ≡ returns true
  chosen : handler_at location r.start_line.method ≡ h

let_through :
    (l : LocationBlock) (r : Request) (h : Handler) (o : Result Bool)
    → (o >>= λ allowed.
        if allowed
        then returns (handle (handler_at l r.start_line.method))
        else returns (answer method_not_allowed))
      ≡ returns (handle h)
    → (o ≡ returns true) × (handler_at l r.start_line.method ≡ h)
let_through l r h (returns true) e = (refl, cc)
let_through l r h (returns false) e = absurd (cc)
let_through l r h (throws x) e = absurd (cc)

route_at-some :
    (s : ServerBlock) (l : LocationBlock) (r : Request)
    → route_at (some s) (some l) r ≡ (
        is_method_allowed r >>= λ allowed.
        if allowed
        then returns (handle (handler_at l r.start_line.method))
        else returns (answer method_not_allowed))
unfolding route_at
route_at-some s l r = refl

route_at-none :
    (o : Option LocationBlock) (r : Request) → route_at none o r ≡ returns (answer not_found)
unfolding route_at
route_at-none o r = refl

route_at-nowhere :
    (s : ServerBlock) (r : Request) → route_at (some s) none r ≡ returns (answer not_found)
unfolding route_at
route_at-nowhere s r = refl

route_at-IsLet :
    (s : Option ServerBlock) (o : Option LocationBlock) (r : Request) (h : Handler)
    → route_at s o r ≡ returns (handle h)
    → IsLet s o r h
route_at-IsLet (some s) (some l) r h e =
    let ok = let_through l r h (is_method_allowed r) (sym (route_at-some s l r) ∙ e) in
    record {
      server = s;
      location = l;
      has_server = refl;
      has_location = refl;
      allowed = ok.0;
      chosen = ok.1;
    }
route_at-IsLet none o r h e = absurd (answered (sym (route_at-none o r) ∙ e))
route_at-IsLet (some s) none r h e = absurd (answered (sym (route_at-nowhere s r) ∙ e))

dispatch-eq :
    (r : Request)
    → dispatch r
      ≡ (if leb 400 (value r.status) then answer r.status else caught (execute_handler r))
unfolding dispatch
dispatch-eq r = refl

caught-handle : (o : Result Route) (h : Handler) → caught o ≡ handle h → o ≡ returns (handle h)
unfolding caught
caught-handle (returns x) h e = ap returns e
caught-handle (throws x) h e = absurd (refused e)

execute_handler-handle :
    (r : Request) (h : Handler)
    → caught (execute_handler r) ≡ handle h
    → route_at r.server r.location r ≡ returns (handle h)
unfolding execute_handler
execute_handler-handle r h e = caught-handle (execute_handler r) h e

leb-false→lt : (a b : ℕ) → leb a b ≡ false → b < a
leb-false→lt a b e = ground arith

dispatch-IsLet :
    (r : Request) (h : Handler)
    → dispatch r ≡ handle h
    → (value r.status < 400) × IsLet r.server r.location r h
dispatch-IsLet r h e = elim (Bool-cases (leb 400 (value r.status))) [
  | inl t ↦ absurd (refused (sym (if-true _ _ t) ∙ sym (dispatch-eq r) ∙ e))
  | inr f ↦
      let through = execute_handler-handle r h (sym (if-false _ _ f) ∙ sym (dispatch-eq r) ∙ e) in
      (leb-false→lt 400 (value r.status) f, route_at-IsLet r.server r.location r h through)
]

allowed_there :
    (r : Request) (l : LocationBlock)
    → r.location ≡ some l
    → is_method_allowed r ≡ returns true
    → Allows l r.start_line.method
unfolding is_method_allowed
allowed_there r l e a =
    is_allowed_at-Allows l r.start_line.method
      (sym (ap (λ o. is_allowed_at o r.start_line.method) e) ∙ a)

-- Only a request without an error status, with a server and a location, whose method the location
-- allows, is handed to a handler; a file is deleted only for DELETE, and stored only for POST.
pub dispatch-IsRouted : (r : Request) (h : Handler) → dispatch r ≡ handle h → IsRouted r h
dispatch-IsRouted r h e =
    let (ok, l) = dispatch-IsLet r h e in
    record {
      server = l.server;
      location = l.location;
      has_server = l.has_server;
      has_location = l.has_location;
      allows = allowed_there r l.location l.has_location l.allowed;
      no_error = ok;
      deletes = λ d. handler_at-delete l.location r.start_line.method (l.chosen ∙ d);
      uploads = λ u. handler_at-upload l.location r.start_line.method (l.chosen ∙ u);
    }
