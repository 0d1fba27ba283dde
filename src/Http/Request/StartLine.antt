-- ===== src/Http/Request/StartLine.antt =====
-- The request line, printed and parsed.
use server_x.Common.{
  find_byte-append, ℕ, suc, ◌+◌, Bool, true, not, ◌&&◌, Option, none, some, [], ◌∷◌, ◌++◌, ◌≡◌,
  refl, ap, ◌∙◌, arith, drop, length, take-length_append, Bytes, beq, is_space, is_empty, find_byte,
}
use server_x.Http.Request.{
  new_start_line, Method, get, head, post, put, delete, unknown, RequestStartLine,
  match_http_method, method_to_string, next_word, word, split_uri, parse_start_line,
}

-- No byte of it is white space, and there is one.
no_space : Bytes → Bool
unfolding is_space
no_space [] = true
no_space (c ∷ cs) = not (is_space c) && no_space cs

unfoldable pub is_word : Bytes → Bool
unfolding no_space
is_word s = not (is_empty s) && no_space s

word-append :
    (w : Bytes) (c : ℕ) (t : Bytes)
    → no_space w ≡ true
    → is_space c ≡ true
    → word (w ++ (c ∷ t)) ≡ (w, c ∷ t)
unfolding word no_space
word-append [] c t e s = rw s refl
word-append (x ∷ w) c t e s = ground (arith, word-append w c t)

next_word-append :
    (w : Bytes) (c : ℕ) (t : Bytes)
    → is_word w ≡ true
    → is_space c ≡ true
    → next_word (w ++ (c ∷ t)) ≡ some (w, c ∷ t)
unfolding next_word is_word
next_word-append [] c t e s = absurd (cc)
next_word-append (x ∷ w) c t e s = ground (arith, word-append (x ∷ w) c t)

next_word_space : (c : ℕ) (t : Bytes) → is_space c ≡ true → next_word (c ∷ t) ≡ next_word t
unfolding next_word
next_word_space c t s = rw s refl

-- What the parser reads of a method's name.
match_http_method-method_to_string : (m : Method) → match_http_method (method_to_string m) ≡ m
unfolding match_http_method method_to_string beq
match_http_method-method_to_string get = refl
match_http_method-method_to_string head = refl
match_http_method-method_to_string post = refl
match_http_method-method_to_string put = refl
match_http_method-method_to_string delete = refl
match_http_method-method_to_string unknown = refl

method_to_string-is_word : (m : Method) → is_word (method_to_string m) ≡ true
unfolding is_word method_to_string is_space
method_to_string-is_word get = refl
method_to_string-is_word head = refl
method_to_string-is_word post = refl
method_to_string-is_word put = refl
method_to_string-is_word delete = refl
method_to_string-is_word unknown = refl

space : is_space b' ' ≡ true
unfolding is_space
space = refl

carriage_return : is_space b'\r' ≡ true
unfolding is_space
carriage_return = refl

parse_start_line-eq :
    (line : Bytes)
    → parse_start_line line ≡ (elim (next_word line) [
      | none ↦ new_start_line
      | some (m, r1) ↦ elim (next_word r1) [
        | none ↦ new_start_line
        | some (u, r2) ↦ elim (next_word r2) [
          | none ↦ record new_start_line { uri = u }
          | some (v, r3) ↦
              split_uri
                (record new_start_line { method = match_http_method m; uri = u; version = v })
                (find_byte b'?' u)
        ]
      ]
    ])
unfolding parse_start_line
parse_start_line-eq line = refl

abbrev print : Method → Bytes → Bytes → Bytes → Bytes
print m uri version rest =
    method_to_string m ++ (b' ' ∷ (uri ++ (b' ' ∷ (version ++ (b'\r' ∷ rest)))))

parse_start_line-words :
    (m : Method) (uri version rest : Bytes)
    → is_word uri ≡ true
    → is_word version ≡ true
    → parse_start_line (print m uri version rest)
      ≡ split_uri
          (record { method = m; uri = uri; path = []; query_string = []; version = version })
          (find_byte b'?' uri)
parse_start_line-words m uri version rest u v =
    let r2 = version ++ (b'\r' ∷ rest) in
    let r1 = uri ++ (b' ' ∷ r2) in
    let w1 = next_word-append (method_to_string m) b' ' r1 (method_to_string-is_word m) space in
    let w2 = next_word_space b' ' r1 space ∙ next_word-append uri b' ' r2 u space in
    let w3 =
      next_word_space b' ' r2 space ∙ next_word-append version b'\r' rest v carriage_return in
    rw
      (
        parse_start_line-eq (print m uri version rest),
        w1,
        w2,
        w3,
        match_http_method-method_to_string m,
      )
      refl

drop_past : (a : Bytes) (c : ℕ) (b : Bytes) → drop (length a + 1) (a ++ (c ∷ b)) ≡ b
drop_past [] c b = refl
drop_past (x ∷ a) c b =
    let later : suc (length a) + 1 ≡ suc (length a + 1) = omega arith in rw later (drop_past a c b)

split_uri-at :
    (line : RequestStartLine) (path query : Bytes)
    → line.uri ≡ path ++ (b'?' ∷ query)
    → split_uri line (some (length path)) ≡ record line { path = path; query_string = query }
unfolding split_uri
split_uri-at line path query e =
    rw (e, take-length_append path (b'?' ∷ query), drop_past path b'?' query) refl

split_uri-whole :
    (line : RequestStartLine)
    → split_uri line none ≡ record line { path = line.uri; query_string = [] }
unfolding split_uri
split_uri-whole line = refl

-- The target of a request: a path, and a query behind a question mark if there is one.
abbrev pub target : Bytes → Option Bytes → Bytes
target path none = path
target path (some query) = path ++ (b'?' ∷ query)

abbrev pub query_of : Option Bytes → Bytes
query_of none = []
query_of (some query) = query

cut_at_query :
    (line : RequestStartLine) (path : Bytes) (query : Option Bytes)
    → line.uri ≡ target path query
    → find_byte b'?' path ≡ none
    → split_uri line (find_byte b'?' (target path query))
      ≡ record line { path = path; query_string = query_of query }
cut_at_query line path none e n =
    ap (split_uri line) n
    ∙ split_uri-whole line
    ∙ ap (λ u. record line { path = u; query_string = [] }) e
cut_at_query line path (some query) e n =
    ap (split_uri line) (find_byte-append b'?' path query n) ∙ split_uri-at line path query e

-- A request line of a method, a target and a version without white space is read as these,
-- whatever stands behind its CR. The target is cut at its first '?', into `path` and the query;
-- without a '?' it is all path, and the query is empty.
pub parse_start_line-print :
    (m : Method) (path : Bytes) (query : Option Bytes) (version rest : Bytes)
    → is_word (target path query) ≡ true
    → is_word version ≡ true
    → find_byte b'?' path ≡ none
    → parse_start_line (print m (target path query) version rest) ≡ record {
      method = m;
      uri = target path query;
      path = path;
      query_string = query_of query;
      version = version;
    }
parse_start_line-print m path query version rest u v n =
    let line : RequestStartLine = record {
      method = m;
      uri = target path query;
      path = [];
      query_string = [];
      version = version;
    } in
    parse_start_line-words m (target path query) version rest u v
    ∙ cut_at_query line path query refl n
