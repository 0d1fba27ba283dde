-- ===== src/Http/Upload/Safety.antt =====
-- An accepted name stays in the directory that it is put into.
use mathlib.Core.Path.{subst}
use server_x.Common.{
  true-not_false, ℕ, ◌-◌, Bool, true, false, ◌||◌, some, [], ◌∷◌, ◌++◌, ◌≡◌, ◌≢◌, refl, sym, ap,
  ◌∙◌, arith, ◌==◌, if◌then◌else◌, length, length-append, Bytes, codes, is_empty, is_some,
  find_byte, rfind_byte, find_sub, starts_with,
}
use server_x.Http.Status.{HttpStatus, bad_request, not_implemented}
use server_x.Http.Headers
use server_x.Http.Request.{Request}
use server_x.Http.Upload.{
  UploadValidationResult, accept, fail, name_of, starts_with_dot, ends_with_dot, check_name,
  parse_filename,
}

-- A name that names a file of the directory it is put into, which is neither hidden nor the
-- directory itself or its parent.
pub record IsSafe (name : Bytes) : Type 0 where
  pub some_name : name ≢ []
  pub no_slash : (a b : Bytes) → name ≢ a ++ (b'/' ∷ b)
  pub no_backslash : (a b : Bytes) → name ≢ a ++ (b'\\' ∷ b)
  pub no_parent : (a b : Bytes) → name ≢ a ++ (codes ".." ++ b)
  pub no_first_dot : (b : Bytes) → name ≢ b'.' ∷ b
  pub no_last_dot : (a : Bytes) → name ≢ a ++ (b'.' ∷ [])

find_byte-there : (c : ℕ) (a b : Bytes) → is_some (find_byte c (a ++ (c ∷ b))) ≡ true
unfolding find_byte
find_byte-there c [] b = ground arith
find_byte-there c (x ∷ a) b = ground (arith, find_byte-there c a b)

starts_with-append : (n b : Bytes) → starts_with n (n ++ b) ≡ true
unfolding starts_with
starts_with-append [] b = refl
starts_with-append (x ∷ n) b = ground (arith, starts_with-append n b)

find_sub-start : (n s : Bytes) → starts_with n s ≡ true → is_some (find_sub n s) ≡ true
unfolding find_sub
find_sub-start n [] e = rw e refl
find_sub-start n (x ∷ s) e = rw e refl

find_sub-cons :
    (n : Bytes) (x : ℕ) (s : Bytes)
    → is_some (find_sub n s) ≡ true
    → is_some (find_sub n (x ∷ s)) ≡ true
unfolding find_sub
find_sub-cons n x s e = ground arith

find_sub-there : (n a b : Bytes) → is_some (find_sub n (a ++ (n ++ b))) ≡ true
find_sub-there n [] b = find_sub-start n (n ++ b) (starts_with-append n b)
find_sub-there n (x ∷ a) b = find_sub-cons n x (a ++ (n ++ b)) (find_sub-there n a b)

rfind_byte_last : (c : ℕ) (a : Bytes) → rfind_byte c (a ++ (c ∷ [])) ≡ some (length a)
unfolding rfind_byte
rfind_byte_last c [] = ground arith
rfind_byte_last c (x ∷ a) = rw (rfind_byte_last c a) refl

ends_with_dot_last : (a : Bytes) → ends_with_dot (a ++ (b'.' ∷ [])) ≡ true
unfolding ends_with_dot
ends_with_dot_last a =
    let size : (length a == length (a ++ (b'.' ∷ [])) - 1) ≡ true =
      ground (arith, length-append a (b'.' ∷ [])) in
    rw (ends_with_dot, rfind_byte_last b'.' a) size

-- The tests that an accepted name has passed.
record Accepted (name : Bytes) (r : UploadValidationResult) : Type 0 where
  same : r.filename ≡ name
  not_empty : is_empty name ≡ false
  slash : is_some (find_byte b'/' name) ≡ false
  backslash : is_some (find_byte b'\\' name) ≡ false
  parent : is_some (find_sub (codes "..") name) ≡ false
  first_dot : starts_with_dot name ≡ false
  last_dot : ends_with_dot name ≡ false

result_at : {r s : UploadValidationResult} → r ≡ s → r.result ≡ true → s.result ≡ true
result_at e t = ap (λ (r : UploadValidationResult). r.result) (sym e) ∙ t

check_name-eq :
    (content_type name : Bytes)
    → check_name content_type name ≡ (
        if is_empty name
        then fail bad_request
        else if is_some (find_byte b'/' name)
            || (is_some (find_byte b'\\' name) || is_some (find_sub (codes "..") name))
        then fail bad_request
        else if starts_with_dot name
        then fail bad_request
        else if ends_with_dot name
        then fail bad_request
        else if is_some (find_sub (codes "multipart/form-data") content_type)
        then fail not_implemented
        else accept name)
unfolding check_name
check_name-eq content_type name = refl

-- A test that refuses has been passed by what is accepted.
passed :
    (b : Bool) (s : HttpStatus) (r : UploadValidationResult)
    → (if b then fail s else r).result ≡ true
    → (b ≡ false) × ((if b then fail s else r) ≡ r) × (r.result ≡ true)
passed true s r e = absurd (true-not_false (sym e))
passed false s r e = (refl, refl, e)

neither : (a b c : Bool) → a || (b || c) ≡ false → (a ≡ false) × (b ≡ false) × (c ≡ false)
neither a b c e = (ground arith, ground arith, ground arith)

check_name-Accepted :
    (content_type name : Bytes)
    → (check_name content_type name).result ≡ true
    → Accepted name (check_name content_type name)
check_name-Accepted content_type name e =
    let r5 =
      if is_some (find_sub (codes "multipart/form-data") content_type)
      then fail not_implemented
      else accept name in
    let r4 = if ends_with_dot name then fail bad_request else r5 in
    let r3 = if starts_with_dot name then fail bad_request else r4 in
    let sign =
      is_some (find_byte b'/' name)
      || (is_some (find_byte b'\\' name) || is_some (find_sub (codes "..") name)) in
    let r2 = if sign then fail bad_request else r3 in
    let e1 = result_at (check_name-eq content_type name) e in
    let p1 = passed (is_empty name) bad_request r2 e1 in
    let p2 = passed sign bad_request r3 p1.2 in
    let p3 = passed (starts_with_dot name) bad_request r4 p2.2 in
    let p4 = passed (ends_with_dot name) bad_request r5 p3.2 in
    let p5 =
      passed (is_some (find_sub (codes "multipart/form-data") content_type)) not_implemented
        (accept name) p4.2 in
    let n = neither _ _ _ p2.0 in
    let same = check_name-eq content_type name ∙ p1.1 ∙ p2.1 ∙ p3.1 ∙ p4.1 ∙ p5.1 in
    record {
      same = ap (λ (r : UploadValidationResult). r.filename) same;
      not_empty = p1.0;
      slash = n.0;
      backslash = n.1;
      parent = n.2;
      first_dot = p3.0;
      last_dot = p4.0;
    }

clash :
    {name shape : Bytes} (e : name ≡ shape) (test : Bytes → Bool)
    → test shape ≡ true
    → test name ≢ false
clash e test t f = true-not_false (sym t ∙ ap test (sym e) ∙ f)

IsSafe-of : {name : Bytes} {r : UploadValidationResult} → Accepted name r → IsSafe name
unfolding starts_with_dot
IsSafe-of c = record {
  some_name = λ e. clash e is_empty refl c.not_empty;
  no_slash = λ a b e. clash e (λ n. is_some (find_byte b'/' n)) (find_byte-there b'/' a b) c.slash;
  no_backslash =
      λ a b e. clash e (λ n. is_some (find_byte b'\\' n)) (find_byte-there b'\\' a b) c.backslash;
  no_parent = λ a b e.
      clash e (λ n. is_some (find_sub (codes "..") n)) (find_sub-there (codes "..") a b) c.parent;
  no_first_dot = λ b e. clash e starts_with_dot refl c.first_dot;
  no_last_dot = λ a e. clash e ends_with_dot (ends_with_dot_last a) c.last_dot;
}

parse_filename-eq :
    (req : Request)
    → parse_filename req ≡ check_name (Headers.get (codes "Content-Type") req.headers) (name_of req)
unfolding parse_filename
parse_filename-eq req = refl

-- What `parseFilename` accepts is safe: not empty, with no slash, no backslash and no "..", and
-- neither beginning nor ending with a dot, wherever the request names the file.
pub parse_filename-IsSafe :
    (req : Request) → (parse_filename req).result ≡ true → IsSafe (parse_filename req).filename
parse_filename-IsSafe req e =
    let content_type = Headers.get (codes "Content-Type") req.headers in
    let eq = parse_filename-eq req in
    let c = check_name-Accepted content_type (name_of req) (result_at eq e) in
    subst IsSafe (sym (ap (λ (r : UploadValidationResult). r.filename) eq ∙ c.same)) (IsSafe-of c)
