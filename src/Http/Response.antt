-- ===== src/Http/Response.antt =====
-- src/http/Response.cpp and ResponseBody.cpp: the response and its body. The pointer `body_` is
-- modelled with what it points to; deleting it twice, which a `delete` of a pointer that was not
-- set again does, is recorded in `freed_twice`.
use server_x.Common.{
  ℕ, ◌+◌, ◌-◌, ◌%◌, ◌^◌, min, Bool, true, false, ◌||◌, Option, none, some, [], ◌∷◌, ◌++◌, ◌==◌,
  if◌then◌else◌, length, take, drop, Bytes, codes,
}
use server_x.Config.Argument.{to_string}
use server_x.Http.Status.{HttpStatus, ok, value, get_reason_phrase}
use server_x.Http.Headers
use server_x.Http.Headers.{Headers, add, erase_key}

-- `FileBody` with its size and the bytes sent, `BodyInMemory` with the bytes read, and
-- `BodyFromCgi` with its descriptor, `isDone_` and `hasHeaderParsing_`.
pub data Body : Type 0 where
  file_body : ℕ → ℕ → Body
  in_memory : Bytes → ℕ → Body
  from_cgi : Option ℕ → Bool → Bool → Body

unfoldable pub size : Body → ℕ
size (file_body total sent) = total
size (in_memory body bytes_read) = length body
size (from_cgi fd done has_headers) = 0

unfoldable pub is_done : Body → Bool
is_done (file_body total sent) = sent == total
is_done (in_memory body bytes_read) = bytes_read == length body
is_done (from_cgi fd done has_headers) = done

unfoldable pub has_header_parsing : Body → Bool
has_header_parsing (from_cgi fd done has_headers) = has_headers
has_header_parsing _ = false

-- `none` for -1.
unfoldable pub get_event_source_fd : Body → Option ℕ
get_event_source_fd (from_cgi fd done has_headers) = fd
get_event_source_fd _ = none

-- `read` of at most `n` bytes. `answer` is the system's for a file or a pipe: the bytes, none of
-- them at the end, or `none` for -1. A failed read of a file takes one from `sent_`.
unfoldable pub read_pipe : Option ℕ → Bool → Option Bytes → Option Bytes × Body
read_pipe fd has_headers none = (none, from_cgi fd true has_headers)
read_pipe fd has_headers (some []) = (some [], from_cgi fd true has_headers)
read_pipe fd has_headers (some (c ∷ cs)) = (some (c ∷ cs), from_cgi fd false has_headers)

unfoldable pub read : Option Bytes → ℕ → Body → Option Bytes × Body
unfolding read_pipe
read answer n (file_body total sent) = elim answer [
  | none ↦ (none, file_body total ((sent + (2 ^ 64 - 1)) % 2 ^ 64))
  | some bytes ↦ (some bytes, file_body total ((sent + length bytes) % 2 ^ 64))
]
read answer n (in_memory body bytes_read) =
    let bytes_to_read = min n (length body - bytes_read) in
    (some (take bytes_to_read (drop bytes_read body)), in_memory body (bytes_read + bytes_to_read))
read answer n (from_cgi fd done has_headers) =
    let other = read_pipe fd has_headers answer in
    if done then (some [], from_cgi fd done has_headers) else other

-- `body_`.
pub data BodyPointer : Type 0 where
  null dangling : BodyPointer
  to_body : Body → BodyPointer

pub record Response : Type 0 where
  pub status_code : HttpStatus
  pub reason_phrase : Bytes
  pub headers : Headers
  pub body : BodyPointer
  pub custom_error : Bytes
  pub freed_twice : Bool

-- The constructors; the protocol is always "HTTP/1.1".
abbrev pub new_response : Response
new_response = record {
  status_code = ok;
  reason_phrase = codes "OK";
  headers = [];
  body = null;
  custom_error = [];
  freed_twice = false;
}

unfoldable pub is_dangling : BodyPointer → Bool
is_dangling dangling = true
is_dangling _ = false

-- `delete body_`.
unfoldable pub delete_body : Response → Response
unfolding is_dangling
delete_body r = record r {
  freed_twice = r.freed_twice || is_dangling r.body;
  body = elim r.body [ null ↦ null | _ ↦ dangling ];
}

unfoldable pub set_status : HttpStatus → Response → Response
unfolding get_reason_phrase
set_status s r = record r {
  status_code = s;
  reason_phrase = get_reason_phrase s;
  custom_error = [];
}

-- `status(code, customMessage)`.
unfoldable pub set_status_message : HttpStatus → Bytes → Response → Response
unfolding set_status
set_status_message s message r = record (set_status s r) { custom_error = message }

unfoldable pub add_header : Bytes → Bytes → Response → Response
unfolding add
add_header key value r = record r { headers = add key value r.headers }

unfoldable pub set_no_body : Bool → Response → Response
unfolding delete_body erase_key
set_no_body remove_content_headers r =
    let kept = erase_key (codes "Content-Type") (erase_key (codes "Content-Length") r.headers) in
    record (delete_body r) {
      body = null;
      headers = if remove_content_headers then kept else r.headers;
    }

-- The fields of a body whose size is known.
unfoldable pub content_headers : ℕ → Bytes → Headers → Headers
unfolding add to_string
content_headers n content_type h =
    add (codes "Content-Type") content_type (add (codes "Content-Length") (to_string n) h)

unfoldable pub set_body_in_memory : Bytes → Bytes → Response → Response
unfolding delete_body content_headers
set_body_in_memory data_bytes content_type r = record (delete_body r) {
  body = to_body (in_memory data_bytes 0);
  headers = content_headers (length data_bytes) content_type r.headers;
}

unfoldable pub with_file_body : Option ℕ → Bytes → Response → Bool × Response
unfolding delete_body content_headers
with_file_body none content_type r = (false, delete_body r)
with_file_body (some n) content_type r = (
  true,
  record (delete_body r) {
    body = to_body (file_body n 0);
    headers = content_headers n content_type r.headers;
  },
)

-- `file_size` tells the size of a file that `stat` and `open` succeed on. Where they do not, the
-- constructor of `FileBody` throws, behind the deletion; the Boolean tells whether it returned.
unfoldable pub set_body_from_file : (Bytes → Option ℕ) → Bytes → Bytes → Response → Bool × Response
unfolding with_file_body
set_body_from_file file_size fpath content_type r = with_file_body (file_size fpath) content_type r

unfoldable pub set_body_from_cgi : Option ℕ → Bool → Response → Response
unfolding delete_body
set_body_from_cgi pipe_fd has_headers r = record (delete_body r) {
  body = to_body (from_cgi pipe_fd (elim pipe_fd [ none ↦ true | some _ ↦ false ]) has_headers);
}

-- `clear`.
unfoldable pub clear : Response → Response
unfolding set_status delete_body
clear r = record (set_status ok (delete_body r)) { body = null; headers = [] }

-- `buildHeaders`, which clears the buffer first.
unfoldable pub build_headers : Bool → Response → Bytes
unfolding value to_string Headers.to_string
build_headers add_body_line r =
    codes "HTTP/1.1 "
    ++ to_string (value r.status_code)
    ++ codes " "
    ++ r.reason_phrase
    ++ codes "\r\n"
    ++ Headers.to_string r.headers
    ++ (if add_body_line then codes "\r\n" else [])
