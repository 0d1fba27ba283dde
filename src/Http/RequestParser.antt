-- ===== src/Http/RequestParser.antt =====
-- src/http/RequestParser.cpp and inc/http/RequestParser.hpp: the state machine that turns what
-- the socket delivers into a request. The reference `request_` is a field here; the client's code
-- changes it between calls, when it routes the request.
pub mod Equations
pub mod States
pub mod Limits
pub mod Body
pub mod KeepAlive
mod Tests
use server_x.Common.{
  ℕ, ◌+◌, ◌-◌, ◌%◌, ◌≤◌, min, Bool, true, false, not, ◌&&◌, ◌||◌, Option, none, some, [], ◌∷◌, ◌++◌,
  ◌≡◌, ltb, ◌==◌, if◌then◌else◌, length, take, drop, Bytes, is_empty, find_byte,
}
use server_x.Http.Status.{HttpStatus, ok, bad_request, payload_too_large, internal_server_error}
use server_x.Http.Headers
use server_x.Http.Headers.{get_content_length, is_content_chunked, find_header_end}
use server_x.Http.Request.{
  Request, RequestStartLine, Method, unknown, parse_start_line, TempFile, new_temp_file, clear,
  get_max_allowed_content_size,
}
use server_x.Http.Chunked
use server_x.Http.Chunked.{
  size_mod, ChunkedBodyParser, chunk_done, chunk_error, chunk_continue, Outcome, set_max_body_size,
}

-- What the operating system answers to the calls that one operation of the parser makes: `mkstemp`
-- (with a descriptor above 0), `write` (`none` for -1, and never more than it was given) and
-- `lseek`.
pub record Os : Type 0 where
  pub opens : Bool
  pub written : Bytes → Option ℕ
  pub seeks : Bool
  pub written_le : (text : Bytes) (n : ℕ) → written text ≡ some n → n ≤ length text

pub data State : Type 0 where
  reading_headers headers_ready reading_body request_ready error : State

pub record RequestParser : Type 0 where
  pub state : State
  pub error_status : HttpStatus
  pub buffer : Bytes
  pub max_header_size : ℕ
  pub max_content_size : ℕ
  pub content_length : ℕ
  pub bytes_written : ℕ
  pub is_chunked : Bool
  pub request : Request
  pub chunk_parser : ChunkedBodyParser

-- `reset()` keeps the buffer, and the chunk parser as it is.
unfoldable pub reset : RequestParser → RequestParser
reset p = record p {
  state = reading_headers;
  error_status = ok;
  content_length = 0;
  bytes_written = 0;
  max_content_size = 0;
  is_chunked = false;
  request = clear p.request;
}

-- The constructor.
unfoldable pub new_parser : Request → ℕ → RequestParser
unfolding reset
new_parser req max_header_size = reset (record {
  state = reading_headers;
  error_status = ok;
  buffer = [];
  max_header_size = max_header_size;
  max_content_size = 0;
  content_length = 0;
  bytes_written = 0;
  is_chunked = false;
  request = req;
  chunk_parser = Chunked.initial;
})

unfoldable pub set_error : HttpStatus → RequestParser → RequestParser
unfolding reset
set_error status p = record (reset p) { error_status = status; state = error }

-- Of an open body the file is rewound.
rewind : Os → Option TempFile → RequestParser → RequestParser
unfolding set_error
rewind os none p = p
rewind os (some f) p = if f.is_open && not os.seeks then set_error internal_server_error p else p

unfoldable pub set_request_ready : Os → RequestParser → RequestParser
unfolding rewind
set_request_ready os p = rewind os p.request.body (record p { state = request_ready })

-- Behind a write of `text` to the body's file.
abbrev pub append_body : Bytes → Request → Request
append_body text r = record r {
  body = elim r.body [ none ↦ none | some f ↦ some (record f { content = f.content ++ text }) ];
}

content_written : Os → RequestParser → Bytes → Option ℕ → RequestParser
unfolding set_request_ready set_error
content_written os p text none = set_error internal_server_error p
content_written os p text (some written) =
    let q : RequestParser = record p {
      buffer = drop written p.buffer;
      bytes_written = p.bytes_written + written;
      request = append_body (take written text) p.request;
    } in
    if p.bytes_written + written == p.content_length then set_request_ready os q else q

unfoldable pub handle_content_length_body : Os → RequestParser → RequestParser
unfolding content_written
handle_content_length_body os p =
    let n : ℕ = min (length p.buffer) (p.content_length - p.bytes_written) in
    if p.bytes_written == p.content_length
    then set_request_ready os p
    else if n == 0
    then p
    else content_written os p (take n p.buffer) (os.written (take n p.buffer))

data_written : RequestParser → Bytes → Option ℕ → Bool × RequestParser
unfolding set_error
data_written p text none = (false, set_error internal_server_error p)
data_written p text (some written) = (
  true,
  record p {
    bytes_written = p.bytes_written + written;
    request = append_body (take written text) p.request;
  },
)

unfoldable pub write_to_body_file : Os → Bytes → RequestParser → Bool × RequestParser
unfolding data_written
write_to_body_file os text p = elim p.request.body [
  | none ↦ (false, p)
  | some _ ↦ data_written p text (os.written text)
]

-- The part of `handleChunkedBody` behind the write.
pub chunk_status : Os → Chunked.Status → RequestParser → RequestParser
unfolding set_error set_request_ready
chunk_status os chunk_error p = set_error p.chunk_parser.error_status p
chunk_status os chunk_done p = set_request_ready os p
chunk_status os chunk_continue p = p

pub chunk_decoded : Os → Outcome → RequestParser → RequestParser
unfolding write_to_body_file chunk_status
chunk_decoded os r p =
    let w : Bool × RequestParser = write_to_body_file os r.output p in
    if is_empty r.output
    then chunk_status os r.status p
    else if w.0
    then chunk_status os r.status w.1
    else w.1

unfoldable pub handle_chunked_body : Os → RequestParser → RequestParser
unfolding chunk_decoded
handle_chunked_body os p =
    let r : Outcome = Chunked.parse p.chunk_parser p.buffer [] in
    chunk_decoded os r (record p { buffer = drop r.consumed p.buffer; chunk_parser = r.parser })

-- With the body's file open.
pub read_body : Os → RequestParser → RequestParser
unfolding handle_chunked_body handle_content_length_body
read_body os p = if p.is_chunked then handle_chunked_body os p else handle_content_length_body os p

pub open_body : Os → TempFile → RequestParser → RequestParser
unfolding set_error read_body
open_body os f p =
    if f.is_open
    then read_body os (record p { request = record p.request { body = some f } })
    else if os.opens
    then read_body os (record p {
      request = record p.request { body = some (record { is_open = true; content = [] }) };
    })
    else set_error internal_server_error p

unfoldable pub parse_body : Os → RequestParser → RequestParser
unfolding open_body
parse_body os p = open_body os (elim p.request.body [ none ↦ new_temp_file | some f ↦ f ]) p

unfoldable pub proceed_reading_body : Os → RequestParser → RequestParser
unfolding parse_body set_request_ready set_error
proceed_reading_body os p =
    let limit : ℕ = get_max_allowed_content_size p.request in
    elim p.state [
      | headers_ready ↦
          if p.is_chunked
          then parse_body os (record p {
            state = reading_body;
            chunk_parser = set_max_body_size limit p.chunk_parser;
          })
          else if ltb 0 p.content_length
          then (if ltb limit p.content_length
              then set_error payload_too_large (record p { state = reading_body })
              else parse_body os (record p { state = reading_body }))
          else set_request_ready os (record p { state = reading_body })
      | _ ↦ p
    ]

-- `find_first_not_of("\r\n")` and the erasure.
pub strip_crlf : Bytes → Bytes
strip_crlf [] = []
strip_crlf (c ∷ cs) = if c == b'\r' || c == b'\n' then strip_crlf cs else c ∷ cs

-- The fields are in; the body's headers decide.
fields_parsed : Os → ℕ → Bool × Headers.Headers → RequestParser → RequestParser
unfolding set_error set_request_ready
fields_parsed os end (false, h) p = set_error bad_request p
fields_parsed os end (true, h) p =
    let q : RequestParser = record p {
      request = record p.request { headers = h };
      content_length = get_content_length h;
      is_chunked = is_content_chunked h;
      buffer = drop end p.buffer;
    } in
    if ltb 0 (get_content_length h) || is_content_chunked h then q else set_request_ready os q

-- The header section lies behind the first newline. Its length is computed in `size_t`, and
-- `substr` cuts it at the end of the buffer.
pub parse_section : Os → ℕ → ℕ → Option ℕ → RequestParser → RequestParser
unfolding fields_parsed
parse_section os header_end offset none p = set_error bad_request p
parse_section os header_end offset (some newline) p =
    let start = newline + 1 in
    let count = (header_end + size_mod - start + (offset - 2)) % size_mod in
    fields_parsed os (header_end + offset)
      (Headers.parse (take count (drop start p.buffer)) p.request.headers false) p

pub is_unknown : Method → Bool
is_unknown unknown = true
is_unknown _ = false

-- A whole header section is in the buffer.
pub parse_head : Os → ℕ → ℕ → RequestParser → RequestParser
unfolding set_error parse_section find_byte is_unknown
parse_head os header_end offset p =
    let line : RequestStartLine = parse_start_line p.buffer in
    let q : RequestParser = record p {
      state = headers_ready;
      request = record p.request { start_line = line };
    } in
    if is_unknown line.method
    then set_error bad_request q
    else parse_section os header_end offset (find_byte b'\n' p.buffer) q

pub look_for_end : Os → Option (ℕ × ℕ) → RequestParser → RequestParser
unfolding parse_head
look_for_end os none p = p
look_for_end os (some (header_end, offset)) p = parse_head os header_end offset p

unfoldable pub parse_headers : Os → RequestParser → RequestParser
unfolding strip_crlf look_for_end set_error
parse_headers os p =
    let stripped = strip_crlf p.buffer in
    if is_empty stripped && not (is_empty p.buffer)
    then (if ltb 1024 (length p.buffer) then record p { buffer = [] } else p)
    else if ltb p.max_header_size (length stripped)
    then set_error bad_request (record p { buffer = stripped })
    else look_for_end os (find_header_end stripped) (record p { buffer = stripped })

abbrev pub is_reading_headers : State → Bool
is_reading_headers reading_headers = true
is_reading_headers _ = false

abbrev pub is_reading_body : State → Bool
is_reading_body reading_body = true
is_reading_body _ = false

abbrev pub take_in : Bytes → RequestParser → RequestParser
take_in chunk p = record p { buffer = p.buffer ++ chunk }

-- `feed`; what it returns is the state that the parser is left in.
unfoldable pub feed : Os → Bytes → RequestParser → RequestParser
unfolding parse_headers parse_body
feed os chunk p =
    let q : RequestParser =
      if is_reading_headers p.state then parse_headers os (take_in chunk p) else p in
    if is_reading_body q.state then parse_body os (take_in chunk q) else q

abbrev pub has_leftover_data : RequestParser → Bool
has_leftover_data p = not (is_empty p.buffer)
