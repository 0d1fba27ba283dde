-- ===== src/Network/Cgi.antt =====
-- src/network/handlers/CGIHandler.cpp: the output of a CGI process on its way to the client. What
-- `read` of the pipe answers, at most 8192 bytes, is an argument: `none` for -1. The state COMPLETE
-- is never set.
pub mod Streaming
pub mod Backpressure
use server_x.Common.{
  ℕ, ◌+◌, ◌-◌, ◌%◌, ◌^◌, Bool, false, not, Option, none, some, [], ◌∷◌, ◌++◌, ltb, if◌then◌else◌,
  length, drop, Bytes, length_error, Result, returns, throws, ◌>>=◌,
}
use server_x.Http.Status.{bad_gateway}
use server_x.Http.Headers
use server_x.Http.Headers.{find_header_end}
use server_x.Network.Connection.{Client, Answers, Setting}
use server_x.Network.Serving.{handle_client_error}
use server_x.Network.Client.{
  is_send_buffer_full, push_to_send_buffer, on_cgi_complete, on_cgi_headers_parsed,
}

pub data CgiState : Type 0 where
  reading_headers streaming_body : CgiState

pub record CgiHandler : Type 0 where
  pub header_buffer : Bytes
  pub state : CgiState

abbrev pub max_cgi_header_size : ℕ
max_cgi_header_size = 8192

-- The constructor.
unfoldable pub new_cgi_handler : Bool → CgiHandler
new_cgi_handler has_header_parsing = record {
  header_buffer = [];
  state = if has_header_parsing then reading_headers else streaming_body;
}

module _ (set : Setting) where
  -- Behind a complete header section of n bytes.
  unfoldable pub forward_headers : ℕ → CgiHandler → Client → CgiHandler × Client
  unfolding Headers.parse handle_client_error on_cgi_headers_parsed push_to_send_buffer
  forward_headers n h c =
      let parsed = Headers.parse h.header_buffer [] false in
      let c1 = on_cgi_headers_parsed set parsed.1 c in
      if not parsed.0 then (h, handle_client_error set bad_gateway c) else (
        record h { state = streaming_body },
        if ltb n (length h.header_buffer)
            then push_to_send_buffer set (drop n h.header_buffer) c1
            else c1,
      )

  unfoldable pub at_header_end : Option (ℕ × ℕ) → CgiHandler → Client → CgiHandler × Client
  unfolding forward_headers
  at_header_end none h c = (h, c)
  at_header_end (some (end, offset)) h c = forward_headers (end + offset) h c

  unfoldable pub append_headers : Bytes → CgiHandler → Client → CgiHandler × Client
  unfolding at_header_end find_header_end handle_client_error
  append_headers bytes h c =
      let h1 = record h { header_buffer = h.header_buffer ++ bytes } in
      if ltb max_cgi_header_size (length h.header_buffer + length bytes)
      then (h, handle_client_error set bad_gateway c)
      else at_header_end (find_header_end h1.header_buffer) h1 c

  -- The -1 is added to the length as a `size_t`, and so many bytes cannot be appended.
  unfoldable pub append_failed : CgiHandler → Client → Result (CgiHandler × Client)
  unfolding handle_client_error
  append_failed h c =
      if ltb max_cgi_header_size ((length h.header_buffer + (2 ^ 64 - 1)) % 2 ^ 64)
      then returns (h, handle_client_error set bad_gateway c)
      else throws length_error

  -- Behind the error at the end of the output the code goes on.
  unfoldable pub read_headers : Option Bytes → CgiHandler → Client → Result (CgiHandler × Client)
  unfolding append_headers append_failed handle_client_error
  read_headers none h c = append_failed h (handle_client_error set bad_gateway c)
  read_headers (some []) h c = returns (append_headers [] h (handle_client_error set bad_gateway c))
  read_headers (some (b ∷ bs)) h c = returns (append_headers (b ∷ bs) h c)

  unfoldable pub complete : Answers → CgiHandler → Client → Result (CgiHandler × Client)
  unfolding on_cgi_complete
  complete a h c = on_cgi_complete set a c >>= λ c1. returns (h, c1)

  unfoldable pub stream_body :
      Answers → Option Bytes → CgiHandler → Client → Result (CgiHandler × Client)
  unfolding complete push_to_send_buffer
  stream_body a none h c = complete a h c
  stream_body a (some []) h c = complete a h c
  stream_body a (some (b ∷ bs)) h c = returns (h, push_to_send_buffer set (b ∷ bs) c)

  -- `handleRead`.
  unfoldable pub read_output :
      Answers → Option Bytes → CgiHandler → Client → Result (CgiHandler × Client)
  unfolding read_headers stream_body is_send_buffer_full
  read_output a received h c =
      let streamed = stream_body a received h c in
      elim h.state [
        | reading_headers ↦ read_headers received h c
        | streaming_body ↦
            if is_send_buffer_full set c
            then returns (h, record c { cgi_reads = false })
            else streamed
      ]

  -- `handleEvent`, with whether EPOLLIN is set.
  unfoldable pub on_cgi_event :
      Answers → Bool → Option Bytes → CgiHandler → Client → Result (CgiHandler × Client)
  unfolding read_output complete
  on_cgi_event a can_read received h c =
      let output = read_output a received h c in
      let last = complete a h c in if can_read then output else last
