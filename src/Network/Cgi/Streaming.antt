-- ===== src/Network/Cgi/Streaming.antt =====
-- What the client's buffer receives of a CGI process, and how long the header section gets.
use server_x.Common.{
  ℕ, zero, suc, ◌+◌, ◌-◌, ◌%◌, ◌^◌, ◌≤◌, ◌<◌, ◌≡◌, refl, not, false, Option, none, some, [], ◌∷◌,
  ◌++◌, arith, ltb, if◌then◌else◌, if-holds, length, length-append, Bytes, length_error, Result,
  returns, throws, ◌>>=◌,
}
use server_x.Http.Headers
use server_x.Http.Headers.{find_header_end}
use server_x.Network.Connection.{Client, Answers, Setting}
use server_x.Http.Status.{bad_gateway}
use server_x.Network.Serving.{handle_client_error}
use server_x.Network.Client.{is_send_buffer_full, on_cgi_complete}
use server_x.Network.Cgi.{
  CgiHandler, CgiState, reading_headers, streaming_body, max_cgi_header_size, forward_headers,
  at_header_end, append_headers, append_failed, read_headers, complete, stream_body, read_output,
}

abbrev pub Limited : CgiHandler → Type 0
Limited h = length h.header_buffer ≤ max_cgi_header_size

-- Nothing, or -1.
pub data AtEnd : Option Bytes → Type 0 where
  failed : AtEnd none
  closed : AtEnd (some [])

-- What a read leads to: the header section stays within its limit, the request is completed, or the
-- exception of an `append` of too many bytes leaves the function.
pub data Handled (set : Setting) (a : Answers) (received : Option Bytes) (h : CgiHandler)
    (c : Client) : Result (CgiHandler × Client) → Type 0 where
  handled : (g : CgiHandler) (d : Client) → Limited g → Handled set a received h c (returns (g, d))
  completed :
      h.state ≡ streaming_body
      → AtEnd received
      → Handled set a received h c (on_cgi_complete set a c >>= λ d. returns (h, d))
  append_throws :
      h.state ≡ reading_headers
      → received ≡ none
      → 0 < length h.header_buffer
      → Handled set a received h c (throws length_error)

-- The sum wraps around, unless nothing has been read.
wraps_pos : (n : ℕ) → ltb max_cgi_header_size ((n + (2 ^ 64 - 1)) % 2 ^ 64) ≡ false → 0 < n
wraps_pos zero e = absurd cc
wraps_pos (suc n) e = omega arith

module _ (set : Setting) where
  forward_headers-Limited :
      (n : ℕ) (h : CgiHandler) (c : Client) → Limited h → Limited (forward_headers set n h c).0
  unfolding forward_headers
  forward_headers-Limited n h c l =
      if-holds (λ (p : CgiHandler × Client). Limited p.0)
        (not (Headers.parse h.header_buffer [] false).0) (λ _. l) (λ _. l)

  at_header_end-Limited :
      (o : Option (ℕ × ℕ)) (h : CgiHandler) (c : Client)
      → Limited h
      → Limited (at_header_end set o h c).0
  unfolding at_header_end
  at_header_end-Limited none h c l = l
  at_header_end-Limited (some (end, offset)) h c l = forward_headers-Limited (end + offset) h c l

  append_headers-Limited :
      (bytes : Bytes) (h : CgiHandler) (c : Client)
      → Limited h
      → Limited (append_headers set bytes h c).0
  unfolding append_headers
  append_headers-Limited bytes h c l =
      if-holds (λ (p : CgiHandler × Client). Limited p.0)
        (ltb max_cgi_header_size (length h.header_buffer + length bytes)) (λ _. l)
        (λ e.
          at_header_end-Limited (find_header_end (h.header_buffer ++ bytes))
            (record h { header_buffer = h.header_buffer ++ bytes }) c
            (ground (arith, length-append h.header_buffer bytes)))

  module _ (a : Answers) (h : CgiHandler) (c : Client) (l : Limited h) where
    append_headers-Handled :
        (received : Option Bytes) (bytes : Bytes) (d : Client)
        → Handled set a received h c (returns (append_headers set bytes h d))
    append_headers-Handled received bytes d =
        handled (append_headers set bytes h d).0 (append_headers set bytes h d).1
          (append_headers-Limited bytes h d l)

    read_headers-Handled :
        (received : Option Bytes)
        → h.state ≡ reading_headers
        → Handled set a received h c (read_headers set received h c)
    unfolding read_headers append_failed
    read_headers-Handled none s =
        if-holds (λ (m : Result (CgiHandler × Client)). Handled set a none h c m)
          (ltb max_cgi_header_size ((length h.header_buffer + (2 ^ 64 - 1)) % 2 ^ 64))
          (λ _. handled h _ l) (λ e. append_throws s refl (wraps_pos (length h.header_buffer) e))
    read_headers-Handled (some []) s =
        append_headers-Handled (some []) [] (handle_client_error set bad_gateway c)
    read_headers-Handled (some (b ∷ bs)) s = append_headers-Handled (some (b ∷ bs)) (b ∷ bs) c

    stream_body-Handled :
        (received : Option Bytes)
        → h.state ≡ streaming_body
        → Handled set a received h c (stream_body set a received h c)
    unfolding stream_body complete
    stream_body-Handled none s = completed s failed
    stream_body-Handled (some []) s = completed s closed
    stream_body-Handled (some (b ∷ bs)) s = handled h _ l

    -- A read from the CGI process keeps the header section within 8192 bytes, if it was, or completes
    -- the request when the streamed output is at its end. The one exception that leaves it, but for those
    -- of the completed request, is that of an `append` of SIZE_MAX bytes, when `read` fails behind a
    -- part of a header section.
    pub read_output-Handled :
        (received : Option Bytes) → Handled set a received h c (read_output set a received h c)
    unfolding read_output
    read_output-Handled received = by_state h.state refl
      where
        by_state :
            (s : CgiState)
            → h.state ≡ s
            → Handled set a received h c (elim s [
              | reading_headers ↦ read_headers set received h c
              | streaming_body ↦
                  if is_send_buffer_full set c
                  then returns (h, record c { cgi_reads = false })
                  else stream_body set a received h c
            ])
        by_state reading_headers e = read_headers-Handled received e
        by_state streaming_body e =
            if-holds (λ (m : Result (CgiHandler × Client)). Handled set a received h c m)
              (is_send_buffer_full set c) (λ _. handled h _ l) (λ _. stream_body-Handled received e)
