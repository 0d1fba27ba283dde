-- ===== src/Http/RequestParser/KeepAlive.antt =====
-- A second request on one connection: what `reset` leaves of the first.
use server_x.Common.{
  ℕ, Bool, true, false, Option, none, some, [], ◌≡◌, refl, ap, ◌∙◌, arith, if-true, if-holds,
  is_empty, not, ◌&&◌, ltb, length, drop, Bytes, find_byte,
}
use server_x.Http.Chunked.{done, is_done, ChunkedBodyParser, finish, Outcome, set_max_body_size}
use server_x.Http.Chunked.Loop.{parse-done}
use server_x.Http.Status.{HttpStatus, bad_request}
use server_x.Http.Headers
use server_x.Http.Headers.{find_header_end}
use server_x.Http.Request.{TempFile, clear, parse_start_line, get_max_allowed_content_size}
use server_x.Http.RequestParser.{
  Os, reading_headers, headers_ready, reading_body, request_ready, RequestParser, reset, set_error,
  fields_parsed, parse_section, parse_head, look_for_end, parse_headers, proceed_reading_body,
  strip_crlf, take_in, feed, is_unknown, chunk_decoded, handle_chunked_body, set_request_ready,
}
use server_x.Http.RequestParser.Equations.{
  proceed_reading_body-eq, parse_head-eq, parse_headers-eq, handle_chunked_body-eq, parse_body-new,
  with_body,
}
use server_x.Http.RequestParser.States.{feed-headers}

-- The chunk parser is the one it was, and no body has come up.
abbrev Kept : RequestParser → RequestParser → Type 0
Kept p q = (q.chunk_parser ≡ p.chunk_parser) × (p.request.body ≡ none → q.request.body ≡ none)

set_error-Kept : (status : HttpStatus) (p : RequestParser) → Kept p (set_error status p)
unfolding set_error clear
set_error-Kept status p = (refl, λ e. refl)

set_request_ready-Kept : (os : Os) (p : RequestParser) → Kept p (set_request_ready os p)
unfolding set_request_ready clear
set_request_ready-Kept os p = ground arith

fields_parsed-Kept :
    (os : Os) (n : ℕ) (r : Bool × Headers.Headers) (p : RequestParser)
    → Kept p (fields_parsed os n r p)
unfolding fields_parsed clear
fields_parsed-Kept os n (false, h) p = (refl, λ e. refl)
fields_parsed-Kept os n (true, h) p = ground arith

parse_section-Kept :
    (os : Os) (n offset : ℕ) (o : Option ℕ) (p : RequestParser)
    → Kept p (parse_section os n offset o p)
unfolding parse_section
parse_section-Kept os n offset none p = set_error-Kept bad_request p
parse_section-Kept os n offset (some i) p = fields_parsed-Kept os _ _ p

parse_head-Kept : (os : Os) (n offset : ℕ) (p : RequestParser) → Kept p (parse_head os n offset p)
parse_head-Kept os n offset p =
    let line = parse_start_line p.buffer in
    let q : RequestParser = record p {
      state = headers_ready;
      request = record p.request { start_line = line };
    } in
    rw (parse_head-eq os n offset p) (
      if-holds (λ (r : RequestParser). Kept p r) (is_unknown line.method)
        (λ _. set_error-Kept bad_request q)
        (λ _. parse_section-Kept os n offset (find_byte b'\n' p.buffer) q))

look_for_end-Kept :
    (os : Os) (o : Option (ℕ × ℕ)) (p : RequestParser) → Kept p (look_for_end os o p)
unfolding look_for_end
look_for_end-Kept os none p = (refl, λ e. e)
look_for_end-Kept os (some (n, offset)) p = parse_head-Kept os n offset p

parse_headers-Kept : (os : Os) (p : RequestParser) → Kept p (parse_headers os p)
parse_headers-Kept os p =
    let P : RequestParser → Type 0 = λ r. Kept p r in
    let stripped = strip_crlf p.buffer in
    let q : RequestParser = record p { buffer = stripped } in
    rw (parse_headers-eq os p) (
      if-holds P (is_empty stripped && not (is_empty p.buffer))
        (λ _. if-holds P (ltb 1024 (length p.buffer)) (λ _. (refl, λ e. e)) (λ _. (refl, λ e. e)))
        (λ _.
          if-holds P (ltb p.max_header_size (length stripped)) (λ _. set_error-Kept bad_request q)
            (λ _. look_for_end-Kept os (find_header_end stripped) q)))

chunk_decoded-finish :
    (os : Os) (c : ChunkedBodyParser) (p : RequestParser)
    → is_done c.state ≡ true
    → chunk_decoded os (finish c 0 []) p ≡ set_request_ready os p
unfolding chunk_decoded
chunk_decoded-finish os c p d = rw d refl

handle_chunked_body-done :
    (os : Os) (p : RequestParser)
    → is_done p.chunk_parser.state ≡ true
    → handle_chunked_body os p ≡ set_request_ready os p
handle_chunked_body-done os p d =
    handle_chunked_body-eq os p
    ∙ ap
        (λ (r : Outcome).
          chunk_decoded os r
            (record p { buffer = drop r.consumed p.buffer; chunk_parser = r.parser }))
        (parse-done p.chunk_parser p.buffer [] d)
    ∙ chunk_decoded-finish os p.chunk_parser p d

set_request_ready_opened :
    (os : Os) (p : RequestParser)
    → os.seeks ≡ true
    → (body : TempFile) → p.request.body ≡ some body
    → set_request_ready os p ≡ record p { state = request_ready }
unfolding set_request_ready
set_request_ready_opened os p seeks body e = ground arith

-- With a chunk parser that is done when the body should be read.
proceed-done :
    (os : Os) (p : RequestParser)
    → p.state ≡ headers_ready
    → p.is_chunked ≡ true
    → is_done p.chunk_parser.state ≡ true
    → p.request.body ≡ none
    → os.opens ≡ true
    → os.seeks ≡ true
    → proceed_reading_body os p ≡ record (with_body (record { is_open = true; content = [] }) p) {
      state = request_ready;
      chunk_parser = set_max_body_size (get_max_allowed_content_size p.request) p.chunk_parser;
    }
proceed-done os p ready chunked d fresh opens seeks =
    let q : RequestParser = record p {
      state = reading_body;
      chunk_parser = set_max_body_size (get_max_allowed_content_size p.request) p.chunk_parser;
    } in
    let r : RequestParser = with_body (record { is_open = true; content = [] }) q in
    proceed_reading_body-eq os p ready
    ∙ if-true _ _ chunked
    ∙ parse_body-new os q fresh opens
    ∙ if-true _ _ chunked
    ∙ handle_chunked_body-done os r d
    ∙ set_request_ready_opened os r seeks (record { is_open = true; content = [] }) refl

reset-reading : (p : RequestParser) → (reset p).state ≡ reading_headers
unfolding reset
reset-reading p = refl

reset-chunk_parser : (p : RequestParser) → (reset p).chunk_parser ≡ p.chunk_parser
unfolding reset
reset-chunk_parser p = refl

reset-body : (p : RequestParser) → (reset p).request.body ≡ none
unfolding reset clear
reset-body p = refl

-- `reset` keeps a chunk parser that is done, and so does `feed` while it reads the headers of the
-- next request. If these announce a chunked body then, once its file is open and can be rewound,
-- `proceedReadingBody` declares the request ready with an empty body, and leaves all that has
-- arrived of the body in the buffer.
pub proceed_chunk_done :
    (os : Os) (chunk : Bytes) (p : RequestParser)
    → p.chunk_parser.state ≡ done
    → (feed os chunk (reset p)).state ≡ headers_ready
    → (feed os chunk (reset p)).is_chunked ≡ true
    → os.opens ≡ true
    → os.seeks ≡ true
    → let q = feed os chunk (reset p) in
      let r = proceed_reading_body os q in
      (r.state ≡ request_ready)
      × (r.request.body ≡ some (record { is_open = true; content = [] }))
      × (r.buffer ≡ q.buffer)
proceed_chunk_done os chunk p d ready chunked opens seeks =
    let q = feed os chunk (reset p) in
    let kept : Kept (reset p) q =
      rw (feed-headers os chunk (reset p) (reset-reading p))
        (parse_headers-Kept os (take_in chunk (reset p))) in
    let e : is_done q.chunk_parser.state ≡ true = rw (kept.0, reset-chunk_parser p, d) refl in
    rw (proceed-done os q ready chunked e (kept.1 (reset-body p)) opens seeks) (refl, refl, refl)
