-- ===== src/Http/RequestParser/States.antt =====
-- The transitions of the parser's state machine.
use server_x.Common.{
  ℕ, Bool, true, false, Option, none, some, [], ◌≡◌, ◌≢◌, ◌⊎◌, inl, inr, refl, arith, Bool-cases,
  if-holds, drop, Bytes,
}
use server_x.Http.Chunked
use server_x.Http.Chunked.{Outcome}
use server_x.Http.Headers
use server_x.Http.Headers.{find_header_end}
use server_x.Http.Request.{TempFile, parse_start_line}
use server_x.Http.RequestParser.{
  Os, State, reading_headers, headers_ready, reading_body, request_ready, error, RequestParser,
  set_error, handle_content_length_body, chunk_decoded, handle_chunked_body, read_body, open_body,
  parse_body, fields_parsed, parse_section, parse_head, look_for_end, parse_headers, feed,
  strip_crlf, is_unknown, take_in, is_reading_headers, is_reading_body,
}
use server_x.Http.RequestParser.Equations.{
  handle_chunked_body-eq, read_body-eq, with_body, open_body-eq, parse_body-eq, feed-eq,
}

-- The states that one call may lead to. `proceedReadingBody` alone starts on a body.
pub data Reads : State → State → Type 0 where
  waits : {s : State} → Reads s s
  headers_end : Reads reading_headers headers_ready
  no_body : Reads reading_headers request_ready
  bad_headers : Reads reading_headers error
  body_ends : Reads reading_body request_ready
  bad_body : Reads reading_body error

pub data Proceeds : State → State → Type 0 where
  stays : {s : State} → s ≢ headers_ready → Proceeds s s
  body_starts : Proceeds headers_ready reading_body
  body_there : Proceeds headers_ready request_ready
  refused : Proceeds headers_ready error

-- How `parseBody` and what it calls may leave the state.
abbrev BodyState : State → Type 0
BodyState s = (s ≡ reading_body) ⊎ ((s ≡ request_ready) ⊎ (s ≡ error))

handle_content_length_body-BodyState :
    (os : Os) (p : RequestParser)
    → p.state ≡ reading_body
    → BodyState (handle_content_length_body os p).state
unfolding handle_content_length_body
handle_content_length_body-BodyState os p e = ground arith

chunk_decoded-BodyState :
    (os : Os) (r : Outcome) (p : RequestParser)
    → p.state ≡ reading_body
    → BodyState (chunk_decoded os r p).state
unfolding chunk_decoded
chunk_decoded-BodyState os r p e = ground arith

handle_chunked_body-BodyState :
    (os : Os) (p : RequestParser)
    → p.state ≡ reading_body
    → BodyState (handle_chunked_body os p).state
handle_chunked_body-BodyState os p e =
    let r = Chunked.parse p.chunk_parser p.buffer [] in
    let q = record p { buffer = drop r.consumed p.buffer; chunk_parser = r.parser } in
    rw (handle_chunked_body-eq os p) (chunk_decoded-BodyState os r q e)

read_body-BodyState :
    (os : Os) (p : RequestParser) → p.state ≡ reading_body → BodyState (read_body os p).state
read_body-BodyState os p e = rw (read_body-eq os p) (
    if-holds (λ (q : RequestParser). BodyState q.state) p.is_chunked
      (λ _. handle_chunked_body-BodyState os p e)
      (λ _. handle_content_length_body-BodyState os p e))

open_body-BodyState :
    (os : Os) (f : TempFile) (p : RequestParser)
    → p.state ≡ reading_body
    → BodyState (open_body os f p).state
unfolding set_error
open_body-BodyState os f p e = rw (open_body-eq os f p) (
    if-holds (λ (q : RequestParser). BodyState q.state) f.is_open
      (λ _. read_body-BodyState os (with_body f p) e)
      (λ _.
        if-holds (λ (q : RequestParser). BodyState q.state) os.opens
          (λ _. read_body-BodyState os (with_body (record { is_open = true; content = [] }) p) e)
          (λ _. inr (inr refl))))

parse_body-BodyState :
    (os : Os) (p : RequestParser) → p.state ≡ reading_body → BodyState (parse_body os p).state
parse_body-BodyState os p e = rw (parse_body-eq os p) (open_body-BodyState os _ p e)

-- How a header section may leave the state.
abbrev HeadState : State → Type 0
HeadState s = (s ≡ headers_ready) ⊎ ((s ≡ request_ready) ⊎ (s ≡ error))

-- How `parseHeaders` may leave the state.
abbrev HeaderState : State → Type 0
HeaderState s = (s ≡ reading_headers) ⊎ HeadState s

fields_parsed-HeadState :
    (os : Os) (n : ℕ) (r : Bool × Headers.Headers) (p : RequestParser)
    → p.state ≡ headers_ready
    → HeadState (fields_parsed os n r p).state
unfolding fields_parsed
fields_parsed-HeadState os n (false, h) p e = ground arith
fields_parsed-HeadState os n (true, h) p e = ground arith

parse_section-HeadState :
    (os : Os) (n offset : ℕ) (o : Option ℕ) (p : RequestParser)
    → p.state ≡ headers_ready
    → HeadState (parse_section os n offset o p).state
unfolding parse_section
parse_section-HeadState os n offset none p e = ground arith
parse_section-HeadState os n offset (some i) p e = fields_parsed-HeadState os _ _ p e

parse_head-HeadState :
    (os : Os) (n offset : ℕ) (p : RequestParser) → HeadState (parse_head os n offset p).state
unfolding parse_head
parse_head-HeadState os n offset p =
    elim (Bool-cases (is_unknown (parse_start_line p.buffer).method)) [
      | inl e ↦ rw e (ground arith)
      | inr e ↦ rw e (parse_section-HeadState os n offset _ _ refl)
    ]

look_for_end-HeaderState :
    (os : Os) (o : Option (ℕ × ℕ)) (p : RequestParser)
    → p.state ≡ reading_headers
    → HeaderState (look_for_end os o p).state
unfolding look_for_end
look_for_end-HeaderState os none p e = ground arith
look_for_end-HeaderState os (some (n, offset)) p e = inr (parse_head-HeadState os n offset p)

parse_headers-HeaderState :
    (os : Os) (p : RequestParser)
    → p.state ≡ reading_headers
    → HeaderState (parse_headers os p).state
unfolding parse_headers
parse_headers-HeaderState os p e = ground (
  arith,
  look_for_end-HeaderState os (find_header_end (strip_crlf p.buffer))
      (record p { buffer = strip_crlf p.buffer }) e,
)

pub parse_body_steps : {s : State} → BodyState s → Reads reading_body s
parse_body_steps (inl e) = rw e waits
parse_body_steps (inr (inl e)) = rw e body_ends
parse_body_steps (inr (inr e)) = rw e bad_body

header_steps : {s : State} → HeaderState s → Reads reading_headers s
header_steps (inl e) = rw e waits
header_steps (inr (inl e)) = rw e headers_end
header_steps (inr (inr (inl e))) = rw e no_body
header_steps (inr (inr (inr e))) = rw e bad_headers

HeaderState-not_body : {s : State} → HeaderState s → is_reading_body s ≡ false
HeaderState-not_body h = ground arith

-- The headers are read: the body is not begun by the same call.
pub feed-headers :
    (os : Os) (chunk : Bytes) (p : RequestParser)
    → p.state ≡ reading_headers
    → feed os chunk p ≡ parse_headers os (take_in chunk p)
feed-headers os chunk p e =
    let t : is_reading_headers p.state ≡ true = rw e refl in
    rw (feed-eq os chunk p)
      (simp (t, HeaderState-not_body (parse_headers-HeaderState os (take_in chunk p) e)))

pub feed-body :
    (os : Os) (chunk : Bytes) (p : RequestParser)
    → p.state ≡ reading_body
    → feed os chunk p ≡ parse_body os (take_in chunk p)
feed-body os chunk p e = rw (feed-eq os chunk p, e)

feed_elsewhere :
    (os : Os) (chunk : Bytes) (p : RequestParser)
    → is_reading_headers p.state ≡ false
    → is_reading_body p.state ≡ false
    → feed os chunk p ≡ p
feed_elsewhere os chunk p e f = rw (feed-eq os chunk p, e, f)

feed-Reads_at :
    (os : Os) (chunk : Bytes) (p : RequestParser) (s : State)
    → p.state ≡ s
    → Reads s (feed os chunk p).state
feed-Reads_at os chunk p reading_headers e =
    rw (feed-headers os chunk p e) (header_steps (parse_headers-HeaderState os (take_in chunk p) e))
feed-Reads_at os chunk p reading_body e =
    rw (feed-body os chunk p e) (parse_body_steps (parse_body-BodyState os (take_in chunk p) e))
feed-Reads_at os chunk p headers_ready e =
    rw (feed_elsewhere os chunk p (rw e refl) (rw e refl), e) waits
feed-Reads_at os chunk p request_ready e =
    rw (feed_elsewhere os chunk p (rw e refl) (rw e refl), e) waits
feed-Reads_at os chunk p error e = rw (feed_elsewhere os chunk p (rw e refl) (rw e refl), e) waits

-- `feed` makes only the transitions of `Reads`: it leaves `READING_HEADERS` for
-- `HEADERS_READY`, `REQUEST_READY` or `ERROR` and `READING_BODY` for the last two; it never
-- goes back, never starts on a body, and never leaves the other three states.
pub feed-Reads :
    (os : Os) (chunk : Bytes) (p : RequestParser) → Reads p.state (feed os chunk p).state
feed-Reads os chunk p = feed-Reads_at os chunk p p.state refl

HeadState-over : {s : State} → HeadState s → s ≢ reading_headers
HeadState-over h e = ground arith

-- A header section that is there is not waited for.
pub look_for_end-unfinished :
    (os : Os) (o : Option (ℕ × ℕ)) (p : RequestParser)
    → (look_for_end os o p).state ≡ reading_headers
    → look_for_end os o p ≡ p
unfolding look_for_end
look_for_end-unfinished os none p e = refl
look_for_end-unfinished os (some (n, offset)) p e =
    absurd (HeadState-over (parse_head-HeadState os n offset p) e)
