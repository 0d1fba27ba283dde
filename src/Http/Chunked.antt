-- ===== src/Http/Chunked.antt =====
-- src/http/internal/ChunkedBodyParser.cpp and inc/http/internal/ChunkedBodyParser.hpp: the
-- incremental decoder of chunked bodies. A handler's `input` is what the pointer and the size
-- passed to it delimit; `output` is the caller's string, to which decoded bytes are appended.
-- `size_t` has 64 bits, and its sums wrap around.
mod Crlf
pub mod Loop
pub mod Decode
pub mod Append
pub mod Limit
pub mod Round
mod Shift
use server_x.Common.{
  ℕ, zero, suc, ◌+◌, ◌-◌, ◌*◌, ◌/◌, ◌%◌, ◌^◌, min, Bool, true, false, not, ◌&&◌, ◌||◌, Option, none,
  some, [], ◌∷◌, ◌++◌, ltb, leb, ◌==◌, if◌then◌else◌, length, take, drop, Bytes, is_empty,
}
use server_x.Http.Status.{HttpStatus, ok, bad_request, payload_too_large}

abbrev pub size_mod : ℕ
size_mod = 2 ^ 64

pub data InternalState : Type 0 where
  reading_size reading_data reading_trailer_crlf reading_final_crlf done : InternalState

pub data Status : Type 0 where
  chunk_continue chunk_done chunk_error : Status

pub record ParseResult : Type 0 where
  pub is_ok : Bool
  pub consumed : ℕ

pub record ChunkedBodyParser : Type 0 where
  pub state : InternalState
  pub size_buffer : Bytes
  pub bytes_remaining : ℕ
  pub total_written : ℕ
  pub max_body_size : ℕ
  pub error_status : HttpStatus
  pub saw_cr : Bool

-- The constructor.
abbrev pub initial : ChunkedBodyParser
initial = record {
  state = reading_size;
  size_buffer = [];
  bytes_remaining = 0;
  total_written = 0;
  max_body_size = 0;
  error_status = ok;
  saw_cr = false;
}

abbrev pub reset : ChunkedBodyParser → ChunkedBodyParser
reset p = record {
  state = reading_size;
  size_buffer = [];
  bytes_remaining = 0;
  total_written = 0;
  max_body_size = 0;
  error_status = ok;
  saw_cr = false;
}

abbrev pub set_max_body_size : ℕ → ChunkedBodyParser → ChunkedBodyParser
set_max_body_size size p = record p { max_body_size = size }

-- `none` for the result -1.
unfoldable pub hex_digit_value : ℕ → Option ℕ
hex_digit_value c =
    if leb b'0' c && leb c b'9'
    then some (c - b'0')
    else if leb b'a' c && leb c b'f'
    then some (10 + (c - b'a'))
    else if leb b'A' c && leb c b'F'
    then some (10 + (c - b'A'))
    else none

-- The test before a digit is taken in, and the taking.
push_digit : ℕ → Option ℕ → Option ℕ
push_digit result none = none
push_digit result (some digit) =
    if ltb ((size_mod - 1 - digit) / 16) result then none else some (result * 16 + digit)

parse_hex_from : ℕ → Bytes → Option ℕ
unfolding push_digit hex_digit_value
parse_hex_from result [] = some result
parse_hex_from result (c ∷ cs) = elim (push_digit result (hex_digit_value c)) [
  | none ↦ none
  | some r ↦ parse_hex_from r cs
]

unfoldable pub parse_hex : Bytes → Option ℕ
unfolding parse_hex_from
parse_hex [] = none
parse_hex (c ∷ cs) = parse_hex_from 0 (c ∷ cs)

-- `none` for the result NPOS.
unfoldable pub find_crlf : Bytes → Option ℕ
find_crlf [] = none
find_crlf (x ∷ []) = none
find_crlf (x ∷ y ∷ xs) =
    if x == b'\r' && y == b'\n'
    then some 0
    else (elim (find_crlf (y ∷ xs)) [ none ↦ none | some i ↦ some (suc i) ])

-- What a handler leaves: its result, the object and the caller's string.
pub record Step : Type 0 where
  pub result : ParseResult
  pub parser : ChunkedBodyParser
  pub output : Bytes

abbrev pub success : ℕ → ChunkedBodyParser → Bytes → Step
success n p out = record {
  result = record { is_ok = true; consumed = n };
  parser = p;
  output = out;
}

abbrev pub set_error : HttpStatus → ChunkedBodyParser → Bytes → Step
set_error status p out = record {
  result = record { is_ok = false; consumed = 0 };
  parser = record p { state = done; error_status = status };
  output = out;
}

-- The part of `readSize` behind `parseHex`.
accept_size : ChunkedBodyParser → Bytes → ℕ → Option ℕ → Step
accept_size p out consumed none = set_error bad_request p out
accept_size p out consumed (some chunk_size) =
    if chunk_size == 0
    then success consumed (record p { state = reading_final_crlf }) out
    else if ltb 0 p.max_body_size && ltb p.max_body_size ((p.total_written + chunk_size) % size_mod)
    then set_error payload_too_large p out
    else success consumed (record p { bytes_remaining = chunk_size; state = reading_data }) out

-- The part of `readSize` behind `findCRLF`; `buffer` is `sizeBuffer_` with the input appended,
-- and `before` its length before that.
read_size_line : ChunkedBodyParser → ℕ → ℕ → Bytes → Bytes → Option ℕ → Step
unfolding accept_size
read_size_line p before size buffer out none = success size (record p { size_buffer = buffer }) out
read_size_line p before size buffer out (some crlf_pos) =
    accept_size (record p { size_buffer = [] }) out
      (if ltb before (crlf_pos + 2) then crlf_pos + 2 - before else 0)
      (parse_hex (take crlf_pos buffer))

unfoldable pub read_size : ChunkedBodyParser → Bytes → Bytes → Step
unfolding read_size_line
read_size p input out =
    read_size_line p (length p.size_buffer) (length input) (p.size_buffer ++ input) out
      (find_crlf (p.size_buffer ++ input))

unfoldable pub read_data : ChunkedBodyParser → Bytes → Bytes → Step
read_data p input out =
    let to_read : ℕ = min (length input) p.bytes_remaining in
    if ltb 0 p.max_body_size && ltb p.max_body_size ((p.total_written + to_read) % size_mod)
    then set_error payload_too_large p out
    else success to_read
        (record p {
          total_written = (p.total_written + to_read) % size_mod;
          bytes_remaining = p.bytes_remaining - to_read;
          state = if p.bytes_remaining - to_read == 0 then reading_trailer_crlf else p.state;
        })
        (out ++ take to_read input)

-- `readTrailerCrlf` and `readFinalCrlf` differ in the state that follows. No handler is called on
-- an empty input, where `input[0]` would be out of bounds.
unfoldable pub read_crlf : InternalState → ChunkedBodyParser → Bytes → Bytes → Step
read_crlf next p [] out = success 0 p out
read_crlf next p (c ∷ []) out =
    if p.saw_cr
    then (if c == b'\n'
        then success 1 (record p { saw_cr = false; state = next }) out
        else set_error bad_request p out)
    else if c == b'\r'
    then success 1 (record p { saw_cr = true }) out
    else set_error bad_request p out
read_crlf next p (c ∷ d ∷ cs) out =
    if p.saw_cr
    then (if c == b'\n'
        then success 1 (record p { saw_cr = false; state = next }) out
        else set_error bad_request p out)
    else if c == b'\r' && d == b'\n'
    then success 2 (record p { state = next }) out
    else set_error bad_request p out

abbrev pub read_trailer_crlf : ChunkedBodyParser → Bytes → Bytes → Step
read_trailer_crlf = read_crlf reading_size

abbrev pub read_final_crlf : ChunkedBodyParser → Bytes → Bytes → Step
read_final_crlf = read_crlf done

-- The table `handlers`; its last entry is NULL, at which the loop breaks.
unfoldable pub handler : InternalState → ChunkedBodyParser → Bytes → Bytes → Step
unfolding read_size read_data read_crlf
handler reading_size = read_size
handler reading_data = read_data
handler reading_trailer_crlf = read_trailer_crlf
handler reading_final_crlf = read_final_crlf
handler done = λ p input out. success 0 p out

-- What `parse` leaves; `consumed` is `bytesConsumed`.
pub record Outcome : Type 0 where
  pub status : Status
  pub parser : ChunkedBodyParser
  pub output : Bytes
  pub consumed : ℕ

abbrev pub is_done : InternalState → Bool
is_done done = true
is_done _ = false

-- Behind the loop.
abbrev pub finish : ChunkedBodyParser → ℕ → Bytes → Outcome
finish p pos out = record {
  status = if is_done p.state then chunk_done else chunk_continue;
  parser = p;
  output = out;
  consumed = pos;
}

-- `return CHUNK_ERROR` leaves the 0 that `bytesConsumed` was set to.
abbrev pub failed : Step → Outcome
failed s = record { status = chunk_error; parser = s.parser; output = s.output; consumed = 0 }

-- The loop of `parse` on the `input` from `pos` on.
unfoldable pub run : ℕ → ChunkedBodyParser → Bytes → ℕ → Bytes → Outcome
run zero p input pos out = finish p pos out
run (suc fuel) p input pos out =
    let s = handler p.state p input out in
    let n = s.result.consumed in
    let rest = run fuel s.parser (drop n input) (pos + n) s.output in
    if is_empty input || is_done p.state
    then finish p pos out
    else if not s.result.is_ok
    then failed s
    else if n == 0
    then finish s.parser pos s.output
    else rest

unfoldable pub parse : ChunkedBodyParser → Bytes → Bytes → Outcome
unfolding run
parse p input out = run (suc (length input)) p input 0 out
