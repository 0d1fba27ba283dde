-- ===== src/Http/Chunked/Decode.antt =====
-- A chunked message as RFC 7230 writes it, and its decoding by `parse`.
use server_x.Common.{
  ℕ, ◌+◌, ◌≤◌, ◌<◌, ◌%◌, false, some, List, [], ◌∷◌, ◌++◌, ◌≡◌, ◌⊎◌, length, Bytes,
}
use server_x.Http.Chunked.{
  size_mod, ChunkedBodyParser, reading_size, done, chunk_done, parse_hex, Outcome,
}

-- A chunk of the message: the text of its size line, and its bytes.
pub record Chunk : Type 0 where
  pub size_line : Bytes
  pub body : Bytes

-- The size line is a hexadecimal number in any spelling, and says how many bytes follow.
pub record IsChunk (c : Chunk) : Type 0 where
  pub sized : parse_hex c.size_line ≡ some (length c.body)
  pub nonempty : 0 < length c.body

abbrev pub AllChunks : List Chunk → Type 0
AllChunks [] = Unit
AllChunks (c ∷ cs) = IsChunk c × AllChunks cs

abbrev pub crlf : Bytes → Bytes
crlf rest = b'\r' ∷ b'\n' ∷ rest

-- The message, with `last` for the size line of the last chunk, in front of `rest`.
abbrev pub encode : Bytes → List Chunk → Bytes → Bytes
encode last [] rest = last ++ crlf (crlf rest)
encode last (c ∷ cs) rest = c.size_line ++ crlf (c.body ++ crlf (encode last cs rest))

abbrev pub payload : List Chunk → Bytes
payload [] = []
payload (c ∷ cs) = c.body ++ payload cs

-- How many bytes the message takes.
abbrev pub encoded_length : Bytes → List Chunk → ℕ
encoded_length last [] = length last + 4
encoded_length last (c ∷ cs) = length c.size_line + 2 + (length c.body + 2) + encoded_length last cs

-- The parser stands before a chunk.
pub record IsFresh (p : ChunkedBodyParser) : Type 0 where
  pub at_size : p.state ≡ reading_size
  pub buffer_empty : p.size_buffer ≡ []
  pub no_cr : p.saw_cr ≡ false

-- The limit of the body, where there is one, leaves room for `n` more bytes.
abbrev pub HasRoom : ChunkedBodyParser → ℕ → Type 0
HasRoom p n =
    (p.max_body_size ≡ 0) ⊎ ((p.total_written + n ≤ p.max_body_size) × (p.max_body_size < size_mod))

-- The parser behind a chunk of `n` bytes.
abbrev after_chunk : ChunkedBodyParser → ℕ → ChunkedBodyParser
after_chunk p n = record p {
  size_buffer = [];
  bytes_remaining = 0;
  total_written = (p.total_written + n) % size_mod;
  state = reading_size;
}

-- The parser behind the last chunk and the empty line.
abbrev after_last : ChunkedBodyParser → ChunkedBodyParser
after_last p = record p { size_buffer = []; state = done }

-- What decoding a whole message leaves, whatever follows it in the input.
record Decodes (last : Bytes) (cs : List Chunk) (pos : ℕ) (out : Bytes) (r : Outcome) : Type 0 where
  status : r.status ≡ chunk_done
  output : r.output ≡ out ++ payload cs
  consumed : r.consumed ≡ pos + encoded_length last cs
