-- ===== src/Network/Tests.antt =====
-- The network components at concrete inputs.
use server_x.Common.{
  ℕ, zero, suc, min, if◌then◌else◌, inr, Bool, true, false, Option, none, some, List, [], ◌∷◌, ◌++◌,
  ◌+◌, ◌≤◌, All, arith, length, Bytes, codes, runtime_error, throws,
}
use server_x.Http.Response.{new_response, to_body, in_memory}
use server_x.Http.MimeTypes.{no_types}
use server_x.Http.Upload.{granted}
use server_x.Http.Files.{stat_failed, enoent}
use server_x.Http.Dispatch.{Context}
use server_x.Network.Events.{Mask, Dispatcher, Op, removes, disables_read, enables_write, member}
use server_x.Network.SendBuffer.{Bounded}
use server_x.Network.Connection.{Client, Answers, Setting, new_client, body_of}
use server_x.Network.Client.{handle_static_response_write}
use server_x.Network.Cgi.{reading_headers, streaming_body, read_output}
use server_x.Network.Cgi.Streaming.{Handled, read_output-Handled}
use server_x.Network.Cgi.Backpressure.{
  Streamed, accepted, full_at, reads_output, reads_output-Streamed,
}
use server_x.Network.Client.Writing.{
  memory, Progress, to_send, wire, handle_static_response_write-Progress,
}
use server_x.Network.Client.Finishing.{
  Willing, takes, Able, Served, handle_static_response_write-Served,
}

-- The descriptor of a handler is its number.
abbrev same_fd : ℕ → Option ℕ
same_fd h = some h

abbrev readable : Mask
readable = record { reads = true; writes = false }

abbrev writable : Mask
writable = record { reads = false; writes = true }

-- A connection that turns from reading to writing when it has been read from, and leaves when it has
-- been written to, together with its CGI handler, the next number, if that is active.
abbrev serves : ℕ → Mask → Dispatcher → List Op × Bool
serves h m d =
    if m.reads
    then (disables_read h ∷ enables_write h ∷ [], false)
    else if member (suc h) d.active
    then (removes (suc h) ∷ removes h ∷ [], false)
    else (removes h ∷ [], false)

-- A socket that takes two bytes of what it is given.
abbrev two_bytes : Bytes → Option ℕ
two_bytes s = some (min 2 (length s))

two_bytes-Bounded : Bounded two_bytes
two_bytes-Bounded s n e = ground arith

abbrev answers : Answers
answers = record {
  received = none;
  first_send = two_bytes;
  second_send = two_bytes;
  file_read = λ n. none;
  now = 0;
  cgi_starts = false;
  capacity = 8192;
}

abbrev context : Context
context = record {
  fs = record {
    stat = λ p. stat_failed enoent;
    exists = λ p. false;
    readable = λ p. false;
    writable = λ p. false;
    searchable = λ p. false;
    file_size = λ p. none;
    entries = λ p. none;
    unlink = λ p. none;
    rmdir = λ p. none;
  };
  uploads = record {
    is_dir = λ p. false;
    access = λ p. granted;
    exists = λ p. false;
    move = λ p. record {
      renamed = false;
      src_open = false;
      dest_open = false;
      write_good = λ i. false;
      src_eof = false;
      dest_good = false;
    };
    message = λ s. [];
  };
  mime = no_types;
  format_time = λ t. [];
  cgi = λ req res. throws runtime_error;
  what = λ e. [];
}

abbrev setting : Setting
setting = record {
  port = 80;
  client_addr = [];
  config = [];
  ctx = context;
  os = record {
    opens = false;
    written = λ text. none;
    seeks = false;
    written_le = λ text n e. absurd cc;
  };
}

-- A client whose buffer holds four bytes of headers, one of them sent, and a body of five.
abbrev writing : Client
writing = record (new_client (record { json = []; html = [] })) {
  rsp_buffer = record { buffer = codes "HTTP"; sent = 1 };
  response = record new_response { body = to_body (in_memory (codes "hello") 0) };
}

handle_static_response_write-Progress_example :
    Progress setting answers
      (to_send writing)
      (wire answers writing)
      (handle_static_response_write setting answers writing)
unfolding body_of
handle_static_response_write-Progress_example =
    handle_static_response_write-Progress setting answers two_bytes-Bounded two_bytes-Bounded
      (omega arith) writing (inr (omega arith)) (memory (codes "hello") 0 (omega arith))

two_bytes-Willing : Willing two_bytes
two_bytes-Willing s h = takes _ (omega (arith, h))

answers-Able : Able answers
answers-Able = record {
  first_bounded = two_bytes-Bounded;
  second_bounded = two_bytes-Bounded;
  first_willing = two_bytes-Willing;
  roomy = omega arith;
}

abbrev events : ℕ → List Answers
events zero = []
events (suc n) = answers ∷ events n

events-Able : (n : ℕ) → All Able (events n)
events-Able zero = tt
events-Able (suc n) = (answers-Able, events-Able n)

-- The last byte of the headers is unsent, and a body of two bytes.
abbrev nearly_written : Client
nearly_written = record (new_client (record { json = []; html = [] })) {
  rsp_buffer = record { buffer = codes "OK"; sent = 1 };
  response = record new_response { body = to_body (in_memory (codes "hi") 0) };
}

handle_static_response_write-Served_example :
    Served setting (events 8) nearly_written (to_send nearly_written)
unfolding body_of to_send
handle_static_response_write-Served_example =
    handle_static_response_write-Served setting (events 8) nearly_written (events-Able 8)
      (inr (omega arith)) (memory (codes "hi") 0 (omega arith)) (omega arith)

-- A part of a header section, and a read that brings its end.
read_output-Handled_example :
    Handled setting answers
      (some (codes "a: b\n\nc"))
      (record { header_buffer = codes "S: 1\n"; state = reading_headers })
      writing
      (read_output setting answers
        (some (codes "a: b\n\nc"))
        (record { header_buffer = codes "S: 1\n"; state = reading_headers })
        writing)
read_output-Handled_example =
    read_output-Handled setting answers
      (record { header_buffer = codes "S: 1\n"; state = reading_headers }) writing (omega arith)
      (some (codes "a: b\n\nc"))

reads_output-Streamed_example :
    Streamed setting
      (record { header_buffer = []; state = streaming_body })
      (codes "HTTP" ++ accepted 4 (codes "ab" ∷ codes "c" ∷ []))
      (reads_output setting answers
        (codes "ab" ∷ codes "c" ∷ [])
        (record { header_buffer = []; state = streaming_body })
        writing)
    × (length (codes "HTTP" ++ accepted 4 (codes "ab" ∷ codes "c" ∷ [])) ≤ full_at + 8192)
reads_output-Streamed_example =
    reads_output-Streamed setting answers (codes "ab" ∷ codes "c" ∷ []) [] writing
      ((omega arith, omega arith), ((omega arith, omega arith), tt)) (omega arith)
