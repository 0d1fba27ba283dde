-- ===== src/Network/Client/Writing.antt =====
-- What reaches the socket of an answer that is held in memory.
use server_x.Common.{
  ℕ, ◌+◌, ◌-◌, ◌≤◌, ◌<◌, min, ◌≡◌, refl, sym, ap, ◌∙◌, ◌⊎◌, inl, inr, true, false, Option, none,
  some, [], ◌∷◌, ◌++◌, append_assoc, arith, ◌==◌, if◌then◌else◌, ==_iff, if-holds, if-holds_both,
  length, take, drop, length-append, length-take, length-drop, take-append-drop, drop_all, Bytes,
  Result, returns,
}
use mathlib.Core.Path.{subst}
use server_x.Http.Response
use server_x.Http.Response.{Response, Body, BodyPointer, to_body, in_memory, is_done}
use server_x.Network.SendBuffer.{
  SendBuffer, SendStatus, send_done, send_again, empty_buffer, send, unsent, taken, is_fully_sent,
  after_send, count_sent, Bounded, InBuffer, drop-drop, send-conserves,
}
use server_x.Network.Connection.{Client, Answers, Setting, body_of}
use server_x.Network.Serving.{finalize_connection}
use server_x.Network.Client.{sent_body, next_of_body, written, handle_static_response_write}

-- A buffer that is not partly sent, or not wholly: what every call of `send` leaves.
abbrev pub Ready : SendBuffer → Type 0
Ready b = (b.sent ≡ 0) ⊎ (b.sent < length b.buffer)

Ready-InBuffer : (b : SendBuffer) → Ready b → InBuffer b
Ready-InBuffer b r = ground arith

-- Behind `send`: all is sent, and the buffer is empty, or something of it is left.
abbrev pub Left : SendStatus × SendBuffer → Type 0
Left (send_done, b) = b ≡ empty_buffer
Left (send_again, b) = b.sent < length b.buffer

count_sent-Left :
    (n : ℕ) (b : SendBuffer) → InBuffer b → n ≤ length (unsent b) → Left (count_sent n b)
unfolding count_sent unsent
count_sent-Left n b i le =
    if-holds Left (b.sent + n == length b.buffer) (λ _. refl)
      λ e. ground (arith, length-drop b.sent b.buffer)

after_send-Left :
    (o : Option ℕ) (b : SendBuffer)
    → b.sent < length b.buffer
    → ((n : ℕ) → o ≡ some n → n ≤ length (unsent b))
    → Left (after_send o b)
unfolding after_send
after_send-Left none b r h = r
after_send-Left (some n) b r h = count_sent-Left n b (omega arith) (h n refl)

nothing_left : (b : SendBuffer) → Ready b → is_fully_sent b ≡ true → b ≡ empty_buffer
unfolding is_fully_sent
nothing_left b r e = ground arith

something_left : (b : SendBuffer) → Ready b → is_fully_sent b ≡ false → b.sent < length b.buffer
unfolding is_fully_sent
something_left b r e = ground arith

pub send-Left :
    (socket : Bytes → Option ℕ) (b : SendBuffer) → Bounded socket → Ready b → Left (send socket b)
unfolding send
send-Left socket b h r =
    if-holds Left (is_fully_sent b) (λ e. nothing_left b r e)
      λ e. after_send-Left (socket (unsent b)) b (something_left b r e) (h (unsent b))

Left-Ready : (p : SendStatus × SendBuffer) → Left p → Ready p.1
Left-Ready (send_done, b) h = inl (ap (λ (x : SendBuffer). x.sent) h)
Left-Ready (send_again, b) h = inr h

-- No body, or one in memory that has been read up to some byte.
pub data Held : Option Body → Type 0 where
  no_body : Held none
  memory : (d : Bytes) (r : ℕ) → r ≤ length d → Held (some (in_memory d r))

unfoldable pub unread : Option Body → Bytes
unread (some (in_memory d r)) = drop r d
unread _ = []

-- What is still to be sent: the rest of the buffer, and of the body.
unfoldable pub to_send : Client → Bytes
unfolding unsent unread body_of
to_send c = unsent c.rsp_buffer ++ unread (body_of c.response)

module _ (a : Answers) where
  -- What the socket takes in the second call, of the bytes that have been read.
  read_wire : Option Bytes → SendBuffer → Bytes
  unfolding taken
  read_wire none b = []
  read_wire (some []) b = []
  read_wire (some (x ∷ xs)) b = taken a.second_send (record b { buffer = x ∷ xs })

  body_wire : Option Body → SendBuffer → Bytes
  unfolding read_wire is_done Response.read
  body_wire none b = []
  body_wire (some o) b =
      let more = read_wire (Response.read (a.file_read a.capacity) a.capacity o).0 b in
      if is_done o then [] else more

  after_wire : SendStatus × SendBuffer → Option Body → Bytes
  unfolding body_wire
  after_wire (send_again, b) o = []
  after_wire (send_done, b) o = body_wire o b

  -- What the socket takes in the call of `handleStaticResponseWrite`.
  unfoldable pub wire : Client → Bytes
  unfolding after_wire taken send body_of
  wire c =
      taken a.first_send c.rsp_buffer
      ++ after_wire (send a.first_send c.rsp_buffer) (body_of c.response)

-- The answer is sent and the connection finalized, or the client waits for the next call: some
-- bytes have been taken, or some are in the buffer.
pub data Progress (set : Setting) (a : Answers) (whole : Bytes)
    : Bytes → Result Client → Type 0 where
  finished :
      (c : Client) (out : Bytes)
      → out ≡ whole
      → Progress set a whole out (finalize_connection set a c)
  goes_on :
      (c : Client) (out : Bytes)
      → out ++ to_send c ≡ whole
      → Ready c.rsp_buffer
      → Held (body_of c.response)
      → 0 < length out + length (unsent c.rsp_buffer)
      → Progress set a whole out (returns c)

-- Behind bytes that have been taken before.
behind :
    {set : Setting} {a : Answers} {rest whole out : Bytes} {m : Result Client} (t : Bytes)
    → Progress set a rest out m
    → t ++ rest ≡ whole
    → Progress set a whole (t ++ out) m
behind t (finished c out q) e = finished c (t ++ out) (ap (λ u. t ++ u) q ∙ e)
behind t (goes_on c out q r h p) e =
    goes_on c (t ++ out) (append_assoc t out (to_send c) ∙ ap (λ u. t ++ u) q ∙ e) r h
      (omega (arith, p, length-append t out))

module _ (set : Setting) (a : Answers) (first_bounded : Bounded a.first_send)
    (second_bounded : Bounded a.second_send) (roomy : 0 < a.capacity) where
  sent_body-Progress :
      (d : Bytes) (r k : ℕ) (l : Bytes) (c : Client)
      → c.rsp_buffer.sent ≡ 0
      → r + k ≤ length d
      → 0 < length l
      → l ++ drop (r + k) d ≡ drop r d
      → Progress set a
          (drop r d)
          (read_wire a (some l) c.rsp_buffer)
          (sent_body set a (some l, in_memory d (r + k)) c)
  unfolding read_wire sent_body to_send unread body_of unsent
  sent_body-Progress d r k [] c e i l q = absurd (omega arith)
  sent_body-Progress d r k (x ∷ xs) c e i l q =
      let full : SendBuffer = record c.rsp_buffer { buffer = x ∷ xs } in
      let kept = send-conserves a.second_send full second_bounded (omega (arith, e)) in
      let left = (send a.second_send full).1 in
      goes_on _ _
        (sym (append_assoc (taken a.second_send full) (unsent left) (drop (r + k) d))
          ∙ ap (λ t. t ++ drop (r + k) d) (kept.0 ∙ ap (λ n. drop n (x ∷ xs)) e)
          ∙ q)
        (Left-Ready (send a.second_send full) (send-Left a.second_send full second_bounded (inl e)))
        (memory d (r + k) i)
        (omega (
          arith,
          ap length kept.0,
          ap (λ n. length (drop n (x ∷ xs))) e,
          length-append (taken a.second_send full) (unsent left),
        ))

  next_of_body-Progress :
      (o : Option Body) (c : Client)
      → c.rsp_buffer.sent ≡ 0
      → Held o
      → Progress set a (unread o) (body_wire a o c.rsp_buffer) (next_of_body set a o c)
  unfolding body_wire next_of_body unread is_done Response.read
  next_of_body-Progress none c e no_body = finished c [] refl
  next_of_body-Progress o c e (memory d r i) =
      let k = min a.capacity (length d - r) in
      if-holds_both (Progress set a (drop r d)) (r == length d)
        (λ q. finished c [] (sym (drop_all r d (omega (arith, (==_iff r (length d)).0 q)))))
        (λ q.
          sent_body-Progress d r k (take k (drop r d)) c e (omega arith)
            (ground (arith, length-take k (drop r d), length-drop r d))
            (ap (λ t. take k (drop r d) ++ t) (drop-drop r k d) ∙ take-append-drop k (drop r d)))

  written-Progress :
      (p : SendStatus × SendBuffer) (c : Client)
      → Left p
      → Held (body_of c.response)
      → Progress set a
          (unsent p.1 ++ unread (body_of c.response))
          (after_wire a p (body_of c.response))
          (written set a p c)
  unfolding after_wire written to_send unsent
  written-Progress (send_again, b) c l h =
      goes_on (record c { rsp_buffer = b }) [] refl (inr l) h
        (omega (arith, l, length-drop b.sent b.buffer))
  written-Progress (send_done, b) c l h =
      subst
        (λ x.
          Progress set a (unsent x ++ unread (body_of c.response))
            (body_wire a (body_of c.response) x)
            (next_of_body set a (body_of c.response) (record c { rsp_buffer = x })))
        (sym l)
        (next_of_body-Progress (body_of c.response) (record c { rsp_buffer = empty_buffer }) refl h)

  -- A call of `handleStaticResponseWrite` for an answer without a body or with one in memory: the
  -- socket is given the next bytes of what is to be sent, none lost and none repeated. The connection
  -- is finalized only when all have been taken, and where it is not, some bytes have been taken or
  -- some are in the buffer.
  pub handle_static_response_write-Progress :
      (c : Client)
      → Ready c.rsp_buffer
      → Held (body_of c.response)
      → Progress set a (to_send c) (wire a c) (handle_static_response_write set a c)
  unfolding handle_static_response_write wire to_send
  handle_static_response_write-Progress c r h =
      behind (taken a.first_send c.rsp_buffer)
        (written-Progress (send a.first_send c.rsp_buffer) c
          (send-Left a.first_send c.rsp_buffer first_bounded r) h)
        (sym (
            append_assoc (taken a.first_send c.rsp_buffer)
              (unsent (send a.first_send c.rsp_buffer).1) (unread (body_of c.response)))
          ∙ ap (λ t. t ++ unread (body_of c.response))
              (send-conserves a.first_send c.rsp_buffer first_bounded
                (Ready-InBuffer c.rsp_buffer r)).0)
