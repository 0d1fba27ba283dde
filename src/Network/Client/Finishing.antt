-- ===== src/Network/Client/Finishing.antt =====
-- The calls of `handleStaticResponseWrite` that an answer in memory takes.
use server_x.Common.{
  ℕ, ◌+◌, ◌*◌, ◌≤◌, ◌<◌, ◌≡◌, refl, ap, ◌∙◌, ◌⊎◌, inl, inr, true, Option, some, List, [], ◌∷◌, ◌++◌,
  arith, if-holds, length, length-append, length-take, length-drop, All, Bytes, Result, returns,
}
use server_x.Network.SendBuffer.{SendBuffer, unsent, taken, taken_of, is_fully_sent, Bounded}
use server_x.Network.Connection.{Client, Answers, Setting, body_of}
use server_x.Network.Serving.{finalize_connection}
use server_x.Network.Client.{handle_static_response_write}
use server_x.Network.Client.Writing.{
  Ready, Held, Progress, finished, goes_on, to_send, wire, handle_static_response_write-Progress,
}

pub data Takes : Option ℕ → Type 0 where
  takes : (n : ℕ) → 0 < n → Takes (some n)

-- A socket that is ready for writing takes a byte at least.
abbrev pub Willing : (Bytes → Option ℕ) → Type 0
Willing socket = (s : Bytes) → 0 < length s → Takes (socket s)

-- The answers of one event: the second call of `::send` may find the socket full.
pub record Able (a : Answers) : Type 0 where
  pub first_bounded : Bounded a.first_send
  pub second_bounded : Bounded a.second_send
  pub first_willing : Willing a.first_send
  pub roomy : 0 < a.capacity

taken_of-pos :
    (o : Option ℕ) (b : SendBuffer) → Takes o → 0 < length (unsent b) → 0 < length (taken_of o b)
unfolding taken_of
taken_of-pos o b (takes n p) h = ground (arith, p, length-take n (unsent b))

fully_sent-nothing : (b : SendBuffer) → is_fully_sent b ≡ true → length (unsent b) ≡ 0
unfolding is_fully_sent unsent
fully_sent-nothing b e = ground (arith, length-drop b.sent b.buffer)

taken-pos :
    (socket : Bytes → Option ℕ) (b : SendBuffer)
    → Willing socket
    → 0 < length (unsent b)
    → 0 < length (taken socket b)
unfolding taken
taken-pos socket b w h =
    if-holds (λ (t : Bytes). 0 < length t) (is_fully_sent b)
      (λ e. absurd (omega (arith, h, fully_sent-nothing b e)))
      (λ _. taken_of-pos (socket (unsent b)) b (w (unsent b) h) h)

wire-pos :
    (a : Answers) (c : Client)
    → Willing a.first_send
    → 0 < length (unsent c.rsp_buffer)
    → 0 < length (wire a c)
unfolding wire
wire-pos a c w h = omega (
  arith,
  taken-pos a.first_send c.rsp_buffer w h,
  length-append (taken a.first_send c.rsp_buffer) _,
)

-- The calls for a list of events: the socket is given the bytes named, and the last call of them
-- finalizes the connection.
pub data Served (set : Setting) : List Answers → Client → Bytes → Type 0 where
  last :
      (a : Answers) (xs : List Answers) (c d : Client) (whole : Bytes)
      → handle_static_response_write set a c ≡ finalize_connection set a d
      → wire a c ≡ whole
      → Served set (a ∷ xs) c whole
  next :
      (a : Answers) (xs : List Answers) (c d : Client) (rest whole : Bytes)
      → handle_static_response_write set a c ≡ returns d
      → wire a c ++ rest ≡ whole
      → Served set xs d rest
      → Served set (a ∷ xs) c whole

-- Two events for a byte and two more, or one less while the buffer holds something.
Enough : List Answers → Client → Type 0
Enough xs c =
    (2 * length (to_send c) + 2 ≤ length xs)
    ⊎ ((0 < length (unsent c.rsp_buffer)) × (2 * length (to_send c) + 1 ≤ length xs))

module _ (set : Setting) (a : Answers) (xs : List Answers) where
  remaining :
      (c d : Client) (out : Bytes)
      → out ++ to_send d ≡ to_send c
      → 0 < length out + length (unsent d.rsp_buffer)
      → (0 < length (unsent c.rsp_buffer) → 0 < length out)
      → Enough (a ∷ xs) c
      → Enough xs d
  unfolding Enough
  remaining c d [] q p w (inl h) = inr (omega (arith, p), omega (arith, h, ap length q))
  remaining c d [] q p w (inr h) = absurd (omega (arith, w h.0))
  remaining c d (b ∷ out) q p w (inl h) =
      inl (omega (arith, h, ap length q, length-append out (to_send d)))
  remaining c d (b ∷ out) q p w (inr h) =
      inl (omega (arith, h.1, ap length q, length-append out (to_send d)))

  call-Served :
      (c : Client) {out : Bytes} {m : Result Client}
      → Progress set a (to_send c) out m
      → wire a c ≡ out
      → handle_static_response_write set a c ≡ m
      → (0 < length (unsent c.rsp_buffer) → 0 < length out)
      → Enough (a ∷ xs) c
      → ((d : Client)
          → Ready d.rsp_buffer
          → Held (body_of d.response)
          → Enough xs d
          → Served set xs d (to_send d))
      → Served set (a ∷ xs) c (to_send c)
  call-Served c (finished d out q) e m w n rest = last a xs c d (to_send c) m (e ∙ q)
  call-Served c (goes_on d out q r h p) e m w n rest =
      next a xs c d (to_send d) (to_send c) m (ap (λ t. t ++ to_send d) e ∙ q)
        (rest d r h (remaining c d out q p w n))

calls-Served :
    (set : Setting) (xs : List Answers)
    → All Able xs
    → (c : Client) → Ready c.rsp_buffer
    → Held (body_of c.response)
    → Enough xs c
    → Served set xs c (to_send c)
unfolding Enough
calls-Served set [] h c r b (inl n) = absurd (omega (arith, n))
calls-Served set [] h c r b (inr n) = absurd (omega (arith, n.1))
calls-Served set (a ∷ xs) h c r b n =
    call-Served set a xs c
      (handle_static_response_write-Progress set a h.0.first_bounded h.0.second_bounded h.0.roomy c
        r b)
      refl refl (wire-pos a c h.0.first_willing) n (calls-Served set xs h.1)

-- An answer without a body or with one in memory is sent: when the socket takes a byte at least in
-- each event, two events for each byte and two more are enough that `handleStaticResponseWrite`
-- has given the socket all that was to be sent, in order, and finalizes the connection.
pub handle_static_response_write-Served :
    (set : Setting) (xs : List Answers) (c : Client)
    → All Able xs
    → Ready c.rsp_buffer
    → Held (body_of c.response)
    → 2 * length (to_send c) + 2 ≤ length xs
    → Served set xs c (to_send c)
unfolding Enough
handle_static_response_write-Served set xs c h r b n = calls-Served set xs h c r b (inl n)
