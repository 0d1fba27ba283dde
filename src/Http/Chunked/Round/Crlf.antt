-- ===== src/Http/Chunked/Round/Crlf.antt =====
-- The rounds in READING_TRAILER_CRLF and READING_FINAL_CRLF, with CR and LF in one part or in two.
use server_x.Common.{
  ℕ, true, false, ◌&&◌, [], ◌∷◌, ◌++◌, ◌≡◌, ◌≢◌, inl, inr, refl, ◌∙◌, arith, Bool-cases, Bytes,
  is_empty, ==_iff, ◌==◌, if◌then◌else◌,
}
use server_x.Http.Status.{bad_request}
use server_x.Http.Chunked.{
  InternalState, ChunkedBodyParser, reading_size, reading_data, reading_trailer_crlf,
  reading_final_crlf, done, read_crlf, handler, success, set_error, is_done,
}
use server_x.Http.Chunked.Round.{IsWaiting, Round, same, rest, fails, join_steps, join_nil}

-- A state in which a handler waits for CRLF, and the state that follows.
pub data ReadsCrlf : InternalState → InternalState → Type 0 where
  trailer : ReadsCrlf reading_trailer_crlf reading_size
  final : ReadsCrlf reading_final_crlf done

ReadsCrlf-handler :
    {s next : InternalState}
    → ReadsCrlf s next
    → (p : ChunkedBodyParser) (x out : Bytes) → handler s p x out ≡ read_crlf next p x out
unfolding handler
ReadsCrlf-handler trailer p x out = refl
ReadsCrlf-handler final p x out = refl

ReadsCrlf-ne :
    {s next : InternalState}
    → ReadsCrlf s next
    → (s ≢ reading_data) × (next ≢ reading_data) × (is_done s ≡ false)
ReadsCrlf-ne trailer = (λ e. cc, λ e. cc, refl)
ReadsCrlf-ne final = (λ e. cc, λ e. cc, refl)

-- The results of `read_crlf` behind a CR and without one.
module _ (next : InternalState) (p : ChunkedBodyParser) where
  abbrev behind_crlf : ChunkedBodyParser
  behind_crlf = record p { saw_cr = false; state = next }

  read_crlf_seen :
      (c : ℕ) (x out : Bytes)
      → p.saw_cr ≡ true
      → read_crlf next p (c ∷ x) out
        ≡ (if c == b'\n' then success 1 behind_crlf out else set_error bad_request p out)
  unfolding read_crlf
  read_crlf_seen c [] out e = rw e
  read_crlf_seen c (d ∷ x) out e = rw e

  read_crlf_two :
      (c d : ℕ) (x out : Bytes)
      → p.saw_cr ≡ false
      → read_crlf next p (c ∷ d ∷ x) out ≡ (
          if c == b'\r' && d == b'\n'
          then success 2 behind_crlf out
          else set_error bad_request p out)
  unfolding read_crlf
  read_crlf_two c d x out e = ground arith

  read_crlf_one :
      (c : ℕ) (out : Bytes)
      → p.saw_cr ≡ false
      → read_crlf next p (c ∷ []) out ≡ (
          if c == b'\r'
          then success 1 (record p { saw_cr = true }) out
          else set_error bad_request p out)
  unfolding read_crlf
  read_crlf_one c out e = rw e

  read_crlf_bad :
      (c : ℕ) (x out : Bytes)
      → p.saw_cr ≡ false
      → (c == b'\r') ≡ false
      → (read_crlf next p (c ∷ x) out).result.is_ok ≡ false
  unfolding read_crlf
  read_crlf_bad c [] out e h = ground arith
  read_crlf_bad c (d ∷ x) out e h = ground arith

module _ (next : InternalState) (p : ChunkedBodyParser) (rd : ReadsCrlf p.state next)
    (b out : Bytes) (w : IsWaiting p) where
  step_eq : (x : Bytes) → handler p.state p x out ≡ read_crlf next p x out
  step_eq x = ReadsCrlf-handler rd p x out

  behind_crlf-IsWaiting : IsWaiting (behind_crlf next p)
  behind_crlf-IsWaiting = record {
    no_line = w.no_line;
    pending = λ e. absurd ((ReadsCrlf-ne rd).1 e);
  }

  Round-crlf_seen : (c : ℕ) (a : Bytes) → p.saw_cr ≡ true → Round p (c ∷ a) b out
  Round-crlf_seen c a e = elim (Bool-cases (c == b'\n')) [
    | inr h ↦ fails (rw (step_eq (c ∷ (a ++ b)), read_crlf_seen next p c (a ++ b) out e) (rw h))
    | inl h ↦
        same 1 (behind_crlf next p) out (omega arith) (omega arith) behind_crlf-IsWaiting
          (omega arith) (step_eq (c ∷ a) ∙ (read_crlf_seen next p c a out e ∙ rw h))
          (step_eq (c ∷ (a ++ b)) ∙ (read_crlf_seen next p c (a ++ b) out e ∙ rw h))
  ]

  Round-crlf_two : (c d : ℕ) (a : Bytes) → p.saw_cr ≡ false → Round p (c ∷ d ∷ a) b out
  Round-crlf_two c d a e = elim (Bool-cases (c == b'\r' && d == b'\n')) [
    | inr h ↦
        fails (rw (step_eq (c ∷ d ∷ (a ++ b)), read_crlf_two next p c d (a ++ b) out e) (rw h))
    | inl h ↦
        same 2 (behind_crlf next p) out (omega arith) (omega arith) behind_crlf-IsWaiting
          (omega arith) (step_eq (c ∷ d ∷ a) ∙ (read_crlf_two next p c d a out e ∙ rw h))
          (step_eq (c ∷ d ∷ (a ++ b)) ∙ (read_crlf_two next p c d (a ++ b) out e ∙ rw h))
  ]

  -- CR ends `a`; what follows it begins `b`.
  abbrev behind_cr : ChunkedBodyParser
  behind_cr = record p { saw_cr = true }

  handler-behind_cr :
      p.saw_cr ≡ false → handler p.state p (b'\r' ∷ []) out ≡ success 1 behind_cr out
  handler-behind_cr e = step_eq (b'\r' ∷ []) ∙ read_crlf_one next p b'\r' out e

  behind_cr-IsWaiting : IsWaiting behind_cr
  behind_cr-IsWaiting = record {
    no_line = w.no_line;
    pending = λ e. absurd ((ReadsCrlf-ne rd).0 e);
  }

Round-crlf_cr :
    (next : InternalState) (p : ChunkedBodyParser) (rd : ReadsCrlf p.state next) (b out : Bytes)
    (w : IsWaiting p)
    → p.saw_cr ≡ false
    → Round p (b'\r' ∷ []) b out
Round-crlf_cr next p rd [] out w e =
    let q : ChunkedBodyParser = record p { saw_cr = true } in
    rest q out (behind_cr-IsWaiting next p rd [] out w) (handler-behind_cr next p rd [] out w e) (
      join_nil p (b'\r' ∷ []) out q out refl (ReadsCrlf-ne rd).2
        (handler-behind_cr next p rd [] out w e))
Round-crlf_cr next p rd (d ∷ b) out w e =
    let q : ChunkedBodyParser = record p { saw_cr = true } in
    let eq = step_eq next p rd b out w (b'\r' ∷ d ∷ b) ∙ read_crlf_two next p b'\r' d b out e in
    elim (Bool-cases (d == b'\n')) [
      | inr h ↦ fails (
          rw (step_eq next p rd b out w (b'\r' ∷ d ∷ b), read_crlf_two next p b'\r' d b out e)
            (rw h))
      | inl h ↦
          rest q out (behind_cr-IsWaiting next p rd (d ∷ b) out w)
            (handler-behind_cr next p rd (d ∷ b) out w e)
            (join_steps p (b'\r' ∷ []) (d ∷ b) out q out 1 (behind_crlf next p) out refl refl
              (ReadsCrlf-ne rd).2 (ReadsCrlf-ne rd).2 (omega arith)
              (ReadsCrlf-handler rd q (d ∷ b) out ∙ (read_crlf_seen next q d b out refl ∙ rw h))
              (eq ∙ rw h))
    ]

pub Round-crlf :
    (next : InternalState) (p : ChunkedBodyParser) (rd : ReadsCrlf p.state next) (a b out : Bytes)
    (w : IsWaiting p)
    → is_empty a ≡ false
    → Round p a b out
Round-crlf next p rd [] b out w ea = cc
Round-crlf next p rd (c ∷ []) b out w ea = elim (Bool-cases p.saw_cr) [
  | inl e ↦ Round-crlf_seen next p rd b out w c [] e
  | inr e ↦ elim (Bool-cases (c == b'\r')) [
    | inl h ↦ rw ((==_iff c b'\r').0 h) (Round-crlf_cr next p rd b out w e)
    | inr h ↦ fails (rw (step_eq next p rd b out w (c ∷ b)) (read_crlf_bad next p c b out e h))
  ]
]
Round-crlf next p rd (c ∷ d ∷ a) b out w ea = elim (Bool-cases p.saw_cr) [
  | inl e ↦ Round-crlf_seen next p rd b out w c (d ∷ a) e
  | inr e ↦ Round-crlf_two next p rd b out w c d a e
]
