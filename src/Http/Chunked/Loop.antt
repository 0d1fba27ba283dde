-- ===== src/Http/Chunked/Loop.antt =====
-- The loop of `parse`: one round, the rounds it needs, and where its counters start.
use server_x.Common.{
  ◌∙◌, ℕ, zero, suc, ◌+◌, ◌<◌, true, false, [], ◌∷◌, ◌≡◌, refl, arith, ◌==◌, Bool-cases, inl, inr,
  length, drop, length-drop, Bytes, is_empty,
}
use server_x.Http.Chunked.{
  ChunkedBodyParser, is_done, handler, run, parse, success, Outcome, finish, failed,
}

run_step :
    (fuel : ℕ) (p : ChunkedBodyParser) (input : Bytes) (pos : ℕ) (out : Bytes) (n : ℕ)
    (q : ChunkedBodyParser) (out' : Bytes)
    → is_empty input ≡ false
    → is_done p.state ≡ false
    → 0 < n
    → handler p.state p input out ≡ success n q out'
    → run (suc fuel) p input pos out ≡ run fuel q (drop n input) (pos + n) out'
unfolding run
run_step fuel p input pos out n q out' h d k e = ground arith

shorter :
    (n f : ℕ) (input : Bytes)
    → 0 < n
    → is_empty input ≡ false
    → length input < suc f
    → length (drop n input) < f
shorter n f [] h e l = cc
shorter n f (c ∷ cs) h e l = omega (arith, length-drop n (c ∷ cs))

-- More fuel than input changes nothing: the loop ends by its own tests.
pub run-fuel :
    (f g : ℕ) (p : ChunkedBodyParser) (input : Bytes) (pos : ℕ) (out : Bytes)
    → length input < f
    → length input < g
    → run f p input pos out ≡ run g p input pos out
unfolding run
run-fuel zero g p input pos out h k = absurd (omega arith)
run-fuel (suc f) zero p input pos out h k = absurd (omega arith)
run-fuel (suc f) (suc g) p [] pos out h k = refl
run-fuel (suc f) (suc g) p (c ∷ cs) pos out h k =
    let s = handler p.state p (c ∷ cs) out in
    let n = s.result.consumed in
    elim (Bool-cases (n == 0)) [
      | inl e ↦ ground arith
      | inr e ↦ ground (
        arith,
        run-fuel f g s.parser (drop n (c ∷ cs)) (pos + n) s.output
            (shorter n f (c ∷ cs) (ground arith) refl h)
            (shorter n g (c ∷ cs) (ground arith) refl k),
      )
    ]

-- The loop with the fuel that `parse` gives it.
abbrev pub drain : ChunkedBodyParser → Bytes → ℕ → Bytes → Outcome
drain p input pos out = run (suc (length input)) p input pos out

-- The equation of the loop for a round that consumes something.
pub drain_next :
    (p : ChunkedBodyParser) (input : Bytes) (pos : ℕ) (out : Bytes) (n : ℕ) (q : ChunkedBodyParser)
    (out' : Bytes)
    → is_empty input ≡ false
    → is_done p.state ≡ false
    → 0 < n
    → handler p.state p input out ≡ success n q out'
    → drain p input pos out ≡ drain q (drop n input) (pos + n) out'
drain_next p [] pos out n q out' h d k e = cc
drain_next p (c ∷ cs) pos out n q out' h d k e =
    run_step (length (c ∷ cs)) p (c ∷ cs) pos out n q out' h d k e
    ∙ run-fuel (length (c ∷ cs)) (suc (length (drop n (c ∷ cs)))) q (drop n (c ∷ cs)) (pos + n) out'
        (shorter n (length (c ∷ cs)) (c ∷ cs) k h (omega arith)) (omega arith)

-- A round that fails ends the loop.
pub drain_error :
    (p : ChunkedBodyParser) (input : Bytes) (pos : ℕ) (out : Bytes)
    → is_empty input ≡ false
    → is_done p.state ≡ false
    → (handler p.state p input out).result.is_ok ≡ false
    → drain p input pos out ≡ failed (handler p.state p input out)
unfolding run
drain_error p input pos out h d k = ground arith

pub drain_done :
    (p : ChunkedBodyParser) (input : Bytes) (pos : ℕ) (out : Bytes)
    → is_done p.state ≡ true
    → drain p input pos out ≡ finish p pos out
unfolding run
drain_done p [] pos out d = refl
drain_done p (c ∷ cs) pos out d = ground arith

pub drain-nil :
    (p : ChunkedBodyParser) (pos : ℕ) (out : Bytes) → drain p [] pos out ≡ finish p pos out
unfolding run
drain-nil p pos out = refl

pub parse-drain :
    (p : ChunkedBodyParser) (input out : Bytes) → parse p input out ≡ drain p input 0 out
unfolding parse
parse-drain p input out = refl

-- A parser that is done takes nothing.
pub parse-done :
    (p : ChunkedBodyParser) (input out : Bytes)
    → is_done p.state ≡ true
    → parse p input out ≡ finish p 0 out
parse-done p input out d = parse-drain p input out ∙ drain_done p input 0 out d
