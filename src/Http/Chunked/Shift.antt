-- ===== src/Http/Chunked/Shift.antt =====
-- The position at which the loop of `parse` starts is only counted on.
use server_x.Common.{
  ℕ, zero, suc, ◌+◌, Bool, true, false, not, ◌||◌, ◌≡◌, ◌≢◌, refl, ◌∙◌, arith, drop, Bytes,
  is_empty, ◌==◌, if◌then◌else◌,
}
use server_x.Http.Chunked.{ChunkedBodyParser, chunk_error, handler, run, is_done, finish, Outcome}

-- `pos` is only counted on.
pub record Shifted (r s : Outcome) (pos base : ℕ) : Type 0 where
  pub status : r.status ≡ s.status
  pub parser : r.parser ≡ s.parser
  pub output : r.output ≡ s.output
  pub consumed : s.status ≢ chunk_error → r.consumed + base ≡ s.consumed + pos

Shifted-if :
    {r s r' s' : Outcome} {pos base : ℕ} (c : Bool)
    → Shifted r s pos base
    → Shifted r' s' pos base
    → Shifted (if c then r else r') (if c then s else s') pos base
Shifted-if true h k = h
Shifted-if false h k = k

Shifted-finish :
    (p : ChunkedBodyParser) (pos base : ℕ) (out : Bytes)
    → Shifted (finish p pos out) (finish p base out) pos base
Shifted-finish p pos base out = record {
  status = refl;
  parser = refl;
  output = refl;
  consumed = λ _. omega arith;
}

Shifted-later :
    {r s : Outcome} {pos base : ℕ} (n : ℕ) → Shifted r s (pos + n) (base + n) → Shifted r s pos base
Shifted-later n h = record {
  status = h.status;
  parser = h.parser;
  output = h.output;
  consumed = λ ok. omega (arith, h.consumed ok);
}

pub run_shift :
    (f : ℕ) (p : ChunkedBodyParser) (x : Bytes) (pos base : ℕ) (out : Bytes)
    → Shifted (run f p x pos out) (run f p x base out) pos base
unfolding run
run_shift zero p x pos base out = Shifted-finish p pos base out
run_shift (suc f) p x pos base out =
    let s = handler p.state p x out in
    let n = s.result.consumed in
    let ih = run_shift f s.parser (drop n x) (pos + n) (base + n) s.output in
    Shifted-if (is_empty x || is_done p.state) (Shifted-finish p pos base out) (
      Shifted-if (not s.result.is_ok)
        (record { status = refl; parser = refl; output = refl; consumed = λ ok. absurd (ok refl) })
        (Shifted-if (n == 0) (Shifted-finish s.parser pos base s.output) (Shifted-later n ih)))

pub Shifted-eq :
    (r s : Outcome) (pos : ℕ)
    → Shifted r s pos 0
    → r.status ≢ chunk_error
    → r ≡ record s { consumed = pos + s.consumed }
Shifted-eq r s pos h ok =
    let e : r.consumed ≡ pos + s.consumed = omega (arith, h.consumed (λ x. ok (h.status ∙ x))) in
    λ i. record { status = h.status i; parser = h.parser i; output = h.output i; consumed = e i }
