-- ===== src/Config/Factory/Unparse.antt =====
-- Nothing of a text with variables is lost.
use server_x.Common.{
  ℕ, zero, suc, ◌≤◌, ◌<◌, Bool, true, false, List, [], ◌∷◌, ◌++◌, ◌≡◌, refl, sym, ap, ◌∙◌, arith,
  if◌then◌else◌, length, length-append, Bytes, Result, returns, >>=-eq-returns, returns-inj, ◌+◌,
}
use server_x.Config.Argument.{Part, text, variable_part}
use server_x.Config.Factory.{
  is_valid_variable_char, before_dollar, variable_name, add_text, add_variable, after_text,
  concatenated_parts,
}

-- The parts as one writes them.
unfoldable pub unparse : List Part → Bytes
unparse [] = []
unparse (text s ∷ ps) = s ++ unparse ps
unparse (variable_part v ∷ ps) = b'$' ∷ (v ++ unparse ps)

-- Every name is one, of characters that a name may have.
unfoldable pub all_valid : Bytes → Bool
unfolding is_valid_variable_char
all_valid [] = true
all_valid (c ∷ cs) = if is_valid_variable_char c then all_valid cs else false

before_dollar-append : (s : Bytes) → (before_dollar s).0 ++ (before_dollar s).1 ≡ s
unfolding before_dollar
before_dollar-append [] = refl
before_dollar-append (c ∷ cs) = ground (arith, before_dollar-append cs)

variable_name-append : (s : Bytes) → (variable_name s).0 ++ (variable_name s).1 ≡ s
unfolding variable_name
variable_name-append [] = refl
variable_name-append (c ∷ cs) = ground (arith, variable_name-append cs)

before_dollar_rest : (s : Bytes) (c : ℕ) (r : Bytes) → (before_dollar s).1 ≡ c ∷ r → c ≡ b'$'
unfolding before_dollar
before_dollar_rest [] c r e = absurd (cc)
before_dollar_rest (x ∷ xs) c r e = ground (arith, before_dollar_rest xs c r)

unparse-add_text : (s : Bytes) (ps : List Part) → unparse (add_text s ps) ≡ s ++ unparse ps
unfolding unparse add_text
unparse-add_text [] ps = refl
unparse-add_text (c ∷ cs) ps = refl

unparse-nil : (before : Bytes) → before ++ unparse [] ≡ before ++ []
unfolding unparse
unparse-nil before = refl

-- What the loop does of a `$` and of what stands behind it.
unparse-add_variable :
    (before : Bytes) (v : Bytes × Bytes) (more : Bytes → Result (List Part)) (ps : List Part)
    → add_variable before v more ≡ returns ps
    → ((qs : List Part) → more v.1 ≡ returns qs → unparse qs ≡ v.1)
    → unparse ps ≡ before ++ (b'$' ∷ (v.0 ++ v.1))
unfolding add_variable unparse
unparse-add_variable before ([], rest) more ps e h = absurd (cc)
unparse-add_variable before (c ∷ cs, rest) more ps e h =
    let (qs, eq, is) = >>=-eq-returns (more rest) _ e in
    rw (← returns-inj _ ps is) (
      unparse-add_text before (variable_part (c ∷ cs) ∷ qs)
      ∙ ap (λ t. before ++ (b'$' ∷ ((c ∷ cs) ++ t))) (h qs eq))

unparse-after_text :
    (before r : Bytes) (more : Bytes → Result (List Part)) (ps : List Part)
    → after_text before r more ≡ returns ps
    → ((c : ℕ) (t : Bytes) → r ≡ c ∷ t → c ≡ b'$')
    → ((w : Bytes) (qs : List Part) → length w < length r → more w ≡ returns qs → unparse qs ≡ w)
    → unparse ps ≡ before ++ r
unfolding after_text
unparse-after_text before [] more ps e d h =
    rw (← returns-inj _ ps e) (unparse-add_text before [] ∙ unparse-nil before)
unparse-after_text before (c ∷ rest) more ps e d h =
    let v = variable_name rest in
    let whole = variable_name-append rest in
    let len : length v.0 + length v.1 ≡ length rest =
      sym (length-append v.0 v.1) ∙ ap length whole in
    unparse-add_variable before v more ps e (λ qs. h v.1 qs (omega (arith, len)))
    ∙ ap (λ t. before ++ (b'$' ∷ t)) whole
    ∙ ap (λ x. before ++ (x ∷ rest)) (sym (d c rest refl))

concatenated_parts-eq :
    (fuel c : ℕ) (cs : Bytes)
    → concatenated_parts (suc fuel) (c ∷ cs)
      ≡ after_text (before_dollar (c ∷ cs)).0 (before_dollar (c ∷ cs)).1 (concatenated_parts fuel)
unfolding concatenated_parts
concatenated_parts-eq fuel c cs = refl

concatenated_parts-nil :
    (fuel : ℕ) (ps : List Part) → concatenated_parts fuel [] ≡ returns ps → unparse ps ≡ []
unfolding concatenated_parts unparse
concatenated_parts-nil zero ps e = rw (← returns-inj _ ps e) refl
concatenated_parts-nil (suc fuel) ps e = rw (← returns-inj _ ps e) refl

-- The parts that the loop makes of a text are the text: written out, each variable behind its
-- `$`, they give it back, provided the loop throws nothing.
pub unparse-concatenated_parts :
    (fuel : ℕ) (s : Bytes) (ps : List Part)
    → length s ≤ fuel
    → concatenated_parts fuel s ≡ returns ps
    → unparse ps ≡ s
unparse-concatenated_parts fuel [] ps h e = concatenated_parts-nil fuel ps e
unparse-concatenated_parts zero (c ∷ cs) ps h e = absurd (omega arith)
unparse-concatenated_parts (suc fuel) (c ∷ cs) ps h e =
    let b = before_dollar (c ∷ cs) in
    let whole = before_dollar-append (c ∷ cs) in
    let len : length b.0 + length b.1 ≡ suc (length cs) =
      sym (length-append b.0 b.1) ∙ ap length whole in
    unparse-after_text b.0 b.1 (concatenated_parts fuel) ps
      (sym (concatenated_parts-eq fuel c cs) ∙ e) (before_dollar_rest (c ∷ cs))
      (λ w qs l. unparse-concatenated_parts fuel w qs (omega (arith, len)))
    ∙ whole
