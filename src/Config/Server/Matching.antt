-- ===== src/Config/Server/Matching.antt =====
-- The choice of a location against its specification: the first configured one among the path,
-- the path with a slash, and the path's directories from the longest to the shortest.
use mathlib.Core.Path.{subst}
use native.Mathlib.Numerals.{add-one}
use server_x.Common.{
  ℕ, zero, suc, ◌+◌, ◌-◌, ◌<◌, true, false, Option, none, some, List, [], ◌∷◌, ◌++◌, map, ◌≡◌, ◌⊎◌,
  inl, inr, refl, sym, ap, ◌∙◌, arith, ◌==◌, if◌then◌else◌, Bool-cases, Option-cases, length, take,
  get_last?, Bytes, beq, is_empty, rfind_byte, lookup, length-take,
}
use server_x.Config.Location.{LocationBlock}
use server_x.Config.Server.{
  LocationMap, parent_path, climb, with_slash, or_else, best_match_location,
}

-- The prefixes of a path that end in a slash, from the longest to the shortest.
abbrev pub directories : Bytes → List Bytes
directories [] = []
directories (c ∷ cs) = map (◌∷◌ c) (directories cs) ++ (if c == b'/' then (c ∷ []) ∷ [] else [])

-- The first key of the list that the map has.
abbrev pub first_found : LocationMap → List Bytes → Option LocationBlock
first_found ls [] = none
first_found ls (p ∷ ps) = elim (lookup p ls) [ some l ↦ some l | none ↦ first_found ls ps ]

-- The path with a slash behind it, for a path that is not empty and does not end in one.
abbrev pub slashed : Bytes → List Bytes
slashed path = elim (get_last? path) [
  | none ↦ []
  | some c ↦ if c == b'/' then [] else (path ++ b'/' ∷ []) ∷ []
]

-- The keys that the server looks up, in order.
abbrev pub candidates : Bytes → List Bytes
candidates path = path ∷ (slashed path ++ (directories path ++ (b'/' ∷ []) ∷ []))

suc-add_one : (j : ℕ) → suc j + 1 ≡ suc (j + 1)
suc-add_one j = omega arith

directories-none : (h : Bytes) → rfind_byte b'/' h ≡ none → directories h ≡ []
unfolding rfind_byte
directories-none [] e = refl
directories-none (c ∷ cs) e = elim (Option-cases (rfind_byte b'/' cs)) [
  | inl n ↦ elim (Bool-cases (c == b'/')) [
    | inl s ↦ ground arith
    | inr s ↦ rw (directories-none cs n, s)
  ]
  | inr (j, n) ↦ ground arith
]

directories-some :
    (h : Bytes) (i : ℕ)
    → rfind_byte b'/' h ≡ some i
    → directories h ≡ take (i + 1) h ∷ directories (take i h)
unfolding rfind_byte
directories-some [] i e = cc
directories-some (c ∷ cs) i e = elim (Option-cases (rfind_byte b'/' cs)) [
  | inl n ↦ elim (Bool-cases (c == b'/')) [
    | inl s ↦ rw (directories-none cs n, s) (rw (zero_of n s) refl)
    | inr s ↦ ground arith
  ]
  | inr (j, n) ↦ rw (suc_of n) (rw (directories-some cs j n, suc-add_one j))
]
  where
    zero_of : rfind_byte b'/' cs ≡ none → (c == b'/') ≡ true → i ≡ 0
    zero_of n s = ground arith

    suc_of : {j : ℕ} → rfind_byte b'/' cs ≡ some j → i ≡ suc j
    suc_of n = ground arith

rfind_byte-lt : (c : ℕ) (h : Bytes) (i : ℕ) → rfind_byte c h ≡ some i → i < length h
unfolding rfind_byte
rfind_byte-lt c [] i e = cc
rfind_byte-lt c (x ∷ xs) i e = elim (Option-cases (rfind_byte c xs)) [
  | inl n ↦ ground arith
  | inr (j, n) ↦ ground (arith, rfind_byte-lt c xs j n)
]

-- All but the last byte.
abbrev init : Bytes → Bytes
init [] = []
init (c ∷ cs) = take (length cs) (c ∷ cs)

take-take : (n : ℕ) (h : Bytes) → take n (take (suc n) h) ≡ take n h
take-take zero h = refl
take-take (suc n) [] = refl
take-take (suc n) (c ∷ cs) = ap (◌∷◌ c) (take-take n cs)

init-take : (n : ℕ) (h : Bytes) → n < length h → init (take (n + 1) h) ≡ take n h
init-take n [] lt = absurd (omega arith)
init-take n (c ∷ cs) lt =
    let e : length (take n cs) ≡ n = omega (arith, length-take n cs) in
    rw (add-one n) (rw e (take-take n (c ∷ cs)))

directories-init :
    (p : Bytes)
    → (directories p ≡ p ∷ directories (init p)) ⊎ (directories p ≡ directories (init p))
directories-init [] = inr refl
directories-init (c ∷ []) = elim (Bool-cases (c == b'/')) [
  | inl s ↦ inl (rw s)
  | inr s ↦ inr (rw s)
]
directories-init (c ∷ d ∷ cs) = elim (directories-init (d ∷ cs)) [
  | inl e ↦ inl (rw e)
  | inr e ↦ inr (rw e)
]

directories-root : (p : Bytes) → beq p (b'/' ∷ []) ≡ true → directories (init p) ≡ []
unfolding beq
directories-root [] e = refl
directories-root (c ∷ []) e = refl
directories-root (c ∷ d ∷ cs) e = ground arith

parent-none : (p : Bytes) → parent_path p ≡ none → directories (init p) ≡ []
unfolding parent_path
parent-none [] e = refl
parent-none (c ∷ []) e = refl
parent-none (c ∷ d ∷ cs) e = directories-none (take (suc (length cs)) (c ∷ d ∷ cs)) (ground arith)

length-init : (p : Bytes) → length (init p) ≡ length p - 1
length-init [] = omega arith
length-init (c ∷ cs) = omega (arith, length-take (length cs) (c ∷ cs))

-- What the loop needs of the path that it goes up to.
record GoesUp (p up : Bytes) : Type 0 where
  next : directories (init p) ≡ up ∷ directories (init up)
  shorter : length up < length p
  nonempty : is_empty up ≡ false

is_empty-length : (p : Bytes) → 0 < length p → is_empty p ≡ false
is_empty-length [] h = absurd (omega arith)
is_empty-length (c ∷ cs) h = refl

GoesUp-take :
    (p : Bytes) (pos : ℕ) → rfind_byte b'/' (init p) ≡ some pos → GoesUp p (take (pos + 1) (init p))
GoesUp-take p pos e =
    let lt = rfind_byte-lt b'/' (init p) pos e in
    record {
      next =
          directories-some (init p) pos e
          ∙ ap (λ (x : Bytes). take (pos + 1) (init p) ∷ directories x)
              (sym (init-take pos (init p) lt));
      shorter = omega (arith, length-take (pos + 1) (init p), length-init p);
      nonempty =
          is_empty-length (take (pos + 1) (init p)) (omega (arith, length-take (pos + 1) (init p)));
    }

parent-some :
    (p : Bytes) (up : Bytes) → beq p (b'/' ∷ []) ≡ false → parent_path p ≡ some up → GoesUp p up
unfolding parent_path beq
parent-some [] up b e = cc
parent-some (c ∷ []) up b e = ground arith
parent-some (c ∷ d ∷ cs) up b e =
    elim (Option-cases (rfind_byte b'/' (take (suc (length cs)) (c ∷ d ∷ cs)))) [
      | inl n ↦ ground arith
      | inr (pos, n) ↦
          let e' : take (pos + 1) (take (suc (length cs)) (c ∷ d ∷ cs)) ≡ up = ground arith in
          subst (GoesUp (c ∷ d ∷ cs)) e' (GoesUp-take (c ∷ d ∷ cs) pos n)
    ]

module _ (ls : LocationMap) (fuel : ℕ) (p : Bytes) (ne : is_empty p ≡ false) where
  climb-found : (l : LocationBlock) → lookup p ls ≡ some l → climb (suc fuel) ls p ≡ some l
  unfolding climb
  climb-found l e = ground arith

  climb-stop :
      lookup p ls ≡ none
      → (beq p (b'/' ∷ []) ≡ true) ⊎ (parent_path p ≡ none)
      → climb (suc fuel) ls p ≡ none
  unfolding climb
  climb-stop e h = ground arith

  climb-up :
      (up : Bytes)
      → lookup p ls ≡ none
      → beq p (b'/' ∷ []) ≡ false
      → parent_path p ≡ some up
      → climb (suc fuel) ls p ≡ climb fuel ls up
  unfolding climb
  climb-up up e b h = ground arith

module _ (ls : LocationMap) where
  first_found-some :
      (p : Bytes) (ps : List Bytes) (l : LocationBlock)
      → lookup p ls ≡ some l
      → first_found ls (p ∷ ps) ≡ some l
  first_found-some p ps l e = ground arith

  first_found-none :
      (p : Bytes) (ps : List Bytes)
      → lookup p ls ≡ none
      → first_found ls (p ∷ ps) ≡ first_found ls ps
  first_found-none p ps e = ground arith

  abbrev root_only : Option LocationBlock
  root_only = lookup (b'/' ∷ []) ls

  first_found-root : first_found ls ((b'/' ∷ []) ∷ []) ≡ root_only
  first_found-root = ground arith

  -- The loop from a path on, and the root behind it.
  climb_lem :
      (fuel : ℕ) (p : Bytes)
      → length p < fuel
      → is_empty p ≡ false
      → or_else (climb fuel ls p) root_only
        ≡ first_found ls (p ∷ (directories (init p) ++ (b'/' ∷ []) ∷ []))
  unfolding or_else
  climb_lem zero p lt ne = absurd (omega arith)
  climb_lem (suc fuel) p lt ne = elim (Option-cases (lookup p ls)) [
    | inr (l, e) ↦ rw (climb-found ls fuel p ne l e) (sym (first_found-some p _ l e))
    | inl e ↦ elim (Bool-cases (beq p (b'/' ∷ []))) [
      | inl b ↦
          rw (climb-stop ls fuel p ne e (inl b), directories-root p b)
            (sym (first_found-none p ((b'/' ∷ []) ∷ []) e ∙ first_found-root))
      | inr b ↦ elim (Option-cases (parent_path p)) [
        | inl h ↦
            rw (climb-stop ls fuel p ne e (inr h), parent-none p h)
              (sym (first_found-none p ((b'/' ∷ []) ∷ []) e ∙ first_found-root))
        | inr (up, h) ↦
            let g = parent-some p up b h in
            rw (climb-up ls fuel p ne up e b h) (
              climb_lem fuel up (omega (arith, g.shorter)) g.nonempty
              ∙ sym (
                  first_found-none p _ e
                  ∙ ap (λ (d : List Bytes). first_found ls (d ++ (b'/' ∷ []) ∷ [])) g.next))
      ]
    ]
  ]

  or_else-found :
      (p : Bytes) (ps : List Bytes)
      → or_else (lookup p ls) (first_found ls ps) ≡ first_found ls (p ∷ ps)
  unfolding or_else
  or_else-found p ps = ground arith

  -- The path itself is no candidate again.
  found_below :
      (p : Bytes)
      → lookup p ls ≡ none
      → first_found ls (p ∷ (directories (init p) ++ (b'/' ∷ []) ∷ []))
        ≡ first_found ls (directories p ++ (b'/' ∷ []) ∷ [])
  found_below p e =
      let rest = directories (init p) ++ (b'/' ∷ []) ∷ [] in
      elim (directories-init p) [ inl d ↦ rw d refl | inr d ↦ rw d (first_found-none p rest e) ]

  with_slash_lem :
      (p : Bytes) (ps : List Bytes)
      → or_else (with_slash ls p) (first_found ls ps) ≡ first_found ls (slashed p ++ ps)
  unfolding with_slash or_else
  with_slash_lem p ps = ground arith

  climb_all :
      (p : Bytes)
      → lookup p ls ≡ none
      → or_else (climb (suc (length p)) ls p) root_only
        ≡ first_found ls (directories p ++ (b'/' ∷ []) ∷ [])
  unfolding climb or_else
  climb_all [] e = sym first_found-root
  climb_all (c ∷ cs) e =
      climb_lem (suc (length (c ∷ cs))) (c ∷ cs) (omega arith) refl ∙ found_below (c ∷ cs) e

  best_match_location-or_else :
      (p : Bytes)
      → best_match_location ls p
        ≡ or_else
            (lookup p ls)
            (or_else (with_slash ls p) (or_else (climb (suc (length p)) ls p) root_only))
  unfolding best_match_location
  best_match_location-or_else p = refl

  or_else-some :
      (o other : Option LocationBlock) (l : LocationBlock) → o ≡ some l → or_else o other ≡ some l
  unfolding or_else
  or_else-some o other l e = rw e

  -- The location chosen for a path is the first one configured among its candidates: the path, the
  -- path with a slash, its directories from the longest to the shortest, and the root; there is
  -- none where none of these is configured.
  pub best_match_location-first_found :
      (path : Bytes) → best_match_location ls path ≡ first_found ls (candidates path)
  best_match_location-first_found path =
      let dirs = directories path ++ (b'/' ∷ []) ∷ [] in
      best_match_location-or_else path ∙ elim (Option-cases (lookup path ls)) [
        | inr (l, e) ↦
            or_else-some (lookup path ls) _ l e
            ∙ sym (first_found-some path (slashed path ++ dirs) l e)
        | inl e ↦
            rw (climb_all path e, with_slash_lem path dirs)
              (or_else-found path (slashed path ++ dirs))
      ]
