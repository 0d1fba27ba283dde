-- ===== src/Common/Search.antt =====
-- Where `find` of a byte stops.
use Prim.Native.Nat.{ℕ, suc}
use mathlib.Core.Path.{◌≡◌, refl, sym, ◌∙◌}
use mathlib.Core.Logic.{◌≢◌, inl, inr}
use mathlib.Core.Bool.{true, false}
use mathlib.Core.List.{[], ◌∷◌, ◌++◌}
use mathlib.Core.Option
use mathlib.Core.Option.{Option, none, some}
use native.Mathlib.Omega.{arith}
use server_x.Common.Tests.{◌==◌, Bool-cases}
use server_x.Common.Lists.{length}
use server_x.Common.Strings.{Bytes, find_byte}

map-none : (o : Option ℕ) → Option.map suc o ≡ none → o ≡ none
map-none none e = refl
map-none (some n) e = cc

not_found : (c x : ℕ) (a : Bytes) → (x == c) ≡ true → find_byte c (x ∷ a) ≢ none
unfolding find_byte
not_found c x a t e = ground arith

still_not_found :
    (c x : ℕ) (a : Bytes) → (x == c) ≡ false → find_byte c (x ∷ a) ≡ none → find_byte c a ≡ none
unfolding find_byte
still_not_found c x a f e = map-none (find_byte c a) (sym (rw f refl) ∙ e)

pub find_byte-append :
    (c : ℕ) (a b : Bytes) → find_byte c a ≡ none → find_byte c (a ++ (c ∷ b)) ≡ some (length a)
unfolding find_byte
find_byte-append c [] b e = ground arith
find_byte-append c (x ∷ a) b e = elim (Bool-cases (x == c)) [
  | inl t ↦ absurd (not_found c x a t e)
  | inr f ↦
      let later : find_byte c a ≡ none = still_not_found c x a f e in
      rw (f, find_byte-append c a b later) refl
]
