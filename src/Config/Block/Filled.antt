-- ===== src/Config/Block/Filled.antt =====
-- The directives of which the program reads the first value without a look at how many there are.
use server_x.Common.{
  Anything, ensures_any, returns, throws, out_of_range, ◌>>=◌, if◌then◌else◌, Bool, true, false,
  Ensures, value_with, ensures-bind, ◌<◌, ◌≡◌, refl, ap, inl, inr, sym, ◌∙◌, Bool-cases, Bool, true,
  ◌||◌, Option, none, some, List, [], ◌∷◌, arith, if◌then◌else◌, if-true, if-false, length,
  length-append, Bytes, codes, beq, beq_iff, lookup, insert, lookup-insert,
}
use mathlib.Core.Path.{subst}
use server_x.Config.Argument.{Argument}
use server_x.Config.Block.{
  Block, new_block, add, push_arg, set_root, set_first, root, has, get, first_raw,
  get_first_raw_value,
}

unfoldable pub is_read_first : Bytes → Bool
is_read_first k = beq k (codes "root") || beq k (codes "upload_path")

-- Where such a directive is there, it has a value.
abbrev pub Filled : Block → Type 0
Filled b =
    (k : Bytes) (vs : List Argument)
    → is_read_first k ≡ true
    → lookup k b.directives ≡ some vs
    → 0 < length vs

pub new_block-Filled : (name : Bytes) → Filled (new_block name)
unfolding lookup
new_block-Filled name k vs r e = absurd (cc)

or_empty : Option (List Argument) → List Argument
or_empty none = []
or_empty (some vs) = vs

-- What is stored under a name.
stored :
    (key k : Bytes) (vs ws : List Argument) (b : Block)
    → Filled b
    → (is_read_first key ≡ true → 0 < length vs)
    → is_read_first k ≡ true
    → (if beq key k then some vs else lookup k b.directives) ≡ some ws
    → 0 < length ws
unfolding or_empty
stored key k vs ws b f p r e = elim (Bool-cases (beq key k)) [
  | inl q ↦
      subst (λ o. 0 < length (or_empty o)) (sym (if-true _ _ q) ∙ e)
        (p (ap is_read_first ((beq_iff key k).0 q) ∙ r))
  | inr q ↦ f k ws r (sym (if-false _ _ q) ∙ e)
]

insert-Filled :
    (key : Bytes) (vs : List Argument) (b : Block)
    → Filled b
    → (is_read_first key ≡ true → 0 < length vs)
    → Filled (record b { directives = insert key vs b.directives })
insert-Filled key vs b f p k ws r e =
    stored key k vs ws b f p r (sym (lookup-insert key k vs b.directives) ∙ e)

pub add-Filled :
    (key : Bytes) (vs : List Argument) (b : Block)
    → Filled b
    → (is_read_first key ≡ true → 0 < length vs)
    → Filled (add key vs b)
unfolding add
add-Filled key vs b f p = insert-Filled key vs b f p

pub push_arg-Filled :
    (key : Bytes) (a : Argument) (b : Block) → Filled b → Filled (push_arg key a b)
unfolding push_arg
push_arg-Filled key a b f = insert-Filled key _ b f λ _. omega (arith, length-append _ (a ∷ []))

set_first-Ensures :
    (path : Bytes) (o : Option (List Argument))
    → ((vs : List Argument) → o ≡ some vs → 0 < length vs)
    → Ensures (λ vs. 0 < length vs) (set_first path o)
unfolding set_first
set_first-Ensures path none h = value_with _ (omega arith)
set_first-Ensures path (some []) h = absurd (omega (arith, h [] refl))
set_first-Ensures path (some (a ∷ rest)) h = value_with _ (omega arith)

pub set_root-Ensures : (path : Bytes) (b : Block) → Filled b → Ensures Filled (set_root path b)
unfolding set_root is_read_first beq
set_root-Ensures path b f =
    ensures-bind (λ vs. 0 < length vs) _
      (set_first-Ensures path (lookup (codes "root") b.directives)
        (λ vs e. f (codes "root") vs refl e))
      λ vs l. value_with _ (insert-Filled (codes "root") vs b f (λ _. l))

pub root-Ensures : (b : Block) → Filled b → Ensures Anything (root b)
unfolding root has get_first_raw_value get first_raw is_read_first beq
root-Ensures b f =
    by_values (lookup (codes "root") b.directives) (λ vs e. f (codes "root") vs refl e)
  where
    by_values :
        (o : Option (List Argument))
        → ((vs : List Argument) → o ≡ some vs → 0 < length vs)
        → Ensures Anything (
            if (elim o [ none ↦ false | some _ ↦ true ])
            then (elim o [ none ↦ throws out_of_range | some args ↦ returns args ] >>= first_raw)
            else returns [])
    by_values none h = ensures_any _
    by_values (some []) h = absurd (omega (arith, h [] refl))
    by_values (some (a ∷ vs)) h = ensures_any _
