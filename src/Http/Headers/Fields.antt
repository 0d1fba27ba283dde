-- ===== src/Http/Headers/Fields.antt =====
-- The header fields as a map whose keys ignore the case of letters.
use server_x.Common.{
  false, none, some, ◌≡◌, sym, ◌∙◌, if◌then◌else◌, if-true, if-false, Bool-cases, inl, inr, Bytes,
  is_empty, beq, to_lower, lookup-insert, lookup-erase,
}
use server_x.Http.Headers.{Headers, add, get?, erase_key}

add-eq :
    (key value : Bytes) (h : Headers) (other : Bytes)
    → is_empty key ≡ false
    → get? other (add key value h)
      ≡ (if beq (to_lower key) (to_lower other) then some value else get? other h)
unfolding add get?
add-eq key value h other e = rw e (lookup-insert (to_lower key) (to_lower other) value h)

erase_key-eq :
    (key : Bytes) (h : Headers) (other : Bytes)
    → get? other (erase_key key h)
      ≡ (if beq (to_lower key) (to_lower other) then none else get? other h)
unfolding erase_key get?
erase_key-eq key h other = lookup-erase (to_lower key) (to_lower other) h

-- The last value that `add` was given for a name is what `get` finds, under every spelling of the
-- name that differs in the case of letters only; what it finds under any other name is what it
-- found before, and behind `erase` the name is not found under any spelling.
pub get-add :
    (key value : Bytes) (h : Headers) (other : Bytes)
    → is_empty key ≡ false
    → (get? other (add key value h)
        ≡ (if beq (to_lower key) (to_lower other) then some value else get? other h))
      × (get? other (erase_key key (add key value h))
          ≡ (if beq (to_lower key) (to_lower other) then none else get? other h))
get-add key value h other e =
    let is = beq (to_lower key) (to_lower other) in
    (
      add-eq key value h other e,
      erase_key-eq key (add key value h) other ∙ elim (Bool-cases is) [
        | inl t ↦ if-true _ _ t ∙ sym (if-true _ _ t)
        | inr f ↦
            if-false _ _ f ∙ add-eq key value h other e ∙ if-false _ _ f ∙ sym (if-false _ _ f)
      ],
    )
