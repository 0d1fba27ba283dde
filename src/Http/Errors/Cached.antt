-- ===== src/Http/Errors/Cached.antt =====
-- The static maps of the error bodies change nothing but the time it takes.
use server_x.Common.{
  ◌≡◌, refl, sym, ap, ap₂, ◌∙◌, ◌&&◌, Option, none, some, [], ◌∷◌, arith, ◌==◌, if-holds, All,
  Bytes, beq, beq_iff,
}
use server_x.Http.Status.{HttpStatus, value, to_http_status, to_http_status-value}
use server_x.Http.Errors.{Cache, find_page, or_new, get_cached}

-- Every body in the map is the one that would be made.
abbrev pub Faithful : (HttpStatus → Bytes → Bytes) → Cache → Type 0
Faithful create = All (λ e. e.page ≡ create e.code e.message)

some-inj {ℓ} : {A : Type ℓ} (a b : A) → ◌≡◌ {A = Option A} (some a) (some b) → a ≡ b
some-inj a b e = cc

value-inj : (s t : HttpStatus) → value s ≡ value t → s ≡ t
value-inj s t e = sym (to_http_status-value s) ∙ ap to_http_status e ∙ to_http_status-value t

module _ (create : HttpStatus → Bytes → Bytes) (code : HttpStatus) (message : Bytes) where
  found_page :
      (cache : Cache) (page : Bytes)
      → Faithful create cache
      → find_page code message cache ≡ some page
      → page ≡ create code message
  unfolding find_page
  found_page [] page h e = absurd cc
  found_page (x ∷ xs) page h e =
      if-holds (λ o. o ≡ some page → page ≡ create code message)
        (value x.code == value code && beq x.message message)
        (λ b q.
          some-inj page x.page (sym q)
          ∙ h.0
          ∙ ap₂ create (value-inj x.code code (ground arith))
              ((beq_iff x.message message).0 (ground arith)))
        (λ b q. found_page xs page h.1 q) e

  or_new-Faithful :
      (cache : Cache) (o : Option Bytes)
      → Faithful create cache
      → ((page : Bytes) → o ≡ some page → page ≡ create code message)
      → ((or_new create code message cache o).0 ≡ create code message)
        × Faithful create (or_new create code message cache o).1
  unfolding or_new
  or_new-Faithful cache (some page) h f = (f page refl, h)
  or_new-Faithful cache none h f = (refl, (refl, h))

  -- A body from the map is the one that is made without it, and the map stays faithful.
  pub get_cached-Faithful :
      (cache : Cache)
      → Faithful create cache
      → ((get_cached create code message cache).0 ≡ create code message)
        × Faithful create (get_cached create code message cache).1
  unfolding get_cached
  get_cached-Faithful cache h =
      or_new-Faithful cache (find_page code message cache) h λ page e. found_page cache page h e
