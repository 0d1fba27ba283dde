-- ===== src/Network/Events/Safety.antt =====
-- The event loop uses no handler that it has deleted, and deletes none twice.
use server_x.Common.{
  ℕ, ◌≡◌, refl, sym, ◌⊎◌, inl, inr, Bool, true, false, not, ◌&&◌, ◌||◌, Option, none, some, List,
  [], ◌∷◌, arith, ◌==◌, ==_iff, Bool-cases, if-holds, true-not_false,
}
use mathlib.Core.Path.{subst}
use server_x.Network.Events.{
  Mask, Dispatcher, new_dispatcher, Op, registers, removes, enables_read, enables_write,
  disables_read, disables_write, member, put, remove_from, same_mask, mask_of, register_at,
  register_handler, remove_handler, update_event_mask, enable_read, enable_write, disable_read,
  disable_write, apply, use_of,
}

member-put : (j h : ℕ) (xs : List ℕ) → member j (put h xs) ≡ ((h == j) || member j xs)
unfolding put member
member-put j h xs =
    if-holds (λ ys. member j ys ≡ ((h == j) || member j xs)) (member h xs) (λ e. grind arith)
      (λ _. refl)

member-remove_from :
    (j h : ℕ) (xs : List ℕ) → member j (remove_from h xs) ≡ (not (h == j) && member j xs)
unfolding remove_from member
member-remove_from j h [] = ground arith
member-remove_from j h (x ∷ xs) = ground (arith, member-remove_from j h xs)

-- No element twice.
unfoldable pub distinct : List ℕ → Bool
unfolding member
distinct [] = true
distinct (h ∷ hs) = not (member h hs) && distinct hs

distinct-put : (h : ℕ) (xs : List ℕ) → distinct xs ≡ true → distinct (put h xs) ≡ true
unfolding put distinct
distinct-put h xs e = ground arith

-- Handlers that may be called are alive, and those to be deleted are alive and are listed once.
pub record Good (d : Dispatcher) : Type 0 where
  pub active_alive :
      (h : ℕ)
      → member h d.active ≡ true
      → (member h d.deleted ≡ false) × (member h d.pending ≡ false)
  pub pending_alive : (h : ℕ) → member h d.pending ≡ true → member h d.deleted ≡ false
  pub pending_once : distinct d.pending ≡ true
  pub unharmed : d.misused ≡ false

pub new_dispatcher-Good : Good new_dispatcher
unfolding member distinct
new_dispatcher-Good = record {
  active_alive = λ h e. absurd (true-not_false (sym e));
  pending_alive = λ h e. absurd (true-not_false (sym e));
  pending_once = refl;
  unharmed = refl;
}

-- A handler registers objects that are new or still registered, and removes, enables and disables
-- those that are not yet deleted.
abbrev pub Allowed : Op → Dispatcher → Type 0
Allowed (registers h) d = (member h d.deleted ≡ false) × (member h d.pending ≡ false)
Allowed (removes h) d = member h d.deleted ≡ false
Allowed (enables_read h) d = member h d.deleted ≡ false
Allowed (enables_write h) d = member h d.deleted ≡ false
Allowed (disables_read h) d = member h d.deleted ≡ false
Allowed (disables_write h) d = member h d.deleted ≡ false

pub use_of-Good : (h : ℕ) (d : Dispatcher) → Good d → member h d.deleted ≡ false → Good (use_of h d)
unfolding use_of
use_of-Good h d g a = record {
  active_alive = g.active_alive;
  pending_alive = g.pending_alive;
  pending_once = g.pending_once;
  unharmed = ground (arith, g.unharmed, a);
}

module _ (fd_of : ℕ → Option ℕ) where
  unfoldable pub AllAllowed : List Op → Dispatcher → Type 0
  AllAllowed [] d = Unit
  AllAllowed (o ∷ os) d = Allowed o d × AllAllowed os (apply fd_of o d)

  register_at-Good :
      (o : Option ℕ) (h : ℕ) (d : Dispatcher)
      → Good d
      → (member h d.deleted ≡ false) × (member h d.pending ≡ false)
      → Good (register_at fd_of o h d)
  unfolding register_at
  register_at-Good none h d g a = use_of-Good h d g a.0
  register_at-Good (some fd) h d g a = record {
    active_alive = λ j e. put_alive j e (Bool-cases (h == j));
    pending_alive = g.pending_alive;
    pending_once = g.pending_once;
    unharmed = (use_of-Good h d g a.0).unharmed;
  }
    where
      put_alive :
          (j : ℕ)
          → member j (put h d.active) ≡ true
          → ((h == j) ≡ true) ⊎ ((h == j) ≡ false)
          → (member j d.deleted ≡ false) × (member j d.pending ≡ false)
      put_alive j e (inl q) =
          subst (λ x. (member x d.deleted ≡ false) × (member x d.pending ≡ false))
            ((==_iff h j).0 q) a
      put_alive j e (inr q) = g.active_alive j (ground (arith, member-put j h d.active))

  remove-Good :
      (h : ℕ) (d : Dispatcher)
      → Good d
      → member h d.deleted ≡ false
      → Good (remove_handler fd_of h d)
  unfolding remove_handler
  remove-Good h d g a = record {
    active_alive = λ j e.
        ground (arith, member-remove_from j h d.active, member-put j h d.pending, g.active_alive j);
    pending_alive = λ j e. ground (arith, member-put j h d.pending, g.pending_alive j);
    pending_once = distinct-put h d.pending g.pending_once;
    unharmed = (use_of-Good h d g a).unharmed;
  }

  mask-Good :
      (h : ℕ) (m : Mask) (d : Dispatcher)
      → Good d
      → member h d.deleted ≡ false
      → Good (update_event_mask fd_of h m d)
  unfolding update_event_mask
  mask-Good h m d g a =
      let used = use_of-Good h d g a in
      if-holds Good (same_mask (mask_of h d.registered) m) (λ _. used)
        λ _. record {
          active_alive = used.active_alive;
          pending_alive = used.pending_alive;
          pending_once = used.pending_once;
          unharmed = used.unharmed;
        }

  pub apply-Good : (o : Op) (d : Dispatcher) → Good d → Allowed o d → Good (apply fd_of o d)
  unfolding apply register_handler enable_read enable_write disable_read disable_write
  apply-Good (registers h) d g a = register_at-Good (fd_of h) h d g a
  apply-Good (removes h) d g a = remove-Good h d g a
  apply-Good (enables_read h) d g a = mask-Good h _ d g a
  apply-Good (enables_write h) d g a = mask-Good h _ d g a
  apply-Good (disables_read h) d g a = mask-Good h _ d g a
  apply-Good (disables_write h) d g a = mask-Good h _ d g a

  register_at-deleted :
      (o : Option ℕ) (h : ℕ) (d : Dispatcher) → (register_at fd_of o h d).deleted ≡ d.deleted
  unfolding register_at
  register_at-deleted none h d = refl
  register_at-deleted (some fd) h d = refl

  mask-deleted :
      (h : ℕ) (m : Mask) (d : Dispatcher) → (update_event_mask fd_of h m d).deleted ≡ d.deleted
  unfolding update_event_mask
  mask-deleted h m d =
      if-holds (λ (x : Dispatcher). x.deleted ≡ d.deleted) (same_mask (mask_of h d.registered) m)
        (λ _. refl) (λ _. refl)

  pub apply-deleted : (o : Op) (d : Dispatcher) → (apply fd_of o d).deleted ≡ d.deleted
  unfolding apply register_handler remove_handler enable_read enable_write disable_read
      disable_write
  apply-deleted (registers h) d = register_at-deleted (fd_of h) h d
  apply-deleted (removes h) d = refl
  apply-deleted (enables_read h) d = mask-deleted h _ d
  apply-deleted (enables_write h) d = mask-deleted h _ d
  apply-deleted (disables_read h) d = mask-deleted h _ d
  apply-deleted (disables_write h) d = mask-deleted h _ d
