-- ===== src/Network/Events.antt =====
-- src/network/EventDispatcher.cpp: which handlers the event loop calls, and when it deletes them. A
-- handler is its address, a number, which is not used again for another handler; `fd_of` tells its
-- descriptor, `none` below 0. `deleted` and `misused` record what has been deleted, and whether a
-- deleted handler has been used or deleted again. What a handler's destructor does to the
-- dispatcher is not modelled.

pub mod Safety
use server_x.Common.{
  ℕ, Bool, true, false, not, ◌&&◌, ◌||◌, Option, none, some, List, [], ◌∷◌, ◌==◌, if◌then◌else◌,
}

-- EPOLLIN and EPOLLOUT of a mask; no other bits are ever set.
pub record Mask : Type 0 where
  pub reads : Bool
  pub writes : Bool

pub record Dispatcher : Type 0 where
  pub handlers : List (ℕ × ℕ)
  pub pending : List ℕ
  pub active : List ℕ
  pub registered : List (ℕ × Mask)
  pub told : List (ℕ × Mask)
  pub deleted : List ℕ
  pub misused : Bool

abbrev pub new_dispatcher : Dispatcher
new_dispatcher = record {
  handlers = [];
  pending = [];
  active = [];
  registered = [];
  told = [];
  deleted = [];
  misused = false;
}

-- `std::set<IEventHandler *>`.
unfoldable pub member : ℕ → List ℕ → Bool
member h [] = false
member h (x ∷ xs) = x == h || member h xs

unfoldable pub put : ℕ → List ℕ → List ℕ
unfolding member
put h xs = if member h xs then xs else h ∷ xs

unfoldable pub remove_from : ℕ → List ℕ → List ℕ
remove_from h [] = []
remove_from h (x ∷ xs) = let rest = remove_from h xs in if x == h then rest else x ∷ rest

-- `std::map<int, V>`, and the member `registeredEvents_` of each handler.
unfoldable pub set_at {ℓ} : {V : Type ℓ} → ℕ → V → List (ℕ × V) → List (ℕ × V)
set_at k v [] = (k, v) ∷ []
set_at k v ((j, w) ∷ m) = if j == k then (k, v) ∷ m else (j, w) ∷ set_at k v m

unfoldable pub drop_at {ℓ} : {V : Type ℓ} → ℕ → List (ℕ × V) → List (ℕ × V)
drop_at k [] = []
drop_at k ((j, w) ∷ m) = let rest = drop_at k m in if j == k then rest else (j, w) ∷ rest

abbrev pub no_events : Mask
no_events = record { reads = false; writes = false }

unfoldable pub mask_of : ℕ → List (ℕ × Mask) → Mask
mask_of h [] = no_events
mask_of h ((j, w) ∷ m) = if j == h then w else mask_of h m

abbrev same_mask : Mask → Mask → Bool
same_mask a b =
    (if a.reads then b.reads else not b.reads) && (if a.writes then b.writes else not b.writes)

-- The calls of the dispatcher that a handler may make.
pub data Op : Type 0 where
  registers removes enables_read enables_write disables_read disables_write : ℕ → Op

-- The loop of `cleanUpGarbage`.
unfoldable pub delete_all : List ℕ → Dispatcher → Dispatcher
unfolding member
delete_all [] d = d
delete_all (h ∷ hs) d =
    delete_all hs (record d { deleted = h ∷ d.deleted; misused = d.misused || member h d.deleted })

unfoldable pub clean_up_garbage : Dispatcher → Dispatcher
unfolding delete_all
clean_up_garbage d = record (delete_all d.pending d) { pending = [] }

-- A use of a handler, which must not be deleted: a call of `handleEvent` or `getFd`, or an access to
-- its events.
unfoldable pub use_of : ℕ → Dispatcher → Dispatcher
unfolding member
use_of h d = record d { misused = d.misused || member h d.deleted }

module _ (fd_of : ℕ → Option ℕ) where
  -- `epollManager_.addHandler` and `modifyHandler` of the descriptor.
  tell : ℕ → Mask → List (ℕ × Mask) → List (ℕ × Mask)
  unfolding set_at
  tell h m t = elim (fd_of h) [ none ↦ t | some fd ↦ set_at fd m t ]

  register_at : Option ℕ → ℕ → Dispatcher → Dispatcher
  unfolding put set_at tell use_of
  register_at none h d = use_of h d
  register_at (some fd) h d = record (use_of h d) {
    active = put h d.active;
    handlers = set_at fd h d.handlers;
    registered = set_at h (record { reads = true; writes = false }) d.registered;
    told = tell h (record { reads = true; writes = false }) d.told;
  }

  unfoldable pub register_handler : ℕ → Dispatcher → Dispatcher
  unfolding register_at
  register_handler h d = register_at (fd_of h) h d

  unfoldable pub remove_handler : ℕ → Dispatcher → Dispatcher
  unfolding put remove_from drop_at tell use_of
  remove_handler h d = record (use_of h d) {
    active = remove_from h d.active;
    told = tell h no_events d.told;
    handlers = elim (fd_of h) [ none ↦ d.handlers | some fd ↦ drop_at fd d.handlers ];
    pending = put h d.pending;
  }

  unfoldable pub update_event_mask : ℕ → Mask → Dispatcher → Dispatcher
  unfolding mask_of set_at tell use_of
  update_event_mask h m d =
      if same_mask (mask_of h d.registered) m
      then use_of h d
      else record (use_of h d) { told = tell h m d.told; registered = set_at h m d.registered }

  unfoldable pub enable_read : ℕ → Dispatcher → Dispatcher
  unfolding update_event_mask mask_of
  enable_read h d = update_event_mask h (record (mask_of h d.registered) { reads = true }) d

  unfoldable pub enable_write : ℕ → Dispatcher → Dispatcher
  unfolding update_event_mask mask_of
  enable_write h d = update_event_mask h (record (mask_of h d.registered) { writes = true }) d

  unfoldable pub disable_read : ℕ → Dispatcher → Dispatcher
  unfolding update_event_mask mask_of
  disable_read h d = update_event_mask h (record (mask_of h d.registered) { reads = false }) d

  unfoldable pub disable_write : ℕ → Dispatcher → Dispatcher
  unfolding update_event_mask mask_of
  disable_write h d = update_event_mask h (record (mask_of h d.registered) { writes = false }) d

  unfoldable pub apply : Op → Dispatcher → Dispatcher
  unfolding register_handler remove_handler enable_read enable_write disable_read disable_write
  apply (registers h) d = register_handler h d
  apply (removes h) d = remove_handler h d
  apply (enables_read h) d = enable_read h d
  apply (enables_write h) d = enable_write h d
  apply (disables_read h) d = disable_read h d
  apply (disables_write h) d = disable_write h d

  unfoldable pub apply_all : List Op → Dispatcher → Dispatcher
  unfolding apply
  apply_all [] d = d
  apply_all (o ∷ os) d = apply_all os (apply o d)

  -- What `handleEvent` does: the calls it makes, and whether it throws in the end.
  module _ (handle_event : ℕ → Mask → Dispatcher → List Op × Bool) where
    -- What happens to an active handler; one that throws is removed.
    called : ℕ → Mask → Dispatcher → Dispatcher
    unfolding apply_all remove_handler
    called h events d =
        let did = handle_event h events d in
        let after = apply_all did.0 d in if did.1 then remove_handler h after else after

    -- An event of a handler that is still active.
    unfoldable pub deliver : ℕ → Mask → Dispatcher → Dispatcher
    unfolding called use_of member
    deliver h events d = if member h d.active then called h events (use_of h d) else d

    unfoldable pub deliver_all : List (ℕ × Mask) → Dispatcher → Dispatcher
    unfolding deliver
    deliver_all [] d = d
    deliver_all ((h, events) ∷ es) d = deliver_all es (deliver h events d)

    -- A round of `handleEvents`: the events that `epoll_wait` reports, none at a timeout or an
    -- error, and the clean-up.
    unfoldable pub round : List (ℕ × Mask) → Dispatcher → Dispatcher
    unfolding deliver_all clean_up_garbage
    round events d = clean_up_garbage (deliver_all events d)

    unfoldable pub rounds : List (List (ℕ × Mask)) → Dispatcher → Dispatcher
    unfolding round
    rounds [] d = d
    rounds (es ∷ ess) d = rounds ess (round es d)
