-- ===== src/Config/Validator/Listeners.antt =====
-- The addresses, ports and names that servers listen for, and the keys of the validator's map that stand
-- for them.
use server_x.Common.{
  ◌≢◌, ==_iff, Bool-cases, append_assoc, inl, inr, true-not_false, is_all_digit, is_digit, ℕ, ◌==◌,
  Option, none, some, map, codes, ◌≡◌, refl, sym, ap, ◌∙◌, Bool, true, false, not, ◌&&◌, ◌||◌, List,
  [], ◌∷◌, ◌++◌, arith, Bytes, beq, beq_iff, lookup,
}
use server_x.Config.Argument.Decimal.{to_string-inj, is_all_digit-to_string}
use server_x.Config.Argument.{get_raw_value, to_string}
use server_x.Config.Server.{ServerBlock}
use server_x.Config.Validator.{listen_key}

-- The names of a server, and the empty one for a server without a name.
unfoldable pub names_of : ServerBlock → List Bytes
names_of s = elim (lookup (codes "server_name") s.block.directives) [
  | none ↦ [] ∷ []
  | some [] ↦ [] ∷ []
  | some (a ∷ args) ↦ map get_raw_value (a ∷ args)
]

-- A name that a server has at an address and a port.
pub record Listener : Type 0 where
  pub address : Bytes
  pub port : Option ℕ
  pub name : Bytes

abbrev pub same_number : Option ℕ → Option ℕ → Bool
same_number none none = true
same_number (some p) (some q) = p == q
same_number _ _ = false

unfoldable pub same_listener : Listener → Listener → Bool
same_listener a b = beq a.address b.address && (same_number a.port b.port && beq a.name b.name)

listeners_of : Bytes → Option ℕ → List Bytes → List Listener
listeners_of address port [] = []
listeners_of address port (n ∷ ns) =
    record { address = address; port = port; name = n } ∷ listeners_of address port ns

-- In the order of the file.
unfoldable pub all_listeners : List ServerBlock → List Listener
unfolding listeners_of names_of
all_listeners [] = []
all_listeners (s ∷ ss) = listeners_of s.address s.port (names_of s) ++ all_listeners ss

unfoldable pub is_among : Listener → List Listener → Bool
unfolding same_listener
is_among a [] = false
is_among a (b ∷ bs) = same_listener a b || is_among a bs

unfoldable pub all_differ : List Listener → Bool
unfolding is_among
all_differ [] = true
all_differ (a ∷ bs) = not (is_among a bs) && all_differ bs

-- The same with the key of the map.
unfoldable pub with_key : Bytes → List Bytes → List (Bytes × Bytes)
with_key key [] = []
with_key key (n ∷ ns) = (key, n) ∷ with_key key ns

unfoldable pub listeners : List ServerBlock → List (Bytes × Bytes)
unfolding with_key names_of
listeners [] = []
listeners (s ∷ ss) = with_key (listen_key s) (names_of s) ++ listeners ss

unfoldable pub occurs : Bytes × Bytes → List (Bytes × Bytes) → Bool
occurs p [] = false
occurs p (q ∷ qs) = (beq p.0 q.0 && beq p.1 q.1) || occurs p qs

unfoldable pub distinct : List (Bytes × Bytes) → Bool
unfolding occurs
distinct [] = true
distinct (p ∷ ps) = not (occurs p ps) && distinct ps

first : ℕ → Bytes → ℕ
first d [] = d
first d (c ∷ _) = c

rest : Bytes → Bytes
rest [] = []
rest (_ ∷ cs) = cs

cons : {c d : ℕ} {a b : Bytes} → c ≡ d → a ≡ b → ◌≡◌ {A = Bytes} (c ∷ a) (d ∷ b)
cons p q = cc

-- A text without a colon, and where a key is cut.
no_colon : Bytes → Bool
no_colon [] = true
no_colon (c ∷ cs) = not (c == b':') && no_colon cs

no_colon-middle : (b y : Bytes) → no_colon (b ++ (b':' ∷ y)) ≢ true
unfolding no_colon
no_colon-middle [] y e = cc
no_colon-middle (c ∷ b) y e = no_colon-middle b y (ground arith)

no_colon-digits : (ds : Bytes) → is_all_digit ds ≡ true → no_colon ds ≡ true
unfolding no_colon is_all_digit is_digit
no_colon-digits [] e = refl
no_colon-digits (c ∷ ds) e = ground (arith, no_colon-digits ds)

colon-inj :
    (a b x y : Bytes)
    → no_colon x ≡ true
    → no_colon y ≡ true
    → a ++ (b':' ∷ x) ≡ b ++ (b':' ∷ y)
    → (a ≡ b) × (x ≡ y)
unfolding no_colon rest first
colon-inj [] [] x y h k e = (refl, cc)
colon-inj [] (c ∷ b) x y h k e = absurd (no_colon-middle b y (ap no_colon (sym (ap rest e)) ∙ h))
colon-inj (c ∷ a) [] x y h k e = absurd (no_colon-middle a x (ap no_colon (ap rest e) ∙ k))
colon-inj (c ∷ a) (d ∷ b) x y h k e =
    let later = colon-inj a b x y h k (ap rest e) in (cons (ap (first 0) e) later.0, later.1)

port_text : Option ℕ → Bytes
port_text o = elim o [ none ↦ codes "-1" | some p ↦ to_string p ]

port_text-no_colon : (o : Option ℕ) → no_colon (port_text o) ≡ true
unfolding port_text no_colon
port_text-no_colon none = refl
port_text-no_colon (some p) = no_colon-digits (to_string p) (is_all_digit-to_string p)

not_negative : (p : ℕ) → to_string p ≢ codes "-1"
unfolding is_all_digit is_digit
not_negative p e = absurd (true-not_false (sym (is_all_digit-to_string p) ∙ ap is_all_digit e))

port_text-inj : (o u : Option ℕ) → port_text o ≡ port_text u → same_number o u ≡ true
unfolding port_text
port_text-inj none none e = refl
port_text-inj none (some q) e = absurd (not_negative q (sym e))
port_text-inj (some p) none e = absurd (not_negative p e)
port_text-inj (some p) (some q) e = (==_iff p q).1 (to_string-inj p q e)

same_number_eq : (o u : Option ℕ) → same_number o u ≡ true → o ≡ u
same_number_eq none none e = refl
same_number_eq (some p) (some q) e = ap some ((==_iff p q).0 e)
same_number_eq none (some q) e = cc
same_number_eq (some p) none e = cc

key : Bytes → Option ℕ → Bytes
key a o = a ++ (b':' ∷ port_text o)

both : {x y : Bool} → (x && y) ≡ true → (x ≡ true) × (y ≡ true)
both e = (ground arith, ground arith)

and_true : {x y : Bool} → x ≡ true → y ≡ true → (x && y) ≡ true
and_true p q = rw (p, q) refl

key-same : (a b : Bytes) (o u : Option ℕ) → beq (key a o) (key b u) ≡ (beq a b && same_number o u)
unfolding key
key-same a b o u = elim (Bool-cases (beq a b && same_number o u)) [
  | inl e ↦
      let p : a ≡ b = (beq_iff a b).0 (both e).0 in
      let q : o ≡ u = same_number_eq o u (both e).1 in
      (beq_iff (key a o) (key b u)).1 (ap (λ x. key x o) p ∙ ap (key b) q) ∙ sym e
  | inr e ↦ elim (Bool-cases (beq (key a o) (key b u))) [
    | inr f ↦ f ∙ sym e
    | inl f ↦
        let parts =
          colon-inj a b (port_text o) (port_text u) (port_text-no_colon o) (port_text-no_colon u)
            ((beq_iff (key a o) (key b u)).0 f) in
        absurd (
          true-not_false (sym (and_true ((beq_iff a b).1 parts.0) (port_text-inj o u parts.1)) ∙ e))
  ]
]

listen_key-key : (s : ServerBlock) → listen_key s ≡ key s.address s.port
unfolding listen_key key port_text
listen_key-key s = append_assoc s.address (codes ":") (port_text s.port)

-- A listener under the key of its server.
key_of : Listener → Bytes × Bytes
key_of a = (key a.address a.port, a.name)

listeners_of-with_key :
    (a : Bytes) (o : Option ℕ) (ns : List Bytes)
    → with_key (key a o) ns ≡ map key_of (listeners_of a o ns)
unfolding with_key listeners_of key_of
listeners_of-with_key a o [] = refl
listeners_of-with_key a o (n ∷ ns) = ap (λ r. (key a o, n) ∷ r) (listeners_of-with_key a o ns)

map-key_of-append : (xs ys : List Listener) → map key_of (xs ++ ys) ≡ map key_of xs ++ map key_of ys
map-key_of-append [] ys = refl
map-key_of-append (x ∷ xs) ys = ap (λ r. key_of x ∷ r) (map-key_of-append xs ys)

listeners-map : (ss : List ServerBlock) → listeners ss ≡ map key_of (all_listeners ss)
unfolding listeners all_listeners
listeners-map [] = refl
listeners-map (s ∷ ss) =
    let mine = listeners_of s.address s.port (names_of s) in
    ap (λ k. with_key k (names_of s) ++ listeners ss) (listen_key-key s)
    ∙ ap (λ l. l ++ listeners ss) (listeners_of-with_key s.address s.port (names_of s))
    ∙ ap (λ r. map key_of mine ++ r) (listeners-map ss)
    ∙ sym (map-key_of-append mine (all_listeners ss))

occurs-is_among :
    (a : Listener) (bs : List Listener) → occurs (key_of a) (map key_of bs) ≡ is_among a bs
unfolding occurs is_among key_of same_listener
occurs-is_among a [] = refl
occurs-is_among a (b ∷ bs) =
    ground (arith, key-same a.address b.address a.port b.port, occurs-is_among a bs)

distinct-all_differ : (bs : List Listener) → distinct (map key_of bs) ≡ all_differ bs
unfolding distinct all_differ
distinct-all_differ [] = refl
distinct-all_differ (b ∷ bs) = rw (occurs-is_among b bs, distinct-all_differ bs) refl

pub distinct-listeners :
    (ss : List ServerBlock) → distinct (listeners ss) ≡ all_differ (all_listeners ss)
distinct-listeners ss = ap distinct (listeners-map ss) ∙ distinct-all_differ (all_listeners ss)
