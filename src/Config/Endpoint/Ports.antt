-- ===== src/Config/Endpoint/Ports.antt =====
-- The ports that `listen` may set.
use server_x.Common.{
  ℕ, ◌+◌, ◌≤◌, ◌<◌, ◌≡◌, Bool, true, not, Option, none, some, arith, if◌then◌else◌, if-holds, take,
  drop, Bytes, codes, beq, is_empty, find_byte, from_string,
}
use server_x.Config.Endpoint.{
  IpInfo, int_max, is_valid_port, is_valid_ipv4, alone, both, at_colon, extract_ip_info,
  localhost_address,
}

-- A port that is set lies between 1 and 65535.
abbrev pub InRange : Option ℕ → Type 0
InRange none = Unit
InRange (some p) = (0 < p) × (p ≤ 65535)

abbrev pub HasPort : Option IpInfo → Type 0
HasPort none = Unit
HasPort (some i) = InRange i.port

is_valid_port_bounds :
    (v : Bytes)
    → is_valid_port v ≡ true
    → (0 < from_string int_max v) × (from_string int_max v ≤ 65535)
unfolding is_valid_port
is_valid_port_bounds v e = ground arith

module _ (inet_pton : Bytes → Bool) where
  alone-HasPort : (s : Bytes) → HasPort (alone inet_pton s)
  unfolding alone
  alone-HasPort s =
      if-holds HasPort (is_valid_port s) (λ e. is_valid_port_bounds s e)
        λ _.
          if-holds HasPort (is_valid_ipv4 inet_pton s) (λ _. tt)
            λ _. if-holds HasPort (beq s (codes "localhost")) (λ _. tt) (λ _. tt)

  both-HasPort : (ip_part port_part : Bytes) → HasPort (both inet_pton ip_part port_part)
  unfolding both
  both-HasPort ip_part port_part =
      let ip = if beq ip_part (codes "localhost") then localhost_address else ip_part in
      if-holds HasPort (not (is_valid_ipv4 inet_pton ip)) (λ _. tt)
        λ _.
          if-holds HasPort (not (is_valid_port port_part)) (λ _. tt)
            λ e. is_valid_port_bounds port_part (ground arith)

  at_colon-HasPort : (s : Bytes) (cpos : Option ℕ) → HasPort (at_colon inet_pton s cpos)
  unfolding at_colon
  at_colon-HasPort s none = alone-HasPort s
  at_colon-HasPort s (some cpos) = both-HasPort (take cpos s) (drop (cpos + 1) s)

  pub extract_ip_info-HasPort : (s : Bytes) → HasPort (extract_ip_info inet_pton s)
  unfolding extract_ip_info
  extract_ip_info-HasPort s =
      if-holds HasPort (is_empty s) (λ _. tt) λ _. at_colon-HasPort s (find_byte b':' s)
