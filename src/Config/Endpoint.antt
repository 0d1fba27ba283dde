-- ===== src/Config/Endpoint.antt =====
-- src/config/internal/utils.cpp: addresses and ports of `listen`. `inet_pton` for IPv4 is an
-- argument.
pub mod Ports
use server_x.Common.{
  ℕ, ◌+◌, ◌-◌, ◌^◌, Bool, not, ◌&&◌, Option, none, some, [], ltb, leb, if◌then◌else◌, length, take,
  drop, Bytes, codes, beq, is_empty, is_all_digit, find_byte, from_string,
}

-- `port` is -1 where there is none: `none`.
pub record IpInfo : Type 0 where
  pub ip : Bytes
  pub port : Option ℕ

module _ (inet_pton : Bytes → Bool) where
  unfoldable pub is_valid_ipv4 : Bytes → Bool
  is_valid_ipv4 s = not (is_empty s) && (leb 7 (length s) && (leb (length s) 15 && inet_pton s))

-- `isValidPort(int)`, and of a text.
abbrev pub is_valid_port_number : ℕ → Bool
is_valid_port_number port = ltb 0 port && leb port 65535

abbrev pub int_max : ℕ
int_max = 2 ^ 31 - 1

unfoldable pub is_valid_port : Bytes → Bool
unfolding is_all_digit from_string
is_valid_port v =
    not (is_empty v)
    && (leb (length v) 5 && (is_all_digit v && is_valid_port_number (from_string int_max v)))

abbrev localhost_address : Bytes
localhost_address = codes "127.0.0.1"

module _ (inet_pton : Bytes → Bool) where
  -- Without a colon.
  alone : Bytes → Option IpInfo
  unfolding is_valid_port from_string is_valid_ipv4
  alone s =
      if is_valid_port s
      then some (record { ip = []; port = some (from_string int_max s) })
      else if is_valid_ipv4 inet_pton s
      then some (record { ip = s; port = none })
      else if beq s (codes "localhost")
      then some (record { ip = localhost_address; port = none })
      else none

  both : Bytes → Bytes → Option IpInfo
  unfolding is_valid_port from_string is_valid_ipv4
  both ip_part port_part =
      let ip = if beq ip_part (codes "localhost") then localhost_address else ip_part in
      if not (is_valid_ipv4 inet_pton ip)
      then none
      else if not (is_valid_port port_part)
      then none
      else some (record { ip = ip; port = some (from_string int_max port_part) })

  at_colon : Bytes → Option ℕ → Option IpInfo
  unfolding alone both
  at_colon s none = alone s
  at_colon s (some cpos) = both (take cpos s) (drop (cpos + 1) s)

  -- `extractIpInfo`; `none` for the result false.
  unfoldable pub extract_ip_info : Bytes → Option IpInfo
  unfolding at_colon find_byte
  extract_ip_info s = if is_empty s then none else at_colon s (find_byte b':' s)
