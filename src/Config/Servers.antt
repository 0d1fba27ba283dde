-- ===== src/Config/Servers.antt =====
-- src/config/ServerConfig.cpp: the configured servers, in the order of the file, under their
-- ports, and the choice of the one for a request.
pub mod Choice
use server_x.Common.{
  ℕ, Bool, true, false, Option, none, some, List, [], ◌∷◌, ◌++◌, ◌==◌, if◌then◌else◌, take, Bytes,
  codes, find_byte, Result, returns, ◌>>=◌,
}
use server_x.Config.Block.{has, get_raw_values}
use server_x.Config.Server.{ServerBlock, match_server_name}

-- `std::map<int, ServerBlockVec>`; the order of its keys plays no part.
abbrev pub ServerBlockMap : Type 0
ServerBlockMap = List (Option ℕ × List ServerBlock)

unfoldable pub same_port : Option ℕ → Option ℕ → Bool
same_port none none = true
same_port (some a) (some b) = a == b
same_port _ _ = false

-- `servers_.find(port)`.
unfoldable pub blocks_at : Option ℕ → ServerBlockMap → Option (List ServerBlock)
unfolding same_port
blocks_at port [] = none
blocks_at port ((p, blocks) ∷ m) = if same_port p port then some blocks else blocks_at port m

-- `servers_[server.port()].push_back(server)`.
unfoldable pub add_server : ServerBlock → ServerBlockMap → ServerBlockMap
unfolding same_port
add_server s [] = (s.port, s ∷ []) ∷ []
add_server s ((p, blocks) ∷ m) =
    if same_port p s.port then (p, blocks ++ (s ∷ [])) ∷ m else (p, blocks) ∷ add_server s m

-- The loop at the end of `build`.
unfoldable pub add_servers : ServerBlockMap → List ServerBlock → ServerBlockMap
unfolding add_server
add_servers m [] = m
add_servers m (s ∷ ss) = add_servers (add_server s m) ss

-- The `Host` header without a port.
without_port : Bytes → Option ℕ → Bytes
without_port host none = host
without_port host (some colon_pos) = take colon_pos host

unfoldable pub host_name : Bytes → Bytes
unfolding without_port find_byte
host_name host = without_port host (find_byte b':' host)

-- Whether a block has server names, and one of them is the host's.
unfoldable pub is_named : Bytes → ServerBlock → Result Bool
unfolding match_server_name
is_named host s =
    if has (codes "server_name") s.block
    then (get_raw_values (codes "server_name") s.block >>= λ names.
        returns (match_server_name names host))
    else returns false

-- The loop of `getServer`, and the first block of all, `fallback`, behind it.
unfoldable pub first_named : Bytes → ServerBlock → List ServerBlock → Result ServerBlock
unfolding is_named
first_named host fallback [] = returns fallback
first_named host fallback (s ∷ ss) =
    is_named host s >>= λ b. if b then returns s else first_named host fallback ss

-- A port that is there has a block: `add_server` puts one.
abbrev pub choose : Bytes → Option (List ServerBlock) → Result (Option ServerBlock)
choose host none = returns none
choose host (some []) = returns none
choose host (some (s ∷ ss)) = first_named host s (s ∷ ss) >>= λ found. returns (some found)

-- `getServer`, of the value of the request's `Host`.
unfoldable pub get_server : ℕ → Bytes → ServerBlockMap → Result (Option ServerBlock)
unfolding blocks_at first_named host_name
get_server port host m = choose (host_name host) (blocks_at (some port) m)
