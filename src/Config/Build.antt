-- ===== src/Config/Build.antt =====
-- src/config/ServerConfig.cpp: `build`, from the text of a configuration to the servers under
-- their ports.
mod Tests
pub mod Ports
use server_x.Common.{Bool, [], Bytes, Result, returns, ◌>>=◌}
use server_x.Config.Lexer.{tokenize}
use server_x.Config.Parser.{parse}
use server_x.Config.Mapper.{map_servers}
use server_x.Config.Validator.{validate}
use server_x.Config.Servers.{ServerBlockMap, add_servers}

unfoldable pub build : (Bytes → Bool) → Bytes → Result ServerBlockMap
unfolding tokenize parse map_servers validate add_servers
build inet_pton content =
    parse (tokenize content) >>= map_servers inet_pton >>= validate >>= λ servers.
    returns (add_servers [] servers)
