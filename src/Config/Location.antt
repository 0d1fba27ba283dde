-- ===== src/Config/Location.antt =====
-- src/config/LocationBlock.cpp and inc/config/LocationBlock.hpp. The pointer to the parent is not
-- modelled: nothing reads it.
use server_x.Common.{Bool, false, [], Bytes, codes}
use server_x.Config.Block.{Block, new_block, has}

pub data MatchType : Type 0 where
  prefix extension_match : MatchType

pub record LocationBlock : Type 0 where
  pub block : Block
  pub path : Bytes
  pub match_type : MatchType
  pub extension : Bytes
  pub auto_index : Bool

-- The constructor.
abbrev pub new_location : LocationBlock
new_location = record {
  block = new_block (codes "location");
  path = [];
  match_type = prefix;
  extension = [];
  auto_index = false;
}

abbrev pub has_cgi_pass : LocationBlock → Bool
has_cgi_pass l = has (codes "cgi_pass") l.block
