-- ===== src/Config/Build/Tests.antt =====
-- The configuration's pipeline on concrete texts.
use server_x.Common.{
  ℕ, ◌*◌, ◌≡◌, refl, Bool, true, false, List, [], ◌∷◌, ◌++◌, All, arith, Bytes, codes, Result,
  returns, throws, config_error,
}
use server_x.Config.Argument.{text, variable_part}
use server_x.Config.Factory.{concatenated_parts}
use server_x.Config.Factory.Unparse.{unparse, unparse-concatenated_parts}
use server_x.Config.Directives.BodySize.{size_of, size_of_exact, lower_k}
use server_x.Config.Server.{ServerBlock, new_server}
use server_x.Config.Servers.{ServerBlockMap}
use server_x.Config.Validator.{validate_global_constraints}
use server_x.Config.Validator.Distinct.{validate_global_constraints-distinct}
use server_x.Config.Build.{build}
use server_x.Config.Build.Ports.{IsBound, FilledPort, build-IsBound, build-Filled, build_error}

abbrev no_address : Bytes → Bool
no_address s = false

abbrev sample : Bytes
sample = codes "server { listen 8080; root www; location /a { autoindex on; } }"

abbrev or_nothing : Result ServerBlockMap → ServerBlockMap
or_nothing (returns m) = m
or_nothing (throws _) = []

abbrev served : ServerBlockMap
served = or_nothing (build no_address sample)

build-IsBound_example : All IsBound served
unfolding build server_x.Common.is_all_digit server_x.Common.beq server_x.Config.Directives.listen
    server_x.Common.require server_x.Config.Directives.root server_x.Config.Directives.autoindex
    server_x.Common.to_lower
build-IsBound_example = build-IsBound no_address sample served refl

build-Filled_example : All FilledPort served
unfolding build server_x.Common.is_all_digit server_x.Common.beq server_x.Config.Directives.listen
    server_x.Common.require server_x.Config.Directives.root server_x.Config.Directives.autoindex
    server_x.Common.to_lower
build-Filled_example = build-Filled no_address sample served refl

build_error_example : config_error ≡ config_error
unfolding build server_x.Common.is_all_digit server_x.Common.beq server_x.Config.Directives.listen
    server_x.Common.require
build_error_example = build_error no_address (codes "server { listen 0; }") config_error refl

size_of_exact_example : size_of (codes "12k") ≡ returns (12 * 1024)
unfolding server_x.Config.Directives.BodySize.multiplier server_x.Common.is_all_digit
    server_x.Common.read_digits
size_of_exact_example = size_of_exact (codes "12") 107 1024 lower_k refl refl

unparse-concatenated_parts_example :
    unparse (text (codes "a") ∷ variable_part (codes "host") ∷ text (codes "/") ∷ [])
    ≡ codes "a$host/"
unfolding concatenated_parts
unparse-concatenated_parts_example =
    unparse-concatenated_parts 7 (codes "a$host/")
      (text (codes "a") ∷ variable_part (codes "host") ∷ text (codes "/") ∷ []) (omega arith) refl

abbrev two_servers : List ServerBlock
two_servers = new_server ∷ new_server ∷ []

validate_global_constraints-distinct_example :
    validate_global_constraints two_servers ≡ throws config_error
unfolding server_x.Config.Validator.Listeners.all_differ
    server_x.Config.Validator.Listeners.all_listeners server_x.Common.lookup server_x.Common.beq
    server_x.Config.Validator.Listeners.names_of
validate_global_constraints-distinct_example = validate_global_constraints-distinct two_servers
