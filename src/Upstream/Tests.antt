-- ===== src/Upstream/Tests.antt =====
-- Statements, addresses and requests at concrete inputs.
use nx_panel.Upstream.{ServerRequest, SaveRequest}
use nx_panel.Upstream.Statements.{
  scan, parse_from, parse_statements, read, tokenize_from, tokenize_statement, is_single,
  validate_directive_fragment, check_directive, write_statement, write_statements,
  normalize_advanced_directives, brace, comment, unterminated, no_semicolon, empty_statement,
  managed, includes, semicolon, max_advanced_statements, max_advanced_bytes,
}
use nx_panel.Upstream.RoundTrip.{
  IsNormal, normalize_advanced_directives-IsNormal, normalize_advanced_directives_lem,
}
use nx_panel.Upstream.Address.{
  cut_byte, cut_colons, bracketed, bare, split_host_port, digits_value, atoi, is_octet, is_ipv4,
  is_hextet, count_fields, fields_of, hextets_of, is_ipv6, is_ip, is_numeric_dotted_host, is_ascii,
  last_is_alnum, is_hostname, has_two_dots, is_bad_label, has_bracket_colon, validate_host,
  validate_address, bad_host_port, bad_port, bad_ipv4, bad_hostname, no_address,
}
use nx_panel.Upstream.Save.{
  is_upstream_name, fill_server, check_server, check_servers, check_hash_key, check_keepalive,
  fill_request, check_request, normalize_and_validate, duplicate_address,
}
use nx_panel.Upstream.Saved.{IsSaved, normalize_and_validate-IsSaved}
use nx_panel.Upstream.Again.{normalize_and_validate_again}
use nx_panel.Upstream.Render.{
  text_ltb, digits, decimal_nat, decimal, insert_stable, insert_all, sort_stable, server_less,
  trim_suffix, render_algorithm, render_server, render_servers, render_keepalive, render_lines,
  render_body, render_block,
}
use nx_panel.Upstream.Rendered.{algorithm_statements, server_statement, keepalive_statements}
use nx_panel.Upstream.Model.{
  server_to_model, servers_to_model, request_to_model, render_body-normalize_and_validate,
}
use nx_panel.Domains.{starts_with, ends_with, split_at}
use nx_panel.Base.{
  ℕ, ◌+◌, ◌≤◌, String, ◌≡◌, ◌↔◌, refl, true, false, List, [], ◌∷◌, ◌++◌, map, arith, nat_eq,
  text_eq, text_beq, length, Text, codes, lower, to_lower, trim_left, trim_space,
}
use nx_panel.Base.Int.{pos, negsuc}
use nx_panel.Base.Result.{ok, err}

opened : Unit {0}
unfolding scan parse_from parse_statements read tokenize_from tokenize_statement is_single
    validate_directive_fragment check_directive write_statement write_statements
    normalize_advanced_directives text_beq trim_space trim_left to_lower lower starts_with ends_with
    split_at cut_byte cut_colons bracketed bare split_host_port digits_value atoi is_octet is_ipv4
    is_hextet count_fields fields_of hextets_of is_ipv6 is_ip is_numeric_dotted_host is_ascii
    last_is_alnum is_hostname has_two_dots is_bad_label has_bracket_colon validate_host
    validate_address is_upstream_name fill_server check_server check_servers check_hash_key
    check_keepalive fill_request check_request normalize_and_validate text_ltb digits decimal_nat
    decimal insert_stable insert_all sort_stable server_less trim_suffix render_algorithm
    render_server render_servers render_keepalive render_lines render_body render_block
    server_to_model servers_to_model request_to_model
opened = tt

parse_tests :
    (parse_statements (codes " a b ; c 'x;{' ;\n") ≡ ok (codes "a b" ∷ codes "c 'x;{'" ∷ []))
    × (parse_statements (codes "a {") ≡ err brace)
    × (parse_statements (codes "a # b") ≡ err comment)
    × (parse_statements (codes "a 'b;") ≡ err unterminated)
    × (parse_statements (codes "a; b") ≡ err no_semicolon)
    × (parse_statements (codes "a;;") ≡ err empty_statement)
unfolding opened
parse_tests = (refl, refl, refl, refl, refl, refl)

directive_tests :
    (tokenize_statement (codes "a 'b c' d\\ e") ≡ ok (codes "a" ∷ codes "b c" ∷ codes "d e" ∷ []))
    × (normalize_advanced_directives (codes "zone z 1m;  queue 3 ;")
        ≡ ok (codes "zone z 1m;\nqueue 3;\n"))
    × (normalize_advanced_directives (codes "Server x;") ≡ err managed)
    × (normalize_advanced_directives (codes "'include' x;") ≡ err includes)
    × (normalize_advanced_directives (codes "a\\ ;") ≡ err unterminated)
    × (validate_directive_fragment (codes "$uri") ≡ ok tt)
    × (validate_directive_fragment (codes "a;b") ≡ err semicolon)
unfolding opened
directive_tests = (refl, refl, refl, refl, refl, refl, refl)

address_tests :
    (validate_address (codes "10.0.0.1:80") ≡ ok tt)
    × (validate_address (codes "[2001:db8::1]:443") ≡ ok tt)
    × (validate_address (codes "[::ffff:1.2.3.4]:443") ≡ ok tt)
    × (validate_address (codes "app-1.local:+80") ≡ ok tt)
    × (validate_address (codes "2001:db8::1") ≡ err bad_host_port)
    × (validate_address (codes "10.0.0.256:80") ≡ err bad_ipv4)
    × (validate_address (codes "a:65536") ≡ err bad_port)
    × (validate_address (codes "a_b:1") ≡ err bad_hostname)
    × (validate_address (codes "unix:/a") ≡ err no_address)
unfolding opened
address_tests = (refl, refl, refl, refl, refl, refl, refl, refl, refl)

abbrev server_of : String → ServerRequest
server_of address = record {
  address = codes address;
  weight = pos 0;
  max_fails = pos 1;
  fail_timeout_seconds = pos 0;
  backup = false;
  down = false;
  sort_order = negsuc 4;
}

abbrev saved_server : String → ServerRequest
saved_server address = record (server_of address) { weight = pos 1; fail_timeout_seconds = pos 10 }

abbrev request : SaveRequest
request = record {
  name = codes " pool";
  algorithm = codes "hash";
  hash_key = codes "$uri ";
  consistent = true;
  keepalive = pos 8;
  keepalive_requests = pos 100;
  keepalive_timeout_seconds = pos 0;
  advanced_directives = codes "zone z 1m ;";
  servers = server_of " a.test:80" ∷ server_of "b.test:80" ∷ [];
}

abbrev saved_request : SaveRequest
saved_request = record request {
  name = codes "pool";
  hash_key = codes "$uri";
  advanced_directives = codes "zone z 1m;\n";
  servers = saved_server "a.test:80" ∷ saved_server "b.test:80" ∷ [];
}

save_tests :
    (normalize_and_validate request ≡ ok saved_request)
    × (normalize_and_validate
          (record request { servers = server_of "a.test:80" ∷ server_of "A.test:80" ∷ [] })
        ≡ err duplicate_address)
unfolding opened
save_tests = (refl, refl)

abbrev directives : Text
directives = codes "zone z 1m;  queue 3 ;"

abbrev normal_directives : Text
normal_directives = codes "zone z 1m;\nqueue 3;\n"

normalize_advanced_directives-IsNormal_example : IsNormal directives normal_directives
normalize_advanced_directives-IsNormal_example =
    normalize_advanced_directives-IsNormal directives normal_directives directive_tests.1

normalize_advanced_directives_lem_example :
    (length normal_directives ≤ length directives + max_advanced_statements)
    × ((normalize_advanced_directives normal_directives ≡ ok normal_directives)
        ↔ (length normal_directives ≤ max_advanced_bytes))
normalize_advanced_directives_lem_example =
    normalize_advanced_directives_lem directives normal_directives directive_tests.1

normalize_and_validate-IsSaved_example : IsSaved saved_request
normalize_and_validate-IsSaved_example =
    normalize_and_validate-IsSaved request saved_request save_tests.0

normalize_and_validate_again_example : normalize_and_validate saved_request ≡ ok saved_request
normalize_and_validate_again_example =
    normalize_and_validate_again request saved_request save_tests.0 (omega arith)

abbrev ids : ℕ → Text
ids i = (b'0' + i) ∷ []

abbrev advanced : List Text
advanced = codes "zone z 1m" ∷ []

render_tests :
    (render_block (request_to_model saved_request (codes "u") ids)
      ≡ codes
          "upstream pool {\n    hash $uri consistent;\n    server a.test:80 weight=1 max_fails=1 fail_timeout=10s;\n    server b.test:80 weight=1 max_fails=1 fail_timeout=10s;\n    keepalive 8;\n    keepalive_requests 100;\n    zone z 1m;\n}\n")
    × (parse_statements saved_request.advanced_directives ≡ ok advanced)
unfolding opened
render_tests = (refl, refl)

-- A line break within quotes is rendered with four spaces behind it.
quoted_newline :
    render_lines (split_at 10 (trim_suffix 10 (codes "a 'x\ny';\n"))) ≡ codes "    a 'x\n    y';\n"
unfolding opened
quoted_newline = refl

render_body-normalize_and_validate_example :
    parse_statements (render_body (request_to_model saved_request (codes "u") ids))
    ≡ ok (
        algorithm_statements (request_to_model saved_request (codes "u") ids)
        ++ (map server_statement
              (sort_stable server_less (servers_to_model ids saved_request.servers))
            ++ (keepalive_statements (request_to_model saved_request (codes "u") ids) ++ advanced)))
render_body-normalize_and_validate_example =
    render_body-normalize_and_validate request saved_request (codes "u") ids advanced save_tests.0
      render_tests.1 (refl, tt)
