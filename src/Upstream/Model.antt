-- ===== src/Upstream/Model.antt =====
-- The rows of an upstream that is saved (`requestToModel` of internal/upstream/service.go), and the
-- block that is rendered of them. `ids` are what app.NewID makes for the servers, in order.
use nx_panel.Upstream.{ServerRequest, SaveRequest}
use nx_panel.Upstream.Statements.{parse_statements}
use nx_panel.Upstream.RoundTrip.{IsStatement, written, normalize_advanced_directives-IsNormal}
use nx_panel.Upstream.Address.{validate_address, has}
use nx_panel.Upstream.Save.{normalize_and_validate}
use nx_panel.Upstream.Saved.{HashKeyOk, normalize_and_validate-IsSaved}
use nx_panel.Upstream.Servers.{IsServer}
use nx_panel.Upstream.Render.{
  NginxUpstreamServer, NginxUpstream, sort_stable, server_less, render_body,
}
use nx_panel.Upstream.Rendered.{algorithm_statements, server_statement, keepalive_statements}
use nx_panel.Upstream.Directives.{HasHashKey}
use nx_panel.Upstream.Injection.{parse_statements-render_body}
use mathlib.Core.Path.{subst}
use nx_panel.Base.{
  ℕ, ◌+◌, ◌≡◌, sym, ap, ◌∙◌, inl, inr, false, List, [], ◌∷◌, ◌++◌, map, nat_eq, text_eq, All, Text,
  trim_space,
}
use nx_panel.Base.Result.{ok, ok-injective}

unfoldable pub server_to_model : Text → ServerRequest → NginxUpstreamServer
server_to_model id item = record {
  id = id;
  address = item.address;
  weight = item.weight;
  max_fails = item.max_fails;
  fail_timeout_seconds = item.fail_timeout_seconds;
  backup = item.backup;
  down = item.down;
  sort_order = item.sort_order;
}

unfoldable pub servers_to_model : (ℕ → Text) → List ServerRequest → List NginxUpstreamServer
servers_to_model ids [] = []
servers_to_model ids (item ∷ items) =
    server_to_model (ids 0) item ∷ servers_to_model (λ i. ids (i + 1)) items

unfoldable pub request_to_model : SaveRequest → Text → (ℕ → Text) → NginxUpstream
request_to_model req id ids = record {
  id = id;
  name = req.name;
  algorithm = req.algorithm;
  hash_key = req.hash_key;
  consistent = req.consistent;
  keepalive = req.keepalive;
  keepalive_requests = req.keepalive_requests;
  keepalive_timeout_seconds = req.keepalive_timeout_seconds;
  advanced_directives = req.advanced_directives;
  servers = servers_to_model ids req.servers;
}

servers-addresses :
    (ids : ℕ → Text) (algorithm : Text) (items : List ServerRequest)
    → All (IsServer algorithm) items
    → All (λ s. validate_address s.address ≡ ok tt) (servers_to_model ids items)
unfolding servers_to_model server_to_model
servers-addresses ids algorithm [] h = tt
servers-addresses ids algorithm (item ∷ items) h =
    (h.0.address, servers-addresses (λ i. ids (i + 1)) algorithm items h.1)

model-HasHashKey :
    (req : SaveRequest) (id : Text) (ids : ℕ → Text)
    → HashKeyOk req.algorithm req.hash_key req.consistent
    → trim_space req.hash_key ≡ req.hash_key
    → HasHashKey (request_to_model req id ids)
unfolding request_to_model
model-HasHashKey req id ids (inl key) trimmed = inr (trimmed, key.1)
model-HasHashKey req id ids (inr other) trimmed = inl other.0

-- A request that is accepted, with no newline within its advanced statements, is rendered as a
-- block of exactly these directives, as the parser reads it: that of its algorithm, its servers in
-- their order, its keepalive settings, and its advanced statements.
pub render_body-normalize_and_validate :
    (given req : SaveRequest) (id : Text) (ids : ℕ → Text) (advanced : List Text)
    → normalize_and_validate given ≡ ok req
    → parse_statements req.advanced_directives ≡ ok advanced
    → All (λ s. has 10 s ≡ false) advanced
    → parse_statements (render_body (request_to_model req id ids))
      ≡ ok (
          algorithm_statements (request_to_model req id ids)
          ++ (map server_statement (sort_stable server_less (servers_to_model ids req.servers))
              ++ (keepalive_statements (request_to_model req id ids) ++ advanced)))
unfolding request_to_model
render_body-normalize_and_validate given req id ids advanced h parsed one_line =
    let saved = normalize_and_validate-IsSaved given req h in
    let n =
      normalize_advanced_directives-IsNormal saved.input req.advanced_directives saved.directives in
    let same : n.statements ≡ advanced = ok-injective (sym n.again ∙ parsed) in
    parse_statements-render_body (request_to_model req id ids) advanced (record {
      addresses = servers-addresses ids req.algorithm req.servers saved.servers;
      hash_key = model-HasHashKey req id ids saved.hash_key saved.trimmed;
      sound = subst (λ ss. All IsStatement ss) same n.each;
      one_line = one_line;
      text = n.text ∙ ap written same;
    })
