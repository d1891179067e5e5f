-- ===== src/Upstream/Rendered.antt =====
-- The configuration that is rendered, as the parser of statements reads it
-- (internal/upstream/render.go).
use nx_panel.Upstream.Statements.{parse_from, semi, scan}
use nx_panel.Upstream.Scan.{quiet, parse_from-quiet}
use nx_panel.Upstream.RoundTrip.{IsStatement, parse_from-semi, blank-trim}
use nx_panel.Upstream.Plain.{quiet-plain}
use nx_panel.Upstream.Trim.{all-append}
use nx_panel.Upstream.Render.{
  NginxUpstreamServer, NginxUpstream, decimal, on, indent, render_algorithm, render_server,
  positive, render_keepalive,
}
use nx_panel.Base.{
  ◌≡◌, refl, ap, ◌∙◌, Bool, true, false, List, [], ◌∷◌, ◌++◌, append_assoc, ◌==◌, nat_eq, text_eq,
  text_beq, if◌then◌else◌, all, All, Text, codes, is_space,
}
use nx_panel.Base.Result.{ok, ◌>>=◌}

-- Statements, each indented and on lines of its own.
unfoldable pub lines : List Text → Text
lines [] = []
lines (s ∷ statements) = indent ++ (s ++ (semi ∷ 10 ∷ lines statements))

pub lines-append : (xs ys : List Text) → lines (xs ++ ys) ≡ lines xs ++ lines ys
unfolding lines
lines-append [] ys = refl
lines-append (s ∷ xs) ys = simp (lines-append xs ys, append_assoc)

pub parse_from-lines :
    (statements : List Text) (p : Text)
    → All IsStatement statements
    → all is_space p ≡ true
    → parse_from (lines statements) p 0 false ≡ ok statements
unfolding lines
parse_from-lines [] p h spaces = unfold parse_from text_beq in rw (blank-trim p spaces) refl
parse_from-lines (s ∷ statements) p h spaces =
    let newline : Text = 10 ∷ [] in
    parse_from-quiet indent (s ++ (semi ∷ 10 ∷ lines statements)) p 0 false (0, false)
      (quiet-plain indent refl)
    ∙ parse_from-semi s (10 ∷ lines statements) (p ++ indent) h.0
        (all-append is_space p indent spaces refl)
    ∙ ap (λ r. r >>= λ more. ok (s ∷ more))
        (parse_from-quiet newline (lines statements) [] 0 false (0, false)
            (unfold quiet scan in refl)
          ∙ parse_from-lines statements newline h.1 refl)

-- The statements of the block of an upstream.
unfoldable pub algorithm_statements : NginxUpstream → List Text
algorithm_statements u =
    if u.algorithm == codes "least_conn"
    then codes "least_conn" ∷ []
    else if u.algorithm == codes "ip_hash"
    then codes "ip_hash" ∷ []
    else if u.algorithm == codes "hash"
    then (codes "hash " ++ (u.hash_key ++ on u.consistent (codes " consistent"))) ∷ []
    else []

unfoldable pub server_statement : NginxUpstreamServer → Text
server_statement s =
    codes "server "
    ++ (s.address
        ++ (codes " weight="
            ++ (decimal s.weight
                ++ (codes " max_fails="
                    ++ (decimal s.max_fails
                        ++ (codes " fail_timeout="
                            ++ (decimal s.fail_timeout_seconds
                                ++ (codes "s"
                                    ++ (on s.backup (codes " backup")
                                        ++ on s.down (codes " down"))))))))))

abbrev pub maybe : Bool → Text → List Text
maybe flag s = if flag then s ∷ [] else []

unfoldable pub keepalive_statements : NginxUpstream → List Text
keepalive_statements u =
    maybe (positive u.keepalive) (codes "keepalive " ++ decimal u.keepalive)
    ++ (maybe (positive u.keepalive_requests)
          (codes "keepalive_requests " ++ decimal u.keepalive_requests)
        ++ maybe (positive u.keepalive_timeout_seconds)
            (codes "keepalive_timeout " ++ (decimal u.keepalive_timeout_seconds ++ codes "s")))

lines_if :
    (b : Bool) (xs ys : List Text)
    → lines (if b then xs else ys) ≡ (if b then lines xs else lines ys)
lines_if true xs ys = refl
lines_if false xs ys = refl

pub render_algorithm-lines :
    (u : NginxUpstream) → render_algorithm u ≡ lines (algorithm_statements u)
unfolding render_algorithm algorithm_statements lines
render_algorithm-lines u = simp (lines_if, append_assoc)

pub render_server-lines :
    (s : NginxUpstreamServer) (rest : List Text)
    → render_server s ++ lines rest ≡ lines (server_statement s ∷ rest)
unfolding render_server server_statement lines
render_server-lines s rest = simp append_assoc

pub render_keepalive-lines :
    (u : NginxUpstream) → render_keepalive u ≡ lines (keepalive_statements u)
unfolding render_keepalive keepalive_statements lines
render_keepalive-lines u = simp (lines-append, lines_if, append_assoc)
