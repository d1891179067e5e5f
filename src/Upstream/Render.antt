-- ===== src/Upstream/Render.antt =====
-- The configuration of an upstream (internal/upstream/render.go, with the rows of
-- internal/db/repo/nginx_upstreams.go). `%d` is `decimal`, sort.SliceStable is `sort_stable`.
use nx_panel.Domains.{split_at}
use nx_panel.Base.{
  ℕ, zero, suc, ◌+◌, ◌/◌, ◌%◌, Bool, true, false, not, ◌&&◌, ◌||◌, List, [], ◌∷◌, ◌++◌, ltb, ◌==◌,
  nat_eq, text_eq, if◌then◌else◌, Text, codes, to_lower,
}
use nx_panel.Base.Int.{ℤ, pos, negsuc, ltb_ℤ}

pub record NginxUpstreamServer : Type 0 where
  pub id : Text
  pub address : Text
  pub weight : ℤ
  pub max_fails : ℤ
  pub fail_timeout_seconds : ℤ
  pub backup : Bool
  pub down : Bool
  pub sort_order : ℤ

pub record NginxUpstream : Type 0 where
  pub id : Text
  pub name : Text
  pub algorithm : Text
  pub hash_key : Text
  pub consistent : Bool
  pub keepalive : ℤ
  pub keepalive_requests : ℤ
  pub keepalive_timeout_seconds : ℤ
  pub advanced_directives : Text
  pub servers : List NginxUpstreamServer

-- s < t, by bytes
unfoldable pub text_ltb : Text → Text → Bool
text_ltb [] [] = false
text_ltb [] (c ∷ t) = true
text_ltb (c ∷ s) [] = false
text_ltb (c ∷ s) (d ∷ t) = ltb c d || (c == d && text_ltb s t)

-- The digits of a number on fuel; a number has fewer digits than its successor.
unfoldable pub digits : ℕ → ℕ → Text
digits zero n = []
digits (suc fuel) n = elim (ltb n 10) [
  | true ↦ (b'0' + n) ∷ []
  | false ↦ digits fuel (n / 10) ++ ((b'0' + n % 10) ∷ [])
]

unfoldable pub decimal_nat : ℕ → Text
decimal_nat n = digits (suc n) n

unfoldable pub decimal : ℤ → Text
decimal (pos n) = decimal_nat n
decimal (negsuc n) = b'-' ∷ decimal_nat (suc n)

module _ {A : Type 0} (less : A → A → Bool) where
  -- An item goes behind those that it is not less than.
  unfoldable pub insert_stable : A → List A → List A
  insert_stable x [] = x ∷ []
  insert_stable x (y ∷ ys) =
      let rest = insert_stable x ys in if less x y then x ∷ y ∷ ys else y ∷ rest

  unfoldable pub insert_all : List A → List A → List A
  insert_all [] sorted = sorted
  insert_all (x ∷ xs) sorted = insert_all xs (insert_stable x sorted)

  unfoldable pub sort_stable : List A → List A
  unfolding insert_all insert_stable
  sort_stable xs = insert_all xs []

unfoldable pub server_less : NginxUpstreamServer → NginxUpstreamServer → Bool
server_less a b =
    if ltb_ℤ a.sort_order b.sort_order || ltb_ℤ b.sort_order a.sort_order
    then ltb_ℤ a.sort_order b.sort_order
    else if not (to_lower a.address == to_lower b.address)
    then text_ltb (to_lower a.address) (to_lower b.address)
    else text_ltb a.id b.id

-- strings.TrimSuffix of one byte
unfoldable pub trim_suffix : ℕ → Text → Text
trim_suffix b [] = []
trim_suffix b (c ∷ []) = if c == b then [] else c ∷ []
trim_suffix b (c ∷ d ∷ s) = c ∷ trim_suffix b (d ∷ s)

abbrev pub on : Bool → Text → Text
on flag s = if flag then s else []

abbrev pub indent : Text
indent = codes "    "

unfoldable pub render_algorithm : NginxUpstream → Text
render_algorithm u =
    if u.algorithm == codes "least_conn"
    then codes "    least_conn;\n"
    else if u.algorithm == codes "ip_hash"
    then codes "    ip_hash;\n"
    else if u.algorithm == codes "hash"
    then codes "    hash " ++ (u.hash_key ++ (on u.consistent (codes " consistent") ++ codes ";\n"))
    else []

unfoldable pub render_server : NginxUpstreamServer → Text
render_server s =
    codes "    server "
    ++ (s.address
        ++ (codes " weight="
            ++ (decimal s.weight
                ++ (codes " max_fails="
                    ++ (decimal s.max_fails
                        ++ (codes " fail_timeout="
                            ++ (decimal s.fail_timeout_seconds
                                ++ (codes "s"
                                    ++ (on s.backup (codes " backup")
                                        ++ (on s.down (codes " down") ++ codes ";\n"))))))))))

unfoldable pub render_servers : List NginxUpstreamServer → Text
render_servers [] = []
render_servers (s ∷ servers) = render_server s ++ render_servers servers

abbrev pub positive : ℤ → Bool
positive n = ltb_ℤ (pos 0) n

unfoldable pub render_keepalive : NginxUpstream → Text
render_keepalive u =
    on (positive u.keepalive) (codes "    keepalive " ++ (decimal u.keepalive ++ codes ";\n"))
    ++ (on (positive u.keepalive_requests)
          (codes "    keepalive_requests " ++ (decimal u.keepalive_requests ++ codes ";\n"))
        ++ on (positive u.keepalive_timeout_seconds) (
            codes "    keepalive_timeout "
            ++ (decimal u.keepalive_timeout_seconds ++ codes "s;\n")))

unfoldable pub render_lines : List Text → Text
render_lines [] = []
render_lines (line ∷ lines) =
    on (not (line == [])) (indent ++ (line ++ (10 ∷ []))) ++ render_lines lines

-- What stands between the braces.
unfoldable pub render_body : NginxUpstream → Text
render_body u =
    render_algorithm u
    ++ (render_servers (sort_stable server_less u.servers)
        ++ (render_keepalive u
            ++ render_lines (split_at 10 (trim_suffix 10 u.advanced_directives))))

unfoldable pub render_block : NginxUpstream → Text
render_block u = codes "upstream " ++ (u.name ++ (codes " {\n" ++ (render_body u ++ codes "}\n")))

unfoldable pub upstream_less : NginxUpstream → NginxUpstream → Bool
upstream_less a b =
    if not (to_lower a.name == to_lower b.name)
    then text_ltb (to_lower a.name) (to_lower b.name)
    else if not (a.name == b.name)
    then text_ltb a.name b.name
    else text_ltb a.id b.id

abbrev pub managed_header : Text
managed_header = codes "# Managed by nxPanel. Changes to this file will be overwritten.\n"

unfoldable pub render_blocks : List NginxUpstream → Text
render_blocks [] = []
render_blocks (u ∷ upstreams) = 10 ∷ (render_block u ++ render_blocks upstreams)

unfoldable pub render_file : List NginxUpstream → Text
render_file upstreams = managed_header ++ render_blocks (sort_stable upstream_less upstreams)
