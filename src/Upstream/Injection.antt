-- ===== src/Upstream/Injection.antt =====
-- That what an upstream is given adds no directive to its block (internal/upstream/render.go).
use nx_panel.Upstream.Directives.{
  HasHashKey, servers-IsStatement, keepalive_statements-IsStatement,
  algorithm_statements-IsStatement, append-ne, ne-append,
}
use nx_panel.Domains.{split_at}
use nx_panel.Upstream.Statements.{parse_from, parse_statements, semi}
use nx_panel.Upstream.RoundTrip.{IsStatement, written}
use nx_panel.Upstream.Address.{validate_address, has}
use nx_panel.Upstream.Render.{
  NginxUpstreamServer, NginxUpstream, sort_stable, insert_all, insert_stable, server_less,
  trim_suffix, indent, render_server, render_servers, render_lines, render_body,
}
use nx_panel.Upstream.Rendered.{
  lines, lines-append, parse_from-lines, algorithm_statements, server_statement,
  keepalive_statements, render_algorithm-lines, render_server-lines, render_keepalive-lines,
}
use nx_panel.Base.{
  ℕ, ◌≡◌, refl, sym, ap, ◌∙◌, ◌≢◌, inl, inr, Bool, false, List, [], ◌∷◌, ◌++◌, map, append_assoc,
  arith, nat_beq_iff, nat_eq, text_eq, text_beq, text_beq_iff, Bool-cases, All, All-append, Text,
}
use nx_panel.Base.Result.{ok}

-- The rows of a saved upstream. The advanced directives are statements without newline, written
-- each on a line of its own.
pub record IsRow (u : NginxUpstream) (advanced : List Text) : Type 0 where
  pub addresses : All (λ s. validate_address s.address ≡ ok tt) u.servers
  pub hash_key : HasHashKey u
  pub sound : All IsStatement advanced
  pub one_line : All (λ s. has 10 s ≡ false) advanced
  pub text : u.advanced_directives ≡ written advanced

module _ {A : Type 0} (less : A → A → Bool) (P : A → Type 0) where
  All-insert : (x : A) (xs : List A) → P x → All P xs → All P (insert_stable less x xs)
  unfolding insert_stable
  All-insert x [] h hs = (h, tt)
  All-insert x (y ∷ ys) h hs = elim (Bool-cases (less x y)) [
    | inl before ↦ rw before (h, hs)
    | inr behind ↦ rw behind (hs.0, All-insert x ys h hs.1)
  ]

  All-insert_all :
      (xs sorted : List A) → All P xs → All P sorted → All P (insert_all less xs sorted)
  unfolding insert_all
  All-insert_all [] sorted h k = k
  All-insert_all (x ∷ xs) sorted h k =
      All-insert_all xs (insert_stable less x sorted) h.1 (All-insert x sorted h.0 k)

  All-sort_stable : (xs : List A) → All P xs → All P (sort_stable less xs)
  unfolding sort_stable
  All-sort_stable xs h = All-insert_all xs [] h tt

render_servers-lines :
    (servers : List NginxUpstreamServer)
    → render_servers servers ≡ lines (map server_statement servers)
unfolding render_servers
render_servers-lines [] = unfold lines in refl
render_servers-lines (s ∷ servers) =
    ap (λ t. render_server s ++ t) (render_servers-lines servers)
    ∙ render_server-lines s (map server_statement servers)

split_at-fresh : (b : ℕ) (l : Text) → has b l ≡ false → split_at b l ≡ l ∷ []
unfolding split_at
split_at-fresh b [] h = refl
split_at-fresh b (c ∷ l) h = rw (split_at-fresh b l (ground arith)) (ground arith)

split_at-append :
    (b : ℕ) (l s : Text) → has b l ≡ false → split_at b (l ++ (b ∷ s)) ≡ l ∷ split_at b s
unfolding split_at
split_at-append b [] s h = ground (arith, nat_beq_iff b b)
split_at-append b (c ∷ l) s h = rw (split_at-append b l s (ground arith)) (ground arith)

trim_suffix-append :
    (b c : ℕ) (l s : Text) → trim_suffix b (l ++ (c ∷ s)) ≡ l ++ trim_suffix b (c ∷ s)
unfolding trim_suffix
trim_suffix-append b c [] s = refl
trim_suffix-append b c (d ∷ []) s = refl
trim_suffix-append b c (d ∷ e ∷ l) s = ap (λ t. d ∷ t) (trim_suffix-append b c (e ∷ l) s)

trim_suffix-cons : (b c : ℕ) (s : Text) → s ≢ [] → trim_suffix b (c ∷ s) ≡ c ∷ trim_suffix b s
unfolding trim_suffix
trim_suffix-cons b c [] ne = absurd (ne refl)
trim_suffix-cons b c (d ∷ s) ne = refl

has-semi : (s : Text) → has 10 s ≡ false → has 10 (s ++ (semi ∷ [])) ≡ false
has-semi [] h = refl
has-semi (c ∷ s) h = ground (arith, has-semi s)

render_line :
    (s : Text) (rest : List Text)
    → render_lines ((s ++ (semi ∷ [])) ∷ rest) ≡ indent ++ (s ++ (semi ∷ 10 ∷ render_lines rest))
unfolding render_lines
render_line s rest =
    let filled : text_beq (s ++ (semi ∷ [])) [] ≡ false =
      ground (arith, text_beq_iff (s ++ (semi ∷ [])) [], ne-append s semi) in
    rw filled (simp append_assoc)

-- The lines of advanced directives without newline are their statements.
render_lines-written :
    (advanced : List Text)
    → All (λ s. has 10 s ≡ false) advanced
    → render_lines (split_at 10 (trim_suffix 10 (written advanced))) ≡ lines advanced
unfolding lines written
render_lines-written [] h = unfold split_at trim_suffix render_lines text_beq in refl
render_lines-written (s ∷ []) h =
    let cut : trim_suffix 10 (semi ∷ 10 ∷ []) ≡ semi ∷ [] = unfold trim_suffix in refl in
    let nothing : render_lines [] ≡ [] = unfold render_lines in refl in
    ap (λ t. render_lines (split_at 10 t))
      (trim_suffix-append 10 semi s (10 ∷ []) ∙ ap (λ t. s ++ t) cut)
    ∙ ap render_lines (split_at-fresh 10 (s ++ (semi ∷ [])) (has-semi s h.0))
    ∙ render_line s []
    ∙ ap (λ t. indent ++ (s ++ (semi ∷ 10 ∷ t))) nothing
render_lines-written (s ∷ t ∷ advanced) h =
    let rest = written (t ∷ advanced) in
    let more : rest ≢ [] = append-ne t (semi ∷ 10 ∷ written advanced) (λ e. cc e) in
    let cut : trim_suffix 10 (semi ∷ 10 ∷ rest) ≡ semi ∷ 10 ∷ trim_suffix 10 rest =
      trim_suffix-cons 10 semi (10 ∷ rest) (λ e. cc e)
      ∙ ap (λ r. semi ∷ r) (trim_suffix-cons 10 10 rest more) in
    ap (λ r. render_lines (split_at 10 r))
      (trim_suffix-append 10 semi s (10 ∷ rest)
        ∙ ap (λ r. s ++ r) cut
        ∙ sym (append_assoc s (semi ∷ []) (10 ∷ trim_suffix 10 rest)))
    ∙ ap render_lines (split_at-append 10 (s ++ (semi ∷ [])) (trim_suffix 10 rest) (has-semi s h.0))
    ∙ render_line s (split_at 10 (trim_suffix 10 rest))
    ∙ ap (λ r. indent ++ (s ++ (semi ∷ 10 ∷ r))) (render_lines-written (t ∷ advanced) h.1)

-- The block of a saved upstream holds, as the parser reads it, the directives of its algorithm, its
-- servers in order, its keepalive settings and its advanced directives, and no other.
pub parse_statements-render_body :
    (u : NginxUpstream) (advanced : List Text)
    → IsRow u advanced
    → parse_statements (render_body u)
      ≡ ok (
          algorithm_statements u
          ++ (map server_statement (sort_stable server_less u.servers)
              ++ (keepalive_statements u ++ advanced)))
unfolding parse_statements render_body
parse_statements-render_body u advanced h =
    let servers = sort_stable server_less u.servers in
    let accepted =
      All-sort_stable server_less (λ s. validate_address s.address ≡ ok tt) u.servers h.addresses in
    let directives = render_lines (split_at 10 (trim_suffix 10 u.advanced_directives)) in
    let last : directives ≡ lines advanced =
      ap (λ t. render_lines (split_at 10 (trim_suffix 10 t))) h.text
      ∙ render_lines-written advanced h.one_line in
    let whole : render_body u
        ≡ lines (
            algorithm_statements u
            ++ (map server_statement servers ++ (keepalive_statements u ++ advanced))) =
      rw
        (
          lines-append (algorithm_statements u)
              (map server_statement servers ++ (keepalive_statements u ++ advanced)),
          lines-append (map server_statement servers) (keepalive_statements u ++ advanced),
          lines-append (keepalive_statements u) advanced,
          render_algorithm-lines u,
          render_servers-lines servers,
          render_keepalive-lines u,
          last,
        )
        refl in
    ap (λ t. parse_from t [] 0 false) whole
    ∙ parse_from-lines _ []
        (All-append IsStatement (algorithm_statements u) _
          (algorithm_statements-IsStatement u h.hash_key)
          (All-append IsStatement (map server_statement servers) _
            (servers-IsStatement servers accepted)
            (All-append IsStatement (keepalive_statements u) advanced
              (keepalive_statements-IsStatement u) h.sound)))
        refl
