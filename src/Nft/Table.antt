-- ===== src/Nft/Table.antt =====
-- render_nft and render_fail_closed_nft of qubes_snitch/nft.py: the text of the whole table.
use qubes_snitch.Prelude.{
  ℕ, ℕ_eq, Text, Text_eq, codes, List, [], ◌∷◌, ◌++◌, none, some, if◌then◌else◌, map,
}
use qubes_snitch.Prelude.Dict.{Dict, get}
use qubes_snitch.Prelude.Result.{Result, ok, err, key_error, ◌>>=◌, ◌>>◌}
use qubes_snitch.Packets.Ports.{Services}
use qubes_snitch.Policy.{FlowRule, SourceRules, Rules}
use qubes_snitch.Config.Names.{is_letter}
use qubes_snitch.Config.Resolve.{Answer}
use qubes_snitch.Config.Sources.{version_4}
use qubes_snitch.Nft.Parts.{
  join, nfproto_ipv4, client_saddr, client_daddr, ct_invalid, ct_reply, udp_dns, local_vif, jump,
  Line, line_text,
}
use qubes_snitch.Nft.Lines.{
  Settings, accept_line, queue_line, reject_line, nft_reply_sources, render_rule,
  render_established_reply_rule,
}

-- The lines of every item of a list, one item after the other, until one raises.
unfoldable pub each {ℓ} :
    {A : Type ℓ} {B : Type 0} → (A → Result (List B)) → List A → Result (List B)
each f [] = ok []
each f (x ∷ xs) = do first ← f x; rest ← each f xs; ok (first ++ rest)

abbrev pub rules_of : Rules → Text → Result SourceRules
rules_of rules source = elim (get source rules) [ none ↦ err key_error | some r ↦ ok r ]

-- ch if ch.isalnum() else "_", on the characters of the name of a source.
abbrev pub chain_char : ℕ → ℕ
chain_char c = if is_letter c then c else b'_'

-- f"table inet {nft_table} {{"
abbrev pub opening : Text → List Text
opening nft_table =
    (codes "destroy table inet " ++ nft_table)
    ∷ (codes "table inet " ++ (nft_table ++ codes " {"))
    ∷ []

abbrev pub new_line : Text
new_line = 10 ∷ []

module _ (settings : Settings) where
  abbrev pub invalid_line : Text → Line
  invalid_line prefix = reject_line settings prefix (ct_invalid ∷ [])

  unfoldable pub render_local_input_chain : List Text
  unfolding line_text
  render_local_input_chain =
      codes " chain input {"
      ∷ codes "  type filter hook input priority filter; policy accept;"
      ∷ line_text (reject_line settings (codes "QUBES-SNITCH local reject ") (local_vif ∷ []))
      ∷ codes " }"
      ∷ []

  unfoldable pub render_fail_closed_nft : Text → Text
  unfolding render_local_input_chain
  render_fail_closed_nft nft_table =
      join new_line (
        opening nft_table
        ++ (render_local_input_chain
            ++ (codes " chain forward {"
                ∷ codes "  type filter hook forward priority filter; policy drop;"
                ∷ line_text (invalid_line (codes "QUBES-SNITCH invalid "))
                ∷ line_text (queue_line settings (nfproto_ipv4 ∷ []))
                ∷ line_text (reject_line settings (codes "QUBES-SNITCH fail-closed reject ") [])
                ∷ codes " }"
                ∷ codes "}"
                ∷ [])))
      ++ new_line

module _ (services : Services) (digest : Text → Text) (ip_address : Text → Answer)
    (settings : Settings) where
  -- digest is the hash of blake2s in hexadecimal, of four bytes.
  unfoldable pub nft_chain_name : Text → Text
  nft_chain_name source = codes "source_" ++ (map chain_char source ++ (b'_' ∷ digest source))

  unfoldable pub nft_source_jump : Text → Text → Result (List Line)
  unfolding version_4
  nft_source_jump ip chain = do
    version_4 (ip_address ip)
    ok (record { parts = client_saddr ip ∷ []; statement = jump chain } ∷ [])

  unfoldable pub render_established_reply_rules : Text → Text → FlowRule → Result (List Line)
  unfolding each nft_reply_sources
  render_established_reply_rules source source_ip rule = do
    sources ← nft_reply_sources rule.dest
    each
        (λ reply_source. do
          l ← render_established_reply_rule services source source_ip rule settings reply_source
          ok (l ∷ []))
        sources

  reply_lines : Rules → Text × List Text → Result (List Line)
  unfolding render_established_reply_rules
  reply_lines rules (source, ips) =
      each
        (λ ip. do r ← rules_of rules source; each (render_established_reply_rules source ip) r.ip)
        ips

  dns_jump : Text → Text → Line
  dns_jump source ip = record {
    parts = client_saddr ip ∷ udp_dns ∷ [];
    statement = jump (nft_chain_name source);
  }

  dns_jumps : Text × List Text → Result (List Line)
  unfolding dns_jump
  dns_jumps (source, ips) = ok (map (dns_jump source) ips)

  source_jumps : Text × List Text → Result (List Line)
  unfolding nft_source_jump each
  source_jumps (source, ips) = each (λ ip. nft_source_jump ip (nft_chain_name source)) ips

  reply_accepts : Text × List Text → Result (List Line)
  reply_accepts (source, ips) = ok (map (λ ip. accept_line (client_daddr ip ∷ ct_reply ∷ [])) ips)

  -- The lines of the chain `forward` after its declaration.
  unfoldable pub forward_lines : Dict Text (List Text) → Rules → Result (List Line)
  unfolding reply_lines dns_jumps source_jumps reply_accepts each
  forward_lines sources rules = do
    replies ← each (reply_lines rules) sources
    dns ← each dns_jumps sources
    jumps ← each source_jumps sources
    accepts ← each reply_accepts sources
    ok (
        replies
        ++ (dns
            ++ (jumps
                ++ (accepts
                    ++ (record { parts = []; statement = jump (nft_chain_name (codes "unknown")) }
                        ∷ invalid_line settings (codes "QUBES-SNITCH invalid ")
                        ∷ [])))))

  -- The chain of one source, without its braces.
  unfoldable pub source_chain : Text → List FlowRule → Result (List Line)
  unfolding each
  source_chain source rules = do
    decided ← each (λ rule. render_rule services source rule settings) rules
    ok (
        invalid_line settings (codes "QUBES-SNITCH " ++ (source ++ codes " invalid "))
        ∷ queue_line settings (udp_dns ∷ [])
        ∷ (decided
            ++ (queue_line settings []
                ∷ reject_line settings (codes "QUBES-SNITCH " ++ (source ++ codes " reject ")) []
                ∷ [])))

  chain_text : Text → List Line → List Text
  unfolding line_text
  chain_text source chain =
      (codes " chain " ++ (nft_chain_name source ++ codes " {"))
      ∷ (map line_text chain ++ codes " }" ∷ [])

  chain_of : Rules → Text × List Text → Result (List Text)
  unfolding source_chain chain_text
  chain_of rules (source, ips) = do
    r ← rules_of rules source
    chain ← source_chain source r.ip
    ok (chain_text source chain)

  unknown_chain : List Line
  unknown_chain =
      queue_line settings (nfproto_ipv4 ∷ [])
      ∷ reject_line settings (codes "QUBES-SNITCH unknown reject ") []
      ∷ []

  unfoldable pub render_nft : Text → Dict Text (List Text) → Rules → Result Text
  unfolding forward_lines chain_of chain_text unknown_chain
  render_nft nft_table sources rules = do
    forward ← forward_lines sources rules
    chains ← each (chain_of rules) sources
    ok (
        join new_line (
          opening nft_table
          ++ (render_local_input_chain settings
              ++ (codes " chain forward {"
                  ∷ codes "  type filter hook forward priority filter; policy drop;"
                  ∷ (map line_text forward
                      ++ (codes " }"
                          ∷ (chains
                              ++ (chain_text (codes "unknown") unknown_chain
                                  ++ codes "}" ∷ [])))))))
        ++ new_line)
