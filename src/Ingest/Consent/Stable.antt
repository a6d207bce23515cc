-- ===== src/Ingest/Consent/Stable.antt =====
-- An anonymised IPv4 address, read back and anonymised again.
use sentinel_flow_event_driv.Base.{
  ℕ, ◌<◌, ◌≡◌, refl, sym, ap, ◌∙◌, String, some, [], ◌∷◌, ◌++◌, arith,
}
use sentinel_flow_event_driv.Base.Text.{codes}
use sentinel_flow_event_driv.Ingest.Address.{trim_space, parse_ip, to_4}
use sentinel_flow_event_driv.Ingest.Address.Ipv4.{v4_prefix, ipv4_text}
use sentinel_flow_event_driv.Ingest.Address.Dotted.{parse_ip-ipv4_text}
use sentinel_flow_event_driv.Ingest.Consent.{mask_text, anonymize_parsed, anonymize_ip}

anonymize_of_parsed :
    (s : String) (a b c d : ℕ)
    → parse_ip (trim_space (codes s)) ≡ some (v4_prefix ++ a ∷ b ∷ c ∷ d ∷ [])
    → anonymize_ip s ≡ ipv4_text (a ∷ b ∷ c ∷ 0 ∷ [])
unfolding anonymize_ip
anonymize_of_parsed s a b c d e = rw e (unfold anonymize_parsed to_4 mask_text in refl)

-- A text that is read as an IPv4 address, also one in the form of an IPv6 address, is anonymised to a
-- text that is read as the same address with its last byte zero, so that of the last byte nothing is
-- left; anonymising it again changes nothing.
pub anonymize_stable :
    (s : String) (a b c d : ℕ)
    → a < 256
    → b < 256
    → c < 256
    → parse_ip (trim_space (codes s)) ≡ some (v4_prefix ++ a ∷ b ∷ c ∷ d ∷ [])
    → (parse_ip (trim_space (codes (anonymize_ip s))) ≡ some (v4_prefix ++ a ∷ b ∷ c ∷ 0 ∷ []))
      × (anonymize_ip (anonymize_ip s) ≡ anonymize_ip s)
anonymize_stable s a b c d ha hb hc e =
    let once = anonymize_of_parsed s a b c d e in
    let back =
      ap (λ (t : String). parse_ip (trim_space (codes t))) once
      ∙ parse_ip-ipv4_text a b c 0 ha hb hc (omega arith) in
    (back, anonymize_of_parsed (anonymize_ip s) a b c 0 back ∙ sym once)
