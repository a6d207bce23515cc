-- ===== src/Ingest/Consent/Masking.antt =====
-- What an anonymised address still tells.
use sentinel_flow_event_driv.Base.{
  ℕ, ◌≡◌, refl, sym, ap, ◌∙◌, String, Bool, true, false, Option, none, some, List, [], ◌∷◌, ◌++◌,
  if◌then◌else◌,
}
use sentinel_flow_event_driv.Base.Lists.{take, replicate}
use sentinel_flow_event_driv.Base.Text.{codes}
use sentinel_flow_event_driv.Ingest.Address.{trim_space, parse_ip, to_4}
use sentinel_flow_event_driv.Ingest.Address.Ipv4.{ipv4_text}
use sentinel_flow_event_driv.Ingest.Address.Ipv6.{ipv6_text}
use sentinel_flow_event_driv.Ingest.Consent.{mask_text, anonymize_parsed, anonymize_ip}

-- The part of an address that stays: three bytes of an IPv4 address, and eight of any other, with the
-- mark of which of the two it is.
unfoldable pub kept_of : Option (List ℕ) → List ℕ → Bool × List ℕ
kept_of (some ipv4) ip = (true, take 3 ipv4)
kept_of none ip = (false, take 8 ip)

unfoldable pub network_of : List ℕ → Bool × List ℕ
unfolding to_4 kept_of
network_of ip = kept_of (to_4 ip) ip

text_of_network : Bool × List ℕ → String
text_of_network (is_v4, kept) =
    if is_v4 then ipv4_text (kept ++ 0 ∷ []) else ipv6_text (kept ++ replicate 8 0)

mask_of_network :
    (v4 : Option (List ℕ)) (ip : List ℕ) → mask_text v4 ip ≡ text_of_network (kept_of v4 ip)
unfolding mask_text text_of_network kept_of
mask_of_network (some ipv4) ip = refl
mask_of_network none ip = refl

anonymize_of_network :
    (s : String) {ip : List ℕ}
    → parse_ip (trim_space (codes s)) ≡ some ip
    → anonymize_ip s ≡ text_of_network (network_of ip)
anonymize_of_network s {ip} e =
    let opened : anonymize_ip s ≡ anonymize_parsed (parse_ip (trim_space (codes s))) =
      unfold anonymize_ip in refl in
    let masked : anonymize_parsed (some ip) ≡ text_of_network (network_of ip) =
      unfold anonymize_parsed network_of in mask_of_network (to_4 ip) ip in
    opened ∙ ap anonymize_parsed e ∙ masked

-- Two texts of addresses in one network are anonymised alike: of the addresses, nothing beyond the
-- network can be told from the results.
pub anonymize-network :
    (s s' : String) {ip ip' : List ℕ}
    → parse_ip (trim_space (codes s)) ≡ some ip
    → parse_ip (trim_space (codes s')) ≡ some ip'
    → network_of ip ≡ network_of ip'
    → anonymize_ip s ≡ anonymize_ip s'
anonymize-network s s' e e' same =
    anonymize_of_network s e ∙ ap text_of_network same ∙ sym (anonymize_of_network s' e')
