-- ===== src/Ingest/Consent.antt =====
-- pkg/domain/ingest/consent.go.
pub mod Masking
pub mod Stable
use sentinel_flow_event_driv.Base.{
  ℕ, String, Bool, not, ◌&&◌, ◌||◌, Option, none, some, List, [], ◌∷◌, ◌++◌, str_eq, if◌then◌else◌,
}
use sentinel_flow_event_driv.Base.Lists.{take, replicate}
use sentinel_flow_event_driv.Base.Text.{codes}
use sentinel_flow_event_driv.Ingest.Address.{trim_space, parse_ip, to_4}
use sentinel_flow_event_driv.Ingest.Address.Ipv4.{ipv4_text}
use sentinel_flow_event_driv.Ingest.Address.Ipv6.{ipv6_text}

-- The branches on a parsed address: `ipv4[3] = 0` where `ip.To4()` is not nil, and otherwise the loop
-- that clears bytes 8 to 15.
unfoldable pub mask_text : Option (List ℕ) → List ℕ → String
unfolding ipv4_text ipv6_text
mask_text (some ipv4) ip = ipv4_text (take 3 ipv4 ++ 0 ∷ [])
mask_text none ip = ipv6_text (take 8 ip ++ replicate 8 0)

unfoldable pub anonymize_parsed : Option (List ℕ) → String
unfolding mask_text to_4
anonymize_parsed none = "0.0.0.0"
anonymize_parsed (some ip) = mask_text (to_4 ip) ip

unfoldable pub anonymize_ip : String → String
unfolding anonymize_parsed trim_space parse_ip
anonymize_ip ip_str = anonymize_parsed (parse_ip (trim_space (codes ip_str)))

abbrev pub needs_consent : String → Bool
needs_consent event_type = str_eq event_type "click" || str_eq event_type "view_item"

-- `none` is nil, and `some` the error `ErrConsentRequired`.
unfoldable pub check_gdpr_consent : String → Bool → Option String
check_gdpr_consent event_type gdpr_consent =
    if needs_consent event_type && not gdpr_consent
    then some "GDPR consent is required for tracking personal behavioral events"
    else none
