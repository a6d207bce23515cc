-- ===== src/Tests/Ingest.antt =====
-- pkg/domain/ingest: the theorems on concrete addresses.
use sentinel_flow_event_driv.Base.{◌≡◌, refl, some, [], ◌∷◌, ◌++◌, arith}
use sentinel_flow_event_driv.Base.Text.{codes}
use sentinel_flow_event_driv.Ingest.Address.Ipv4.{v4_prefix}
use sentinel_flow_event_driv.Ingest.Consent.Stable.{anonymize_stable}
use sentinel_flow_event_driv.Ingest.Address.{trim_space, parse_ip, to_4}
use sentinel_flow_event_driv.Ingest.Consent.{anonymize_ip}
use sentinel_flow_event_driv.Ingest.Consent.Masking.{network_of, kept_of, anonymize-network}

anonymize-network_example : anonymize_ip " 192.168.7.9" ≡ anonymize_ip "192.168.7.200"
unfolding trim_space parse_ip network_of kept_of to_4
anonymize-network_example = anonymize-network " 192.168.7.9" "192.168.7.200" refl refl refl

anonymize_stable_example :
    (parse_ip (trim_space (codes (anonymize_ip "::ffff:192.168.7.9")))
      ≡ some (v4_prefix ++ 192 ∷ 168 ∷ 7 ∷ 0 ∷ []))
    × (anonymize_ip (anonymize_ip "::ffff:192.168.7.9") ≡ anonymize_ip "::ffff:192.168.7.9")
unfolding trim_space parse_ip
anonymize_stable_example =
    anonymize_stable "::ffff:192.168.7.9" 192 168 7 9 (omega arith) (omega arith) (omega arith) refl
