-- ===== src/Http.antt =====
-- Replies of the HTTP handlers, over the type of their bodies, and `http.Error` of Go's net/http.
use Prim.Native.String.{◌++◌ as append}
use sentinel_flow_event_driv.Base.{ℕ, String}

pub record Reply (B : Type 0) : Type 0 where
  pub status_code : ℕ
  pub content_type : String
  pub body : B

-- `http.Error(w, message, code)`
unfoldable pub http_error : String → ℕ → Reply String
http_error message code = record {
  status_code = code;
  content_type = "text/plain; charset=utf-8";
  body = append message "\n";
}

abbrev pub json_reply : {B : Type 0} → ℕ → B → Reply B
json_reply code body = record { status_code = code; content_type = "application/json"; body = body }
