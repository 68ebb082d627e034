-- ===== src/Http.antt =====
-- net/http as the handlers use it: what they read of a request, and what they answer.
use rmm.Base.{ℕ, ◌++◌, Bytes, codes}

-- `header` and `query` give the empty text for what is absent.
pub record Request : Type 0 where
  pub meth : Bytes
  pub header : Bytes → Bytes
  pub query : Bytes → Bytes
  pub body : Bytes
  pub remote_addr : Bytes

-- `http.Error` with a status, or a JSON value under the status 200.
pub data Response (B : Type 0) : Type 0 where
  failed : ℕ → Bytes → Response B
  replied : B → Response B

abbrev pub status_bad_request : ℕ
status_bad_request = 400

abbrev pub status_unauthorized : ℕ
status_unauthorized = 401

abbrev pub status_forbidden : ℕ
status_forbidden = 403

abbrev pub status_not_found : ℕ
status_not_found = 404

abbrev pub status_method_not_allowed : ℕ
status_method_not_allowed = 405

abbrev pub status_internal_server_error : ℕ
status_internal_server_error = 500

-- `{"error":"…"}`
abbrev pub error_json : Bytes → Bytes
error_json text = codes "{\"error\":\"" ++ (text ++ codes "\"}")
