-- ===== src/Ingest/UploadV1.antt =====
-- `PostCallUploadV1` of backend/internal/handler/calls/upload_v1.go: the answers. The request, the
-- environment and the server's state are those of the legacy handler, since both share one
-- `Handler`; the error envelope is `WriteAPIError` of backend/internal/handler/shared.
pub mod Parse
pub mod Rows
pub mod Finish
pub mod SameRows
pub mod SameFinish
pub mod Agree
use open_scanner.Base.{ℕ, Option, none, some, String, ℤ}

-- The details of an error: the names and the values of the map.
pub data Detail : Type 0 where
  field_name : String → Detail
  got : String → String → Detail
  retry_after : ℕ → Detail
  system_of : ℤ → Detail
  call_of : ℤ → ℤ → Detail

-- `no_content` is the empty answer of the connectivity check.
pub data BodyV1 : Type 0 where
  envelope : String → String → Option Detail → BodyV1
  status_text : String → BodyV1
  imported_v1 : ℕ → BodyV1
  no_content : BodyV1

pub record ResponseV1 : Type 0 where
  pub status : ℕ
  pub body : BodyV1

-- `WriteAPIError`: the status, the code, the message and the details, without the request id that it
-- adds to an answer of 500 or more.
abbrev pub write_api_error : ℕ → String → String → Option Detail → ResponseV1
write_api_error status code what details = record {
  status = status;
  body = envelope code what details;
}

abbrev pub internal_error : String → ResponseV1
internal_error what = write_api_error 500 "internal_error" what none
