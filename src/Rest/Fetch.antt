-- ===== src/Rest/Fetch.antt =====
-- client/src/channels_api.rs: the requests of a client to the REST interface. What the parser makes of
-- a body is a parameter, as is what becomes of a request on its way.
use voices.Common.{ℕ, Bool, true, false, Option, none, some, leb, ltb, ◌&&◌, if◌then◌else◌}
use voices.Rest.{Body, Response}

pub data RequestError : Type 0 where
  retriable fatal : RequestError

pub data Fetched (A : Type 0) : Type 0 where
  ok : A → Fetched A
  err : RequestError → Fetched A

-- `StatusCode::is_success` and `is_client_error`
abbrev pub is_success : ℕ → Bool
is_success status = leb 200 status && ltb status 300

abbrev pub is_client_error : ℕ → Bool
is_client_error status = leb 400 status && ltb status 500

abbrev pub parsed : {A : Type 0} → Option A → Fetched A
parsed none = err fatal
parsed (some a) = ok a

-- `handle_response`; the flag says whether the body is read.
unfoldable pub handle_response :
    {A : Type 0} → (Option Body → Option A) → Bool → Response → Fetched A
handle_response parse false r = err retriable
handle_response parse true r =
    if is_success r.status
    then parsed (parse r.body)
    else if is_client_error r.status
    then err fatal
    else err retriable

-- `get_servers` and `get_server`, on the response to the request, if there is one.
unfoldable pub fetch : {A : Type 0} → (Option Body → Option A) → Bool → Option Response → Fetched A
unfolding handle_response
fetch parse read none = err retriable
fetch parse read (some r) = handle_response parse read r
