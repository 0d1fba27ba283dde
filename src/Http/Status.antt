-- ===== src/Http/Status.antt =====
-- src/http/internal/HttpStatus.cpp and inc/http/HttpStatus.hpp: the status codes, the conversion
-- from a number and the reason phrases.
use server_x.Common.{ℕ, ◌≡◌, ◌≢◌, refl, sym, ◌∙◌, arith, ◌==◌, if◌then◌else◌, Bytes, codes}

pub data HttpStatus : Type 0 where
  unknown_status : HttpStatus
  ok created accepted no_content : HttpStatus
  moved_permanently found see_other not_modified temporary_redirect : HttpStatus
  permanent_redirect : HttpStatus
  bad_request unauthorized forbidden not_found method_not_allowed conflict : HttpStatus
  length_required payload_too_large unsupported_media_type : HttpStatus
  internal_server_error not_implemented bad_gateway : HttpStatus

-- The enumerators' values.
unfoldable pub value : HttpStatus → ℕ
value unknown_status = 0
value ok = 200
value created = 201
value accepted = 202
value no_content = 204
value moved_permanently = 301
value found = 302
value see_other = 303
value not_modified = 304
value temporary_redirect = 307
value permanent_redirect = 308
value bad_request = 400
value unauthorized = 401
value forbidden = 403
value not_found = 404
value method_not_allowed = 405
value conflict = 409
value length_required = 411
value payload_too_large = 413
value unsupported_media_type = 415
value internal_server_error = 500
value not_implemented = 501
value bad_gateway = 502

-- The codes from 400 on, tried last.
client_or_server_error : ℕ → HttpStatus
client_or_server_error code =
    if code == 400
    then bad_request
    else if code == 401
    then unauthorized
    else if code == 403
    then forbidden
    else if code == 404
    then not_found
    else if code == 405
    then method_not_allowed
    else if code == 409
    then conflict
    else if code == 411
    then length_required
    else if code == 413
    then payload_too_large
    else if code == 415
    then unsupported_media_type
    else if code == 500
    then internal_server_error
    else if code == 501
    then not_implemented
    else if code == 502
    then bad_gateway
    else unknown_status

unfoldable pub to_http_status : ℕ → HttpStatus
unfolding client_or_server_error
to_http_status code =
    if code == 200
    then ok
    else if code == 201
    then created
    else if code == 202
    then accepted
    else if code == 204
    then no_content
    else if code == 301
    then moved_permanently
    else if code == 302
    then found
    else if code == 303
    then see_other
    else if code == 304
    then not_modified
    else if code == 307
    then temporary_redirect
    else if code == 308
    then permanent_redirect
    else client_or_server_error code

unfoldable pub get_reason_phrase : HttpStatus → Bytes
get_reason_phrase ok = codes "OK"
get_reason_phrase created = codes "Created"
get_reason_phrase accepted = codes "Accepted"
get_reason_phrase no_content = codes "No Content"
get_reason_phrase moved_permanently = codes "Moved Permanently"
get_reason_phrase found = codes "Found"
get_reason_phrase see_other = codes "See Other"
get_reason_phrase not_modified = codes "Not Modified"
get_reason_phrase temporary_redirect = codes "Temporary Redirect"
get_reason_phrase permanent_redirect = codes "Permanent Redirect"
get_reason_phrase bad_request = codes "Bad Request"
get_reason_phrase unauthorized = codes "Unauthorized"
get_reason_phrase forbidden = codes "Forbidden"
get_reason_phrase not_found = codes "Not Found"
get_reason_phrase method_not_allowed = codes "Method Not Allowed"
get_reason_phrase conflict = codes "Conflict"
get_reason_phrase length_required = codes "Length Required"
get_reason_phrase payload_too_large = codes "Payload Too Large"
get_reason_phrase unsupported_media_type = codes "Unsupported Media Type"
get_reason_phrase internal_server_error = codes "Internal Server Error"
get_reason_phrase not_implemented = codes "Not Implemented"
get_reason_phrase bad_gateway = codes "Bad Gateway"
get_reason_phrase _ = codes "Unknown Status"

pub to_http_status-value : (s : HttpStatus) → to_http_status (value s) ≡ s
unfolding to_http_status value
to_http_status-value ok = refl
to_http_status-value _ = refl

value-client_or_server_error :
    (code : ℕ)
    → client_or_server_error code ≢ unknown_status
    → value (client_or_server_error code) ≡ code
unfolding client_or_server_error value
value-client_or_server_error code h = ground arith

value-to_http_status :
    (code : ℕ) → to_http_status code ≢ unknown_status → value (to_http_status code) ≡ code
unfolding to_http_status value
value-to_http_status code h = ground (arith, value-client_or_server_error code)

-- A status is what its value converts to, and a number whose conversion is a status other than
-- `UNKNOWN_STATUS` is the value of that status.
pub to_http_status_exact :
    (code : ℕ) (s : HttpStatus)
    → (value s ≡ code → to_http_status code ≡ s)
      × (to_http_status code ≡ s → s ≢ unknown_status → value s ≡ code)
to_http_status_exact code s = (
  λ e. rw (← e) (to_http_status-value s),
  λ e h. rw (← e) (value-to_http_status code (λ u. h (sym e ∙ u))),
)
