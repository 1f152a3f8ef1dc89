-- ===== src/Session/Auth.antt =====
-- The checks before a WebSocket upgrade, internal/session/auth.go. A header is a key with its values, and
-- a request the list of its headers; a text is the list of its code points. SHA-256 is a parameter, from
-- a text to its digest. The logging is left out.
pub mod Limits
pub mod Laws
mod Tests
use xiaozhi_esp32_golang_ser.Prelude.{
  ℕ, ◌+◌, Bool, true, false, ◌||◌, Option, none, some, List, [], ◌∷◌, ltb, ◌==◌, if◌then◌else◌, not,
}
use xiaozhi_esp32_golang_ser.Session.Splitter.{trim_space}
use xiaozhi_esp32_golang_ser.Session.Message.{Text}
use xiaozhi_esp32_golang_ser.Session.Message.Parse.{text_eq, codes}

abbrev pub max_single_header_bytes : ℕ
max_single_header_bytes = 1024

abbrev pub max_total_header_bytes : ℕ
max_total_header_bytes = 8192

pub data AuthKind : Type 0 where
  header_too_large missing_token invalid_token_format invalid_token : AuthKind
  invalid_protocol_version nil_request : AuthKind

pub record ClientHeaderInfo : Type 0 where
  pub device_id : Text
  pub client_id : Text
  pub serial_number : Text
  pub protocol_version : Text
  pub user_agent : Text

pub record AuthError : Type 0 where
  pub status_code : ℕ
  pub kind : AuthKind

-- An error that `HTTPStatus` is asked about: wrapped with its status, or plain.
pub data AnyError : Type 0 where
  wrapped : AuthError → AnyError
  plain : AuthKind → AnyError

unfoldable pub plain_status : AuthKind → ℕ
plain_status missing_token = 401
plain_status invalid_token_format = 401
plain_status invalid_token = 401
plain_status header_too_large = 400
plain_status invalid_protocol_version = 400
plain_status nil_request = 400

unfoldable pub http_status : Option AnyError → ℕ
unfolding plain_status
http_status none = 200
http_status (some (wrapped e)) = e.status_code
http_status (some (plain kind)) = plain_status kind

abbrev pub Header : Type 0
Header = List (Text × List Text)

-- `len` of a text: the bytes of its UTF-8 form.
unfoldable pub rune_bytes : ℕ → ℕ
rune_bytes r = if ltb r 0x80 then 1 else if ltb r 0x800 then 2 else if ltb r 0x10000 then 3 else 4

unfoldable pub byte_length : Text → ℕ
byte_length [] = 0
byte_length (r ∷ t) = rune_bytes r + byte_length t

-- The inner loop over the values of a key, from the length so far; `none` for a header that is too large.
unfoldable pub check_values : ℕ → ℕ → List Text → ℕ → Option ℕ
check_values max_single max_total [] total = some total
check_values max_single max_total (val ∷ values) total =
    let rest = check_values max_single max_total values (total + byte_length val) in
    if ltb max_single (byte_length val)
    then none
    else if ltb max_total (total + byte_length val)
    then none
    else rest

-- The outer loop, in whatever order the map gives the keys.
unfoldable pub check_headers : ℕ → ℕ → Header → ℕ → Option ℕ
check_headers max_single max_total [] total = some total
check_headers max_single max_total ((key, values) ∷ headers) total =
    if ltb max_single (byte_length key)
    then none
    else elim (check_values max_single max_total values (total + byte_length key)) [
      | none ↦ none
      | some total' ↦ check_headers max_single max_total headers total'
    ]

unfoldable pub validate_headers : Header → ℕ → ℕ → Option AuthKind
validate_headers headers max_single max_total =
    elim (check_headers (if max_single == 0 then max_single_header_bytes else max_single)
      (if max_total == 0 then max_total_header_bytes else max_total) headers 0) [
        | none ↦ some header_too_large
        | some total ↦ none
      ]

-- `Header.Get`: the first value of a key in canonical form, or the empty text.
unfoldable pub first_value : List Text → Text
first_value [] = []
first_value (val ∷ values) = val

unfoldable pub get_header : Text → Header → Text
unfolding first_value
get_header key [] = []
get_header key ((k, values) ∷ headers) =
    if text_eq k key then first_value values else get_header key headers

-- `strings.HasPrefix` and `strings.TrimPrefix`.
unfoldable pub strip_prefix : Text → Text → Option Text
strip_prefix [] t = some t
strip_prefix (c ∷ p) [] = none
strip_prefix (c ∷ p) (d ∷ t) = if c == d then strip_prefix p t else none

unfoldable pub is_empty : Text → Bool
is_empty [] = true
is_empty (c ∷ t) = false

pub data Admission : Type 0 where
  admitted : ClientHeaderInfo → Admission
  rejected : AuthError → Admission

abbrev pub refuse : ℕ → AuthKind → Admission
refuse status kind = rejected (record { status_code = status; kind = kind })

unfoldable pub client_info : Header → ClientHeaderInfo
client_info headers = record {
  device_id = trim_space (get_header (codes "Device-Id") headers);
  client_id = trim_space (get_header (codes "Client-Id") headers);
  serial_number = trim_space (get_header (codes "Serial-Number") headers);
  protocol_version = trim_space (get_header (codes "Protocol-Version") headers);
  user_agent = get_header (codes "User-Agent") headers;
}

module _ (sha256 : Text → List ℕ) where
  -- The token against the shared one, by their digests.
  unfoldable pub check_token : Text → Text → ClientHeaderInfo → Admission
  unfolding is_empty
  check_token shared_token token info =
      if is_empty token
      then refuse 401 invalid_token_format
      else if is_empty shared_token
      then refuse 401 invalid_token
      else if text_eq (sha256 token) (sha256 shared_token)
      then admitted info
      else refuse 401 invalid_token

  unfoldable pub check_bearer : Text → Option Text → ClientHeaderInfo → Admission
  unfolding check_token
  check_bearer shared_token none info = refuse 401 invalid_token_format
  check_bearer shared_token (some token) info = check_token shared_token (trim_space token) info

  unfoldable pub check_authorization : Text → Text → ClientHeaderInfo → Admission
  unfolding check_bearer
  check_authorization shared_token auth_header info =
      if is_empty auth_header
      then refuse 401 missing_token
      else check_bearer shared_token (strip_prefix (codes "Bearer ") auth_header) info

  unfoldable pub check_version : Text → Header → Admission
  unfolding check_authorization
  check_version shared_token headers =
      if text_eq (trim_space (get_header (codes "Protocol-Version") headers)) (codes "1")
      then check_authorization shared_token (get_header (codes "Authorization") headers)
          (client_info headers)
      else refuse 400 invalid_protocol_version

  -- `none` is a nil request; a limit of 0 stands for one that is not positive.
  unfoldable pub authenticate_upgrade : Option Header → Text → ℕ → Admission
  unfolding check_version
  authenticate_upgrade none shared_token max_header_bytes = refuse 400 nil_request
  authenticate_upgrade (some headers) shared_token max_header_bytes =
      elim (validate_headers headers
        (if max_header_bytes == 0 then max_single_header_bytes else max_header_bytes)
        max_total_header_bytes) [
          | some kind ↦ refuse 400 kind
          | none ↦ check_version shared_token headers
        ]
