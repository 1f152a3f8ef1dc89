-- ===== src/Session/Auth/Laws.antt =====
-- Who is let in.
use xiaozhi_esp32_golang_ser.Prelude.{
  ℕ, ◌≡◌, ◌≢◌, ◌↔◌, ◌≤◌, ◌∙◌, ap, sym, subst, Bool, refl, none, some, List, [], ◌∷◌, ◌++◌, ◌==◌,
  if◌then◌else◌, arith, Bool-cases, Option-cases, inl, inr,
}
use xiaozhi_esp32_golang_ser.Session.Splitter.{trim_space}
use xiaozhi_esp32_golang_ser.Session.Message.{Text}
use xiaozhi_esp32_golang_ser.Session.Message.Parse.{text_eq, codes}
use xiaozhi_esp32_golang_ser.Session.Message.TextLaws.{text_eq_iff}
use xiaozhi_esp32_golang_ser.Session.Auth.Limits.{
  ShortParts, HasValues, header_bytes, validate_headers_iff,
}
use xiaozhi_esp32_golang_ser.Session.Auth.{
  Header, ClientHeaderInfo, admitted, validate_headers, max_single_header_bytes,
  max_total_header_bytes, get_header, client_info, strip_prefix, check_token, check_bearer,
  check_authorization, check_version, authenticate_upgrade,
}

strip_prefix-some : (p t r : Text) → strip_prefix p t ≡ some r → t ≡ p ++ r
unfolding strip_prefix
strip_prefix-some [] t r h = ground arith
strip_prefix-some (c ∷ p) [] r h = cc
strip_prefix-some (c ∷ p) (d ∷ t) r h = ground (arith, strip_prefix-some p t r)

strip_prefix-append : (p r : Text) → strip_prefix p (p ++ r) ≡ some r
unfolding strip_prefix
strip_prefix-append [] r = refl
strip_prefix-append (c ∷ p) r = ground (arith, strip_prefix-append p r)

module _ (sha256 : Text → List ℕ) where
  -- The `Authorization` header holds `Bearer ` and a token whose digest is that of the shared one.
  pub record IsBearer (shared_token auth_header : Text) : Type 0 where
    pub token : Text
    pub prefixed : auth_header ≡ codes "Bearer " ++ token
    pub filled : trim_space token ≢ []
    pub configured : shared_token ≢ []
    pub same_digest : sha256 (trim_space token) ≡ sha256 shared_token

  check_token_admits :
      (shared_token token : Text) (info i : ClientHeaderInfo)
      → check_token sha256 shared_token token info ≡ admitted i
      → (i ≡ info) × (token ≢ []) × (shared_token ≢ []) × (sha256 token ≡ sha256 shared_token)
  unfolding check_token
  check_token_admits [] [] info i h = cc
  check_token_admits (c ∷ shared_token) [] info i h = cc
  check_token_admits [] (d ∷ token) info i h = cc
  check_token_admits (c ∷ shared_token) (d ∷ token) info i h =
      ground (arith, text_eq_iff (sha256 (d ∷ token)) (sha256 (c ∷ shared_token)))

  check_token_passes :
      (shared_token token : Text) (info : ClientHeaderInfo)
      → token ≢ []
      → shared_token ≢ []
      → sha256 token ≡ sha256 shared_token
      → check_token sha256 shared_token token info ≡ admitted info
  unfolding check_token
  check_token_passes shared_token [] info filled configured same = absurd (filled refl)
  check_token_passes [] (d ∷ token) info filled configured same = absurd (configured refl)
  check_token_passes (c ∷ shared_token) (d ∷ token) info filled configured same =
      ground (arith, text_eq_iff (sha256 (d ∷ token)) (sha256 (c ∷ shared_token)))

  check_authorization_admits :
      (shared_token auth_header : Text) (info i : ClientHeaderInfo)
      → check_authorization sha256 shared_token auth_header info ≡ admitted i
      → IsBearer shared_token auth_header × (i ≡ info)
  unfolding check_authorization check_bearer
  check_authorization_admits shared_token [] info i h = cc
  check_authorization_admits shared_token (c ∷ auth) info i h =
      elim (Option-cases (strip_prefix (codes "Bearer ") (c ∷ auth))) [
        | inl bad ↦ ground arith
        | inr (token, good) ↦
            let (same, filled, configured, digest) =
              check_token_admits shared_token (trim_space token) info i (ground arith) in
            (
              record {
                token = token;
                prefixed = strip_prefix-some (codes "Bearer ") (c ∷ auth) token good;
                filled = filled;
                configured = configured;
                same_digest = digest;
              },
              same,
            )
      ]

  check_authorization_passes :
      (shared_token auth_header : Text) (info : ClientHeaderInfo)
      → IsBearer shared_token auth_header
      → check_authorization sha256 shared_token auth_header info ≡ admitted info
  unfolding check_authorization check_bearer
  check_authorization_passes shared_token auth_header info b =
      rw (b.prefixed, strip_prefix-append (codes "Bearer ") b.token)
        (check_token_passes shared_token (trim_space b.token) info b.filled b.configured
          b.same_digest)

  check_version_admits :
      (shared_token : Text) (headers : Header) (info : ClientHeaderInfo)
      → check_version sha256 shared_token headers ≡ admitted info
      → (trim_space (get_header (codes "Protocol-Version") headers) ≡ codes "1")
        × IsBearer shared_token (get_header (codes "Authorization") headers)
        × (info ≡ client_info headers)
  unfolding check_version
  check_version_admits shared_token headers info h =
      let version = trim_space (get_header (codes "Protocol-Version") headers) in
      elim (Bool-cases (text_eq version (codes "1"))) [
        | inl good ↦
            let (bearer, described) =
              check_authorization_admits shared_token (get_header (codes "Authorization") headers)
                (client_info headers) info (ground arith) in
            ((text_eq_iff version (codes "1")).0 good, bearer, described)
        | inr bad ↦ ground arith
      ]

  check_version_passes :
      (shared_token : Text) (headers : Header)
      → trim_space (get_header (codes "Protocol-Version") headers) ≡ codes "1"
      → IsBearer shared_token (get_header (codes "Authorization") headers)
      → check_version sha256 shared_token headers ≡ admitted (client_info headers)
  unfolding check_version
  check_version_passes shared_token headers version bearer =
      rw
        ((text_eq_iff (trim_space (get_header (codes "Protocol-Version") headers)) (codes "1")).1
          version)
        (check_authorization_passes shared_token (get_header (codes "Authorization") headers)
          (client_info headers) bearer)

  -- What a request must show. A limit of 0 stands for the default.
  pub record IsAdmitted (headers : Header) (shared_token : Text) (max_header_bytes : ℕ)
      (info : ClientHeaderInfo) : Type 0 where
    pub short_parts :
        ShortParts
          (if max_header_bytes == 0 then max_single_header_bytes else max_header_bytes)
          headers
    pub fits : header_bytes headers ≤ max_total_header_bytes
    pub version_1 : trim_space (get_header (codes "Protocol-Version") headers) ≡ codes "1"
    pub bearer : IsBearer shared_token (get_header (codes "Authorization") headers)
    pub device_id : info.device_id ≡ trim_space (get_header (codes "Device-Id") headers)
    pub client_id : info.client_id ≡ trim_space (get_header (codes "Client-Id") headers)
    pub serial_number : info.serial_number ≡ trim_space (get_header (codes "Serial-Number") headers)
    pub protocol_version : info.protocol_version ≡ codes "1"
    pub user_agent : info.user_agent ≡ get_header (codes "User-Agent") headers

  limit_lem :
      (headers : Header) (m : ℕ)
      → HasValues headers
      → (validate_headers headers
            (if m == 0 then max_single_header_bytes else m)
            max_total_header_bytes
          ≡ none)
        ↔ (ShortParts (if m == 0 then max_single_header_bytes else m) headers
            × (header_bytes headers ≤ max_total_header_bytes))
  limit_lem headers m valued = elim (Bool-cases (m == 0)) [
    | inl e ↦
        rw e (validate_headers_iff headers max_single_header_bytes max_total_header_bytes valued)
    | inr e ↦
        subst
          (λ (b : Bool).
            (validate_headers headers (if b then max_single_header_bytes else m)
                max_total_header_bytes
              ≡ none)
            ↔ (ShortParts (if b then max_single_header_bytes else m) headers
                × (header_bytes headers ≤ max_total_header_bytes)))
          (sym e)
          (subst
            (λ (b : Bool). (validate_headers headers m max_total_header_bytes ≡ none) ↔ (
              ShortParts (if b then max_single_header_bytes else m) headers
              × (header_bytes headers ≤ max_total_header_bytes)))
            e (validate_headers_iff headers m max_total_header_bytes valued))
  ]

  described_lem :
      (info : ClientHeaderInfo) (headers : Header)
      → info.device_id ≡ trim_space (get_header (codes "Device-Id") headers)
      → info.client_id ≡ trim_space (get_header (codes "Client-Id") headers)
      → info.serial_number ≡ trim_space (get_header (codes "Serial-Number") headers)
      → info.protocol_version ≡ trim_space (get_header (codes "Protocol-Version") headers)
      → info.user_agent ≡ get_header (codes "User-Agent") headers
      → info ≡ client_info headers
  unfolding client_info
  described_lem info headers a b c d e = ground arith

  admits :
      (headers : Header) (shared_token : Text) (max_header_bytes : ℕ) (info : ClientHeaderInfo)
      → HasValues headers
      → authenticate_upgrade sha256 (some headers) shared_token max_header_bytes ≡ admitted info
      → IsAdmitted headers shared_token max_header_bytes info
  unfolding authenticate_upgrade
  admits headers shared_token max_header_bytes info valued h =
      let limit : ℕ = if max_header_bytes == 0 then max_single_header_bytes else max_header_bytes in
      elim (Option-cases (validate_headers headers limit max_total_header_bytes)) [
        | inl good ↦
            let (version, bearer, described) =
              check_version_admits shared_token headers info (ground arith) in
            record {
              short_parts = ((limit_lem headers max_header_bytes valued).0 good).0;
              fits = ((limit_lem headers max_header_bytes valued).0 good).1;
              version_1 = version;
              bearer = bearer;
              device_id = unfold client_info in ap (λ i. i.device_id) described;
              client_id = unfold client_info in ap (λ i. i.client_id) described;
              serial_number = unfold client_info in ap (λ i. i.serial_number) described;
              protocol_version =
                  unfold client_info in ap (λ i. i.protocol_version) described ∙ version;
              user_agent = unfold client_info in ap (λ i. i.user_agent) described;
            }
        | inr (kind, bad) ↦ ground arith
      ]

  passes :
      (headers : Header) (shared_token : Text) (max_header_bytes : ℕ) (info : ClientHeaderInfo)
      → HasValues headers
      → IsAdmitted headers shared_token max_header_bytes info
      → authenticate_upgrade sha256 (some headers) shared_token max_header_bytes ≡ admitted info
  unfolding authenticate_upgrade
  passes headers shared_token max_header_bytes info valued a =
      let passed = check_version_passes shared_token headers a.version_1 a.bearer in
      let good = (limit_lem headers max_header_bytes valued).1 (a.short_parts, a.fits) in
      let described =
        described_lem info headers a.device_id a.client_id a.serial_number
          (a.protocol_version ∙ sym a.version_1) a.user_agent in
      ground (arith, good, described)

  -- An upgrade whose headers have values, as those of a request do, is admitted exactly if every key and
  -- value is short and all together are, the protocol version is 1, and the bearer token's digest is that of
  -- the shared token, which is not empty; the client is then described by its own headers.
  pub authenticate_upgrade_iff :
      (headers : Header) (shared_token : Text) (max_header_bytes : ℕ) (info : ClientHeaderInfo)
      → HasValues headers
      → (authenticate_upgrade sha256 (some headers) shared_token max_header_bytes ≡ admitted info)
        ↔ IsAdmitted headers shared_token max_header_bytes info
  authenticate_upgrade_iff headers shared_token max_header_bytes info valued = (
    admits headers shared_token max_header_bytes info valued,
    passes headers shared_token max_header_bytes info valued,
  )
