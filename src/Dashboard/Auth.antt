-- ===== src/Dashboard/Auth.antt =====
-- qtask_list/dashboard/auth.py: signed session tokens. Texts are lists of bytes; HMAC-SHA-256, JSON
-- and base64 are third-party, and enter as the parameter `Crypto`.
pub mod Sessions
use mathlib.Core.Option.{Option, none, some}
use mathlib.Core.List
use stockev_qtask_list.Base.{
  ℕ, ◌+◌, Bool, true, false, ◌&&◌, ◌||◌, not, ◌==◌, List, [], ◌∷◌, ◌++◌, ltb, ite, ℕ_discrete,
  if◌then◌else◌,
}

abbrev pub Bytes : Type 0
Bytes = List ℕ

unfoldable pub bytes_dec : Discrete Bytes
bytes_dec = hlevel ℕ_discrete

abbrev pub same : Bytes → Bytes → Bool
same a b = ite (bytes_dec a b) true false

abbrev pub is_nil : Bytes → Bool
is_nil [] = true
is_nil (c ∷ cs) = false

-- The environment: texts are empty where they are not set, flags are read by `_truthy`, and the
-- time to live is none where `int` refuses its text.
pub record Env : Type 0 where
  pub user_text : Bytes
  pub password_text : Bytes
  pub secret_text : Bytes
  pub is_forced : Bool
  pub ttl_number : Option ℕ
  pub is_secure : Bool

pub record Settings : Type 0 where
  pub enabled : Bool
  pub username : Bytes
  pub password : Bytes
  pub secret : Bytes
  pub session_ttl : ℕ
  pub secure_cookie : Bool

abbrev pub or_zero : Option ℕ → ℕ
or_zero none = 0
or_zero (some n) = n

-- `get_auth_settings`.
unfoldable pub auth_settings : Env → Settings
auth_settings e = record {
  enabled = not (is_nil e.password_text) || e.is_forced;
  username = e.user_text;
  password = e.password_text;
  secret = if is_nil e.secret_text then e.password_text else e.secret_text;
  session_ttl = or_zero e.ttl_number;
  secure_cookie = e.is_secure;
}

-- `auth_config_error`; a time to live below 0 reads as 0 here.
unfoldable pub has_config_error : Settings → Bool
has_config_error s = s.enabled && (is_nil s.password || s.session_ttl == 0)

unfoldable pub verify_credentials : Settings → Bytes → Bytes → Bool
verify_credentials s username password =
    if not s.enabled
    then true
    else if has_config_error s
    then false
    else same username s.username && same password s.password

-- The fields of a session that a check reads: a JSON object may lack them or hold another value.
pub record Session : Type 0 where
  pub sub : Option Bytes
  pub exp : Option ℕ

-- `_sign`, and `_decode_payload` with the encoding of a payload. The nonce is an argument.
pub record Crypto : Type 0 where
  pub sign : Bytes → Bytes → Bytes
  pub encode : Bytes → ℕ → ℕ → Bytes → Bytes
  pub decode : Bytes → Option Session

abbrev pub dot : ℕ
dot = b'.'

-- `token.isascii()`.
unfoldable pub is_ascii : Bytes → Bool
is_ascii [] = true
is_ascii (c ∷ cs) = ltb c 128 && is_ascii cs

unfoldable pub has_dot : Bytes → Bool
has_dot [] = false
has_dot (c ∷ cs) = c == dot || has_dot cs

-- `token.rsplit(".", 1)` where there is a dot.
unfoldable pub rsplit : Bytes → Option (Bytes × Bytes)
unfolding has_dot
rsplit [] = none
rsplit (c ∷ cs) = elim (rsplit cs) [
  | some (left, right) ↦ some (c ∷ left, right)
  | none ↦ if c == dot then some ([], cs) else none
]

module _ (x : Crypto) where
  unfoldable pub create_session_token : Settings → Bytes → ℕ → Bytes → Bytes
  create_session_token s username now nonce =
      let encoded = x.encode username now (now + s.session_ttl) nonce in
      encoded ++ dot ∷ x.sign encoded s.secret

  abbrev pub is_username : Settings → Option Bytes → Bool
  is_username s none = false
  is_username s (some u) = same u s.username

  abbrev pub is_later : ℕ → Option ℕ → Bool
  is_later now none = false
  is_later now (some t) = ltb now t

  unfoldable pub is_current : Settings → ℕ → Session → Bool
  is_current s now p = is_username s p.sub && is_later now p.exp

  -- The signature is checked before the payload is decoded.
  unfoldable pub check_signed : Settings → ℕ → Bytes × Bytes → Bool
  unfolding is_current
  check_signed s now (encoded, signature) =
      if same signature (x.sign encoded s.secret)
      then elim (x.decode encoded) [ none ↦ false | some p ↦ is_current s now p ]
      else false

  unfoldable pub check_text : Settings → ℕ → Bytes → Bool
  check_text s now token =
      if is_nil token || not (is_ascii token) || has_config_error s
      then false
      else elim (rsplit token) [ none ↦ false | some parts ↦ check_signed s now parts ]

  -- `validate_session_token`; a missing cookie is `none`.
  unfoldable pub validate_session_token : Settings → Option Bytes → ℕ → Bool
  validate_session_token s token now =
      if not s.enabled then true else elim token [ none ↦ false | some t ↦ check_text s now t ]

  -- `require_auth`: the request passes, or the status of the exception.
  unfoldable pub require_auth : Settings → Option Bytes → ℕ → Option ℕ
  require_auth s token now =
      if has_config_error s
      then some 500
      else if s.enabled && not (validate_session_token s token now)
      then some 401
      else none
