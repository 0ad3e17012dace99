-- ===== src/Examples/Sessions.antt =====
-- A session of the dashboard, with a coding in place of base64 and JSON.
use mathlib.Core.Option.{Option, none, some}
use stockev_qtask_list.Base.{
  ℕ, zero, suc, ◌+◌, true, false, ◌≡◌, refl, arith, List, [], ◌∷◌, ◌++◌, ltb, ap, ◌∙◌, ◌==◌,
  ℕ_discrete, if◌then◌else◌,
}
use stockev_qtask_list.Dashboard.Auth.{
  Bytes, bytes_dec, Settings, Session, Crypto, is_ascii, has_dot, has_config_error,
  create_session_token, validate_session_token, check_text, check_signed, is_current, rsplit,
}
use stockev_qtask_list.Dashboard.Auth.Sessions.{
  IsSound, validate-create, IsGenuine, validate-IsGenuine,
}

-- A number as that many ones, each number ended by a two.
abbrev ones : ℕ → Bytes → Bytes
ones zero rest = 2 ∷ rest
ones (suc n) rest = 1 ∷ ones n rest

abbrev code_all : List ℕ → Bytes
code_all [] = []
code_all (n ∷ ns) = ones n (code_all ns)

abbrev bump : List ℕ → List ℕ
bump [] = []
bump (n ∷ ns) = suc n ∷ ns

abbrev read_all : Bytes → List ℕ
read_all [] = []
read_all (b ∷ bs) = let rest = read_all bs in if b == 1 then bump rest else 0 ∷ rest

read_all-ones : (n : ℕ) (rest : Bytes) → read_all (ones n rest) ≡ n ∷ read_all rest
read_all-ones zero rest = refl
read_all-ones (suc n) rest = ap bump (read_all-ones n rest)

read_all-code_all : (ns : List ℕ) → read_all (code_all ns) ≡ ns
read_all-code_all [] = refl
read_all-code_all (n ∷ ns) = read_all-ones n (code_all ns) ∙ ap (λ z. n ∷ z) (read_all-code_all ns)

is_ascii-ones : (n : ℕ) (rest : Bytes) → is_ascii rest ≡ true → is_ascii (ones n rest) ≡ true
unfolding is_ascii
is_ascii-ones zero rest h = ground arith
is_ascii-ones (suc n) rest h = ground (arith, is_ascii-ones n rest)

is_ascii-code_all : (ns : List ℕ) → is_ascii (code_all ns) ≡ true
unfolding is_ascii
is_ascii-code_all [] = refl
is_ascii-code_all (n ∷ ns) = is_ascii-ones n (code_all ns) (is_ascii-code_all ns)

abbrev session_of : List ℕ → Option Session
session_of [] = none
session_of (exp ∷ user) = some (record { sub = some user; exp = some exp })

abbrev coding : Crypto
coding = record {
  sign = λ payload secret. 97 ∷ [];
  encode = λ user iat exp nonce. code_all (exp ∷ user);
  decode = λ payload. session_of (read_all payload);
}

coding-IsSound : IsSound coding
unfolding is_ascii has_dot
coding-IsSound = record {
  decode-encode = λ user iat exp nonce. ap session_of (read_all-code_all (exp ∷ user));
  sign_undotted = λ payload secret. refl;
  sign_ascii = λ payload secret. refl;
  encode_ascii = λ user iat exp nonce. is_ascii-code_all (exp ∷ user);
}

abbrev settings : Settings
settings = record {
  enabled = true;
  username = 1 ∷ 2 ∷ [];
  password = 3 ∷ [];
  secret = 3 ∷ [];
  session_ttl = 4;
  secure_cookie = false;
}

well_configured : has_config_error settings ≡ false
unfolding has_config_error
well_configured = refl

validate-create_example :
    validate_session_token coding settings
      (some (create_session_token coding settings (1 ∷ 2 ∷ []) 3 []))
      5
    ≡ ltb 5 (3 + 4)
validate-create_example = validate-create coding settings 3 5 [] coding-IsSound refl well_configured

-- The time 7 and the user's name, a dot, the signature.
abbrev token : Bytes
token = code_all (7 ∷ 1 ∷ 2 ∷ []) ++ 46 ∷ 97 ∷ []

token_is_valid : validate_session_token coding settings (some token) 5 ≡ true
unfolding validate_session_token check_text check_signed is_current rsplit is_ascii has_config_error
    bytes_dec ℕ_discrete
token_is_valid = refl

validate-IsGenuine_example : IsGenuine coding settings 5 token
validate-IsGenuine_example = validate-IsGenuine coding settings 5 token refl token_is_valid
