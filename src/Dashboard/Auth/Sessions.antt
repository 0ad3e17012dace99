-- ===== src/Dashboard/Auth/Sessions.antt =====
-- Session tokens of qtask_list/dashboard/auth.py: what is created is accepted for its time, and
-- what is accepted was signed.
use mathlib.Core.Option.{none, some}
use stockev_qtask_list.Base.{
  ℕ, ◌+◌, ◌<◌, true, false, ◌≡◌, refl, arith, [], ◌∷◌, ◌++◌, ltb, Option-cases, Bool-cases, inl,
  inr, ap, ◌∙◌,
}
use stockev_qtask_list.Dashboard.Auth.{
  Bytes, same, is_nil, Settings, Session, Crypto, dot, is_ascii, has_dot, rsplit, has_config_error,
  create_session_token, check_signed, check_text, is_current, validate_session_token,
}

-- What the code relies on: base64 and JSON give back what was encoded, a hexadecimal signature has
-- no dot, and both texts are ASCII.
pub record IsSound (x : Crypto) : Type 0 where
  pub decode-encode :
      (u : Bytes) (iat exp : ℕ) (nonce : Bytes)
      → x.decode (x.encode u iat exp nonce) ≡ some (record { sub = some u; exp = some exp })
  pub sign_undotted : (p s : Bytes) → has_dot (x.sign p s) ≡ false
  pub sign_ascii : (p s : Bytes) → is_ascii (x.sign p s) ≡ true
  pub encode_ascii :
      (u : Bytes) (iat exp : ℕ) (nonce : Bytes) → is_ascii (x.encode u iat exp nonce) ≡ true

rsplit-undotted : (ys : Bytes) → has_dot ys ≡ false → rsplit ys ≡ none
unfolding rsplit has_dot
rsplit-undotted [] h = refl
rsplit-undotted (c ∷ ys) h = ground (arith, rsplit-undotted ys)

rsplit-append : (xs ys : Bytes) → has_dot ys ≡ false → rsplit (xs ++ dot ∷ ys) ≡ some (xs, ys)
unfolding rsplit
rsplit-append [] ys h = ground (arith, rsplit-undotted ys h)
rsplit-append (c ∷ xs) ys h = ground (arith, rsplit-append xs ys h)

is_ascii-append :
    (xs ys : Bytes) → is_ascii xs ≡ true → is_ascii ys ≡ true → is_ascii (xs ++ dot ∷ ys) ≡ true
unfolding is_ascii
is_ascii-append [] ys h k = ground arith
is_ascii-append (c ∷ xs) ys h k = ground (arith, is_ascii-append xs ys)

same_refl : (a : Bytes) → same a a ≡ true
same_refl a = ground arith

is_nil-append : (xs ys : Bytes) → is_nil (xs ++ dot ∷ ys) ≡ false
is_nil-append [] ys = refl
is_nil-append (c ∷ xs) ys = refl

-- With sessions enabled and set up, a token that is created at `t` for the configured user is
-- accepted exactly until the time to live has passed.
pub validate-create :
    (x : Crypto) (s : Settings) (t now : ℕ) (nonce : Bytes)
    → IsSound x
    → s.enabled ≡ true
    → has_config_error s ≡ false
    → validate_session_token x s (some (create_session_token x s s.username t nonce)) now
      ≡ ltb now (t + s.session_ttl)
unfolding validate_session_token check_text check_signed is_current create_session_token
validate-create x s t now nonce sound on fine =
    let encoded = x.encode s.username t (t + s.session_ttl) nonce in
    ground (
      arith,
      is_nil-append encoded (x.sign encoded s.secret),
      is_ascii-append encoded (x.sign encoded s.secret)
          (sound.encode_ascii s.username t (t + s.session_ttl) nonce)
          (sound.sign_ascii encoded s.secret),
      rsplit-append encoded (x.sign encoded s.secret) (sound.sign_undotted encoded s.secret),
      sound.decode-encode s.username t (t + s.session_ttl) nonce,
      same_refl s.username,
      same_refl (x.sign encoded s.secret),
    )

same-eq : (a b : Bytes) → same a b ≡ true → a ≡ b
same-eq a b h = ground arith

rsplit-eq : (t xs ys : Bytes) → rsplit t ≡ some (xs, ys) → t ≡ xs ++ dot ∷ ys
unfolding rsplit
rsplit-eq [] xs ys e = ground arith
rsplit-eq (c ∷ t) xs ys e = elim (Option-cases (rsplit t)) [
  | inl n ↦ ground arith
  | inr ((ls, rs), k) ↦ ground (arith, rsplit-eq t ls rs k)
]

-- A token as the server signs it, for the configured user and a time after `now`.
pub record IsGenuine (x : Crypto) (s : Settings) (now : ℕ) (t : Bytes) : Type 0 where
  pub encoded : Bytes
  pub signed : t ≡ encoded ++ dot ∷ x.sign encoded s.secret
  pub until : ℕ
  pub decoded : x.decode encoded ≡ some (record { sub = some s.username; exp = some until })
  pub lasting : now < until

is_current-fields :
    (x : Crypto) (s : Settings) (now : ℕ) (p : Session)
    → is_current x s now p ≡ true
    → (until : ℕ) × (p ≡ record { sub = some s.username; exp = some until }) × (now < until)
unfolding is_current
is_current-fields x s now p h = elim (Option-cases p.exp) [
  | inl n ↦ ground arith
  | inr (t, e) ↦ elim (Option-cases p.sub) [
    | inl n ↦ ground arith
    | inr (u, f) ↦ (t, ground (arith, same-eq u s.username), ground arith)
  ]
]

check_signed-IsGenuine :
    (x : Crypto) (s : Settings) (now : ℕ) (encoded signature t : Bytes)
    → t ≡ encoded ++ dot ∷ signature
    → check_signed x s now (encoded, signature) ≡ true
    → IsGenuine x s now t
unfolding check_signed
check_signed-IsGenuine x s now encoded signature t e h =
    elim (Bool-cases (same signature (x.sign encoded s.secret))) [
      | inr n ↦ ground arith
      | inl y ↦ elim (Option-cases (x.decode encoded)) [
        | inl n ↦ ground arith
        | inr (p, d) ↦
            let (until, fields, later) = is_current-fields x s now p (ground arith) in
            record {
              encoded = encoded;
              signed = e ∙ ap (λ z. encoded ++ dot ∷ z) (same-eq _ _ y);
              until = until;
              decoded = d ∙ ap some fields;
              lasting = later;
            }
      ]
    ]

check_text-IsGenuine :
    (x : Crypto) (s : Settings) (now : ℕ) (t : Bytes)
    → check_text x s now t ≡ true
    → IsGenuine x s now t
unfolding check_text
check_text-IsGenuine x s now t h = elim (Option-cases (rsplit t)) [
  | inl n ↦ ground arith
  | inr ((encoded, signature), e) ↦
      check_signed-IsGenuine x s now encoded signature t (rsplit-eq t encoded signature e)
        (ground arith)
]

-- With sessions enabled, a cookie that is accepted is a text with the server's own signature, whose
-- payload names the configured user and a time that has not come.
pub validate-IsGenuine :
    (x : Crypto) (s : Settings) (now : ℕ) (t : Bytes)
    → s.enabled ≡ true
    → validate_session_token x s (some t) now ≡ true
    → IsGenuine x s now t
unfolding validate_session_token
validate-IsGenuine x s now t on h = check_text-IsGenuine x s now t (ground arith)
