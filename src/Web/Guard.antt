-- ===== src/Web/Guard.antt =====
-- Whose requests the dashboard obeys.
use toss_api_quant_trading.Prelude.{
  ℕ, String, Bool, Option, some, none, List, [], ◌∷◌, true, false, str_eq, if◌then◌else◌, ◌||◌,
  ◌&&◌, ◌≡◌, ◌≢◌, arith, eq_iff, refl, inl, inr, Bool-cases,
}
use toss_api_quant_trading.Store.{Store}
use toss_api_quant_trading.Runner.{BrokerOps}
use toss_api_quant_trading.Web.{
  Request, Endpoint, Auth, authorized, rejected, type_error, auth, supplied_token, or_text, respond,
  respond_all, create_app, dashboard, api_state, api_curve, healthz, post_halt, post_resume, routed,
}

abbrev pub is_token : String → Option String → Bool
is_token secret none = false
is_token secret (some text) = str_eq text secret

abbrev pub is_blank : Option String → Bool
is_blank none = true
is_blank (some text) = str_eq text ""

-- The request brings the secret in its query, or in its cookie with nothing in its query.
abbrev pub carries : String → Request → Bool
carries secret r = is_token secret r.token || is_blank r.token && is_token secret r.cookie

-- The requests that bring the secret, in their order.
abbrev pub with_secret : String → List (ℕ × Request) → List (ℕ × Request)
with_secret secret [] = []
with_secret secret ((now, r) ∷ rest) =
    let kept = with_secret secret rest in if carries secret r then (now, r) ∷ kept else kept

or_text-carries :
    (secret : String) (token cookie : Option String)
    → secret ≢ ""
    → (is_token secret token || is_blank token && is_token secret cookie) ≡ false
    → str_eq (or_text token (or_text cookie "")) secret ≡ false
or_text-carries secret none none n h = ground (arith, eq_iff "" secret)
or_text-carries secret none (some c) n h =
    ground (arith, eq_iff "" secret, eq_iff c "", eq_iff c secret)
or_text-carries secret (some t) none n h =
    ground (arith, eq_iff "" secret, eq_iff t "", eq_iff t secret)
or_text-carries secret (some t) (some c) n h =
    ground (arith, eq_iff "" secret, eq_iff t "", eq_iff t secret, eq_iff c "", eq_iff c secret)

auth-carries :
    (secret : String) (r : Request)
    → secret ≢ ""
    → carries secret r ≡ false
    → auth secret r ≢ authorized
unfolding auth supplied_token
auth-carries secret r n h =
    let e = or_text-carries secret r.token r.cookie n h in rw e (ground arith)

module _ (runner : Option BrokerOps) where
  routed-store :
      (a : Auth) (e : Endpoint) (now : ℕ) (s : Store)
      → a ≢ authorized
      → (routed runner a e now s).1 ≡ s
  routed-store a healthz now s n = refl
  routed-store authorized e now s n = absurd (n refl)
  routed-store rejected dashboard now s n = refl
  routed-store rejected api_state now s n = refl
  routed-store rejected api_curve now s n = refl
  routed-store rejected (post_halt reason) now s n = refl
  routed-store rejected post_resume now s n = refl
  routed-store type_error dashboard now s n = refl
  routed-store type_error api_state now s n = refl
  routed-store type_error api_curve now s n = refl
  routed-store type_error (post_halt reason) now s n = refl
  routed-store type_error post_resume now s n = refl

  respond-store :
      (secret : String) (r : Request) (now : ℕ) (s : Store)
      → secret ≢ ""
      → carries secret r ≡ false
      → (respond runner secret r now s).1 ≡ s
  unfolding respond
  respond-store secret r now s n h =
      routed-store (auth secret r) r.endpoint now s (auth-carries secret r n h)

  -- In an application that starts, requests that do not bring the secret change nothing: after any
  -- sequence of requests the ledger, with its switch, is what it would be if only those with the
  -- secret had come. The secret is not empty, so a request with no token and no cookie is never
  -- among these.
  pub respond_all-with_secret :
      (secret : String) (rs : List (ℕ × Request)) (s : Store)
      → create_app secret ≡ some secret
      → respond_all runner secret rs s ≡ respond_all runner secret (with_secret secret rs) s
  unfolding respond_all create_app
  respond_all-with_secret secret [] s c = refl
  respond_all-with_secret secret ((now, r) ∷ rest) s c = elim (Bool-cases (carries secret r)) [
    | inl e ↦ rw e (respond_all-with_secret secret rest (respond runner secret r now s).1 c)
    | inr e ↦
        let n : secret ≢ "" = λ q. ground (arith, eq_iff secret "") in
        rw (e, respond-store secret r now s n e) (respond_all-with_secret secret rest s c)
  ]
