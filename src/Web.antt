-- ===== src/Web.antt =====
-- src/tqt/web/app.py: the dashboard, as its requests on the state of the bot. The pages are left out;
-- what they need of the account is the snapshot of the broker.
pub mod Guard
mod Tests
use Prim.Native.String.{◌++◌}
use toss_api_quant_trading.Prelude.{
  ℕ, String, Bool, Option, some, none, List, [], ◌∷◌, true, false, not, str_eq, if◌then◌else◌, ◌||◌,
  leb, ◌&&◌,
}
use toss_api_quant_trading.Universe.{codes}
use toss_api_quant_trading.Store.{Store, operator}
use toss_api_quant_trading.Risk.{halt, resume}
use toss_api_quant_trading.Runner.{BrokerOps}

-- The endpoints that need a token, and the probe.
pub data Endpoint : Type 0 where
  dashboard api_state api_curve healthz : Endpoint
  post_halt : String → Endpoint
  post_resume : Endpoint

-- A request, with its query token and its cookie.
pub record Request : Type 0 where
  pub endpoint : Endpoint
  pub token : Option String
  pub cookie : Option String

pub data Response : Type 0 where
  -- 200, 303 to the dashboard, 401, 503, and 500 for a token that is not ASCII
  page redirect unauthorized no_runner server_error : Response

-- `token or cookie or ""`
abbrev pub or_text : Option String → String → String
or_text none other = other
or_text (some text) other = if str_eq text "" then other else text

unfoldable pub supplied_token : Request → String
supplied_token r = or_text r.token (or_text r.cookie "")

abbrev pub is_ascii : List ℕ → Bool
is_ascii [] = true
is_ascii (c ∷ cs) = leb c 127 && is_ascii cs

pub data Auth : Type 0 where
  authorized rejected type_error : Auth

-- `auth`: `secrets.compare_digest` raises a TypeError for a text that is not ASCII.
unfoldable pub auth : String → Request → Auth
auth secret r =
    if not (is_ascii (codes (supplied_token r))) || not (is_ascii (codes secret))
    then type_error
    else if str_eq (supplied_token r) secret
    then authorized
    else rejected

module _ (runner : Option BrokerOps) where
  -- `gather` takes a snapshot where a runner is attached.
  abbrev pub gather : Option BrokerOps → Store → Store
  gather none s = s
  gather (some ops) s = (ops.take_snapshot s).1

  abbrev pub with_runner : Option BrokerOps → Store → Store → Response × Store
  with_runner none s done = (no_runner, s)
  with_runner (some ops) s done = (redirect, done)

  -- An endpoint behind its guard.
  abbrev pub serve_endpoint : Endpoint → ℕ → Store → Response × Store
  serve_endpoint dashboard now s = (page, gather runner s)
  serve_endpoint api_state now s = (page, gather runner s)
  serve_endpoint api_curve now s = (page, s)
  serve_endpoint healthz now s = (page, s)
  serve_endpoint (post_halt reason) now s =
      with_runner runner s (halt (operator ("dashboard: " ++ reason)) false now s)
  serve_endpoint post_resume now s = with_runner runner s (resume s)

  abbrev pub guarded : Auth → Endpoint → ℕ → Store → Response × Store
  guarded authorized e now s = serve_endpoint e now s
  guarded rejected e now s = (unauthorized, s)
  guarded type_error e now s = (server_error, s)

  abbrev pub routed : Auth → Endpoint → ℕ → Store → Response × Store
  routed a healthz now s = serve_endpoint healthz now s
  routed a e now s = guarded a e now s

  -- The application's answer to a request.
  unfoldable pub respond : String → Request → ℕ → Store → Response × Store
  respond secret r now s = routed (auth secret r) r.endpoint now s

  -- The requests that come in, with their instants.
  unfoldable pub respond_all : String → List (ℕ × Request) → Store → Store
  respond_all secret [] s = s
  respond_all secret ((now, r) ∷ rest) s = respond_all secret rest (respond secret r now s).1

-- `create_app` refuses an empty token: the application for a secret, or none.
unfoldable pub create_app : String → Option String
create_app secret = if str_eq secret "" then none else some secret
