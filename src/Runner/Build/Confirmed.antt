-- ===== src/Runner/Build/Confirmed.antt =====
-- What a live bot needs.
use toss_api_quant_trading.Prelude.{
  ℕ, String, Option, some, none, ◌≡◌, true, refl, str_eq, eq_iff, arith, inl, inr, Bool-cases, ap,
  ◌∙◌,
}
use toss_api_quant_trading.Decimal.{Decimal}
use toss_api_quant_trading.Store.{Store}
use toss_api_quant_trading.Costs.{CostModel}
use toss_api_quant_trading.Config.{
  AppSettings, Environment, Mode, live_mode, paper_mode, backtest_mode, live_confirm_sentinel,
  load_settings, parse_mode, guard_live_mode, guard_mode, bind_option, has_credentials, text_or,
  number_or,
}
use toss_api_quant_trading.Runner.Build.{
  Api, TradingBot, trades_live, build, build_mode, build_with, cost_model_of,
}

bind_option-some {ℓ κ} :
    {A : Type ℓ} {B : Type κ} (o : Option A) (f : A → Option B) {b : B}
    → bind_option o f ≡ some b
    → (a : A) × (o ≡ some a) × (f a ≡ some b)
bind_option-some none f h = absurd (cc)
bind_option-some (some a) f h = (a, refl, h)

parse_mode-live : (text : Option String) → parse_mode text ≡ some live_mode → text ≡ some "live"
unfolding parse_mode
parse_mode-live none h = absurd (cc)
parse_mode-live (some t) h = ground (arith, eq_iff t "backtest", eq_iff t "paper", eq_iff t "live")

-- The settings that pass the guard are those that were given, and a live mode is confirmed.
guard_mode-some :
    (m : Mode) (confirm : String) (s t : AppSettings)
    → guard_mode m confirm s ≡ some t
    → (s ≡ t) × (m ≡ live_mode → confirm ≡ live_confirm_sentinel)
guard_mode-some live_mode confirm s t h = elim (Bool-cases (str_eq confirm live_confirm_sentinel)) [
  | inl e ↦ (some_inj (rw e at h), λ q. (eq_iff confirm live_confirm_sentinel).0 e)
  | inr e ↦ absurd (none_is (rw e at h))
]
  where
    some_inj : some s ≡ some t → s ≡ t
    some_inj e = cc

    none_is : none ≡ some t → ⊥
    none_is e = cc
guard_mode-some paper_mode confirm s t h = (cc, λ q. absurd (cc))
guard_mode-some backtest_mode confirm s t h = (cc, λ q. absurd (cc))

text_or-sentinel :
    (text : Option String)
    → text_or "" text ≡ live_confirm_sentinel
    → text ≡ some live_confirm_sentinel
text_or-sentinel none h = ground (arith, eq_iff "" live_confirm_sentinel)
text_or-sentinel (some t) h = cc

-- Settings in live mode were asked for and confirmed.
load_settings-live :
    (decimal : String → Option Decimal) (whole : String → Option ℕ) (env : Environment)
    (s : AppSettings)
    → load_settings decimal whole env ≡ some s
    → s.mode_of ≡ live_mode
    → (env.mode ≡ some "live") × (env.live_confirm ≡ some live_confirm_sentinel)
unfolding load_settings guard_live_mode
load_settings-live decimal whole env s h live =
    let (mode, m, h1) = bind_option-some (parse_mode env.mode) _ h in
    let (weight, w, h2) = bind_option-some (number_or decimal _ env.max_position_weight) _ h1 in
    let (loss, l, h3) = bind_option-some (number_or decimal _ env.max_daily_loss_pct) _ h2 in
    let (orders, o, h4) = bind_option-some (number_or whole _ env.max_orders_per_day) _ h3 in
    let (exposure, x, h5) = bind_option-some (number_or decimal _ env.max_gross_exposure) _ h4 in
    let (cash, c, h6) = bind_option-some (number_or decimal _ env.paper_starting_cash_krw) _ h5 in
    let (same, confirmed) = guard_mode-some mode (text_or "" env.live_confirm) _ s h6 in
    let is_live : mode ≡ live_mode = ap (λ (t : AppSettings). t.mode_of) same ∙ live in
    (
      parse_mode-live env.mode (rw is_live at m),
      text_or-sentinel env.live_confirm (confirmed is_live),
    )

build_mode-live :
    (m : Mode) (cost_model : CostModel) (api : Api) (s : AppSettings) (ledger : Store)
    (bot : TradingBot)
    → (build_mode m cost_model api s ledger).0 ≡ some bot
    → trades_live bot.trader ≡ true
    → m ≡ live_mode
build_mode-live live_mode cost_model api s ledger bot h t = refl
build_mode-live paper_mode cost_model api s ledger bot h t = absurd (ground arith)
build_mode-live backtest_mode cost_model api s ledger bot h t = absurd (ground arith)

build_with-live :
    (cost_model : Option CostModel) (api : Api) (s : AppSettings) (ledger : Store)
    (bot : TradingBot)
    → (build_with cost_model api s ledger).0 ≡ some bot
    → trades_live bot.trader ≡ true
    → s.mode_of ≡ live_mode
build_with-live none api s ledger bot h t = absurd (cc)
build_with-live (some c) api s ledger bot h t = build_mode-live s.mode_of c api s ledger bot h t

-- No real money by accident: a bot that trades live is built only from an environment whose mode is
-- the text live and whose confirmation is the sentinel, whatever the API answers and whatever the
-- other settings are.
pub build-confirmed :
    (decimal : String → Option Decimal) (whole : String → Option ℕ) (env : Environment)
    (s : AppSettings) (api : Api) (ledger : Store) (bot : TradingBot)
    → load_settings decimal whole env ≡ some s
    → (build api s ledger).0 ≡ some bot
    → trades_live bot.trader ≡ true
    → (env.mode ≡ some "live") × (env.live_confirm ≡ some live_confirm_sentinel)
unfolding build
build-confirmed decimal whole env s api ledger bot h b t = elim (Bool-cases (has_credentials s)) [
  | inl e ↦
      load_settings-live decimal whole env s h
        (build_with-live (cost_model_of api.commissions) api s ledger bot (rw e at b) t)
  | inr e ↦ let bad : none ≡ some bot = rw e at b in absurd (cc)
]
