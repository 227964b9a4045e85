-- ===== src/Toss/Auth/Tests.antt =====
-- A cached token, ten minutes before its expiry, and the same one invalidated.
use toss_api_quant_trading.Prelude.{some, ◌⊎◌}
use toss_api_quant_trading.Decimal.{nat}
use toss_api_quant_trading.Toss.Auth.Fresh.{Renewed, Reused, Failed, Stale, token-cases}
use toss_api_quant_trading.Toss.Auth.{TokenManager, token, unreachable}

abbrev manager : TokenManager
manager = record { margin = nat 300; token = some "abc"; expires_at = nat 4000; issued_count = 1 }

token-cases_example :
    let out = token (nat 3400) unreachable (nat 3401) manager in
    Reused (nat 3400) manager out
    ⊎ (Stale (nat 3400) manager
        × (Renewed unreachable (nat 3401) manager out ⊎ Failed unreachable manager out))
token-cases_example = token-cases (nat 3400) (nat 3401) unreachable manager
