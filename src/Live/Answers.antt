-- ===== src/Live/Answers.antt =====
-- The result of a market order with a quantity.
use toss_api_quant_trading.Runner.Intents.{market_order}
use toss_api_quant_trading.Broker.{OrderResult}
use toss_api_quant_trading.Store.{Store}
use toss_api_quant_trading.Live.{LiveBroker, sellable}
use toss_api_quant_trading.Toss.Orders.{order_body}
use toss_api_quant_trading.Prelude.{Bool-cases, some, none, inl, String, inr, ℕ, ◌≡◌, refl}
use toss_api_quant_trading.Decimal.{Decimal, le, truncate, nat}
use toss_api_quant_trading.Live.Size.{
  SendSize, within_sellable, refused, size_intent, sell_checked, first_size, sized, request_of,
}
use toss_api_quant_trading.Universe.{Country, Side, sell, buy, us, kr, country_of}
use toss_api_quant_trading.Live.Orders.{live_submit, submit_sized}

-- What goes out is a quantity, where a quantity came in.
abbrev pub HasQuantity : SendSize → Type 0
HasQuantity (refused why) = Unit
HasQuantity (sized none) = ⊥
HasQuantity (sized (some qty)) = Unit

within-HasQuantity :
    (country : Country) (avail qty : Decimal) → HasQuantity (within_sellable country avail qty)
unfolding within_sellable
within-HasQuantity country avail qty = elim (Bool-cases (le avail (nat 0))) [
  | inl e ↦ rw e _
  | inr e ↦ rw e _
]

first-HasQuantity :
    (country : Country) (qty : Decimal) → HasQuantity (first_size country (some qty))
first-HasQuantity us qty = _
first-HasQuantity kr qty = elim (Bool-cases (le (truncate qty) (nat 0))) [
  | inl e ↦ rw e _
  | inr e ↦ rw e _
]

checked-HasQuantity :
    (side : Side) (country : Country) (avail : Decimal) (z : SendSize)
    → HasQuantity z
    → HasQuantity (sell_checked side country avail z)
checked-HasQuantity sell country avail (sized (some qty)) h = within-HasQuantity country avail qty
checked-HasQuantity buy country avail (sized (some qty)) h = h
checked-HasQuantity sell country avail (sized none) h = absurd h
checked-HasQuantity buy country avail (sized none) h = absurd h
checked-HasQuantity sell country avail (refused why) h = h
checked-HasQuantity buy country avail (refused why) h = h

-- Every order that a cycle builds, a market order with a quantity, gets a result from the live
-- broker, whatever the API answers: `create_order` does not raise a ValueError for it.
pub live_submit-answers :
    (b : LiveBroker) (symbol : String) (side : Side) (qty : Decimal) (client_order_id : String)
    (now : ℕ) (s : Store)
    → (result : OrderResult) × ((live_submit b
          (market_order symbol side qty)
          client_order_id
          now
          s).0
        ≡ some result)
unfolding live_submit size_intent order_body request_of
live_submit-answers b symbol side qty client_order_id now s =
    let country = country_of symbol in
    let avail = sellable b.client symbol in
    by_size (sell_checked side country avail (first_size country (some qty))) (
      checked-HasQuantity side country avail (first_size country (some qty))
        (first-HasQuantity country qty))
  where
    by_size :
        (z : SendSize)
        → HasQuantity z
        → (result : OrderResult) × ((submit_sized b
              (market_order symbol side qty)
              client_order_id
              now
              z
              s).0
            ≡ some result)
    by_size (refused why) h = (_, refl)
    by_size (sized none) h = absurd h
    by_size (sized (some q)) h = (_, refl)
