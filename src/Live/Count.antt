-- ===== src/Live/Count.antt =====
-- The orders that a submission to the live broker adds to a day.
use toss_api_quant_trading.Live.Size.{SendSize, refused, sized, request_of, size_intent}
use toss_api_quant_trading.Toss.Client.{Ending, raised, returned}
use toss_api_quant_trading.Toss.Orders.{OrderRequest, OrderBody, order_body}
use toss_api_quant_trading.Toss.Models.{Order}
use toss_api_quant_trading.Broker.{OrderIntent}
use toss_api_quant_trading.Live.{LiveBroker}
use toss_api_quant_trading.Risk.{count_orders}
use toss_api_quant_trading.Live.Orders.{
  live_submit, record_final, update_final, put_order, acknowledged, settled, is_row, send,
  submission_row, submit_sized, await_fill, poll_attempts,
}
use toss_api_quant_trading.Prelude.{
  ℕ, Option, String, List, ◌≤◌, ◌≡◌, ◌∷◌, ◌+◌, Bool-cases, arith, some, [], none, refl, inl, inr,
}
use toss_api_quant_trading.Store.{BrokerName, log_event, OrderRow, Store}

module _ (name : BrokerName) (day : ℕ) where
  put_order-count :
      (row : OrderRow) (rows : List OrderRow)
      → count_orders name day (put_order row rows) ≤ count_orders name day rows + 1
  unfolding count_orders put_order
  put_order-count row [] = ground arith
  put_order-count row (r ∷ rest) = ground (arith, put_order-count row rest)

  update_final-count :
      (o : Order) (rows : List OrderRow)
      → count_orders name day (update_final o rows) ≡ count_orders name day rows
  unfolding count_orders update_final
  update_final-count o [] = refl
  update_final-count o (r ∷ rest) = elim (Bool-cases (is_row o.order_id r)) [
    | inl e ↦ rw (e, update_final-count o rest) refl
    | inr e ↦ rw (e, update_final-count o rest) refl
  ]

  settled-count :
      (final : Option Order) (order_id : String) (intent : OrderIntent) (now : ℕ) (s : Store)
      → count_orders name day (settled final order_id intent now s).1.orders
        ≡ count_orders name day s.orders
  unfolding record_final
  settled-count none order_id intent now s = refl
  settled-count (some o) order_id intent now s = update_final-count o s.orders

  acknowledged-count :
      (b : LiveBroker) (intent : OrderIntent) (now : ℕ) (r : OrderRequest) (answer : Ending String)
      (s : Store)
      → count_orders name day (acknowledged b intent r now answer s).1.orders
        ≤ count_orders name day s.orders + 1
  unfolding log_event
  acknowledged-count b intent now r (raised e) s = omega arith
  acknowledged-count b intent now r (returned order_id) s =
      let s' = record s { orders = put_order (submission_row order_id intent r now) s.orders } in
      rw (settled-count (await_fill b.client order_id poll_attempts 0) order_id intent now s')
        (put_order-count (submission_row order_id intent r now) s.orders)

  -- A submission to the live broker, whatever the API answers, adds at most one order to any day of
  -- any broker's ledger.
  pub live_submit-count :
      (b : LiveBroker) (intent : OrderIntent) (client_order_id : String) (now : ℕ) (s : Store)
      → count_orders name day (live_submit b intent client_order_id now s).1.orders
        ≤ count_orders name day s.orders + 1
  unfolding live_submit
  live_submit-count b intent client_order_id now s = by_size (size_intent b.client intent)
    where
      by_body :
          (r : OrderRequest) (body : Option OrderBody)
          → count_orders name day (send b intent r now body s).1.orders
            ≤ count_orders name day s.orders + 1
      by_body r none = omega arith
      by_body r (some body) = acknowledged-count b intent now r (b.client.post_order body) s

      by_size :
          (z : SendSize)
          → count_orders name day (submit_sized b intent client_order_id now z s).1.orders
            ≤ count_orders name day s.orders + 1
      by_size (refused why) = omega arith
      by_size (sized qty) =
          let r = request_of b intent client_order_id qty in by_body r (order_body r)
