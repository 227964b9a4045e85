-- ===== src/Stocks/Stored.antt =====
-- What the table of stocks answers after a write.
use toss_api_quant_trading.Prelude.{
  String, Option, some, List, [], ◌∷◌, ◌≡◌, refl, ◌∙◌, ap, if◌then◌else◌, str_eq,
}
use toss_api_quant_trading.Prelude.Dict.{lookup-insert}
use toss_api_quant_trading.Stocks.{
  Stock, StockRow, StockTable, get_stock, stock_row, put_stocks, upsert_stocks,
}

module _ (dump : Stock → String) (now : String) where
  -- The row of the last stock with a symbol, or an old one.
  unfoldable last_row : String → List Stock → Option StockRow → Option StockRow
  last_row symbol [] old = old
  last_row symbol (st ∷ rest) old =
      last_row symbol rest (if str_eq symbol st.symbol then some (stock_row dump now st) else old)

  put_stocks-get :
      (symbol : String) (stocks : List Stock) (table : StockTable)
      → get_stock symbol (put_stocks dump now stocks table)
        ≡ last_row symbol stocks (get_stock symbol table)
  unfolding get_stock last_row
  put_stocks-get symbol [] table = refl
  put_stocks-get symbol (st ∷ rest) table =
      put_stocks-get symbol rest _
      ∙ ap (last_row symbol rest) (lookup-insert st.symbol symbol (stock_row dump now st) table)

  -- A symbol is answered with the last of the stocks written under it, or else with what the table
  -- had.
  get_stock-upsert_stocks :
      (symbol : String) (stocks : List Stock) (table : StockTable)
      → get_stock symbol (upsert_stocks dump now stocks table).1
        ≡ last_row symbol stocks (get_stock symbol table)
  unfolding upsert_stocks
  get_stock-upsert_stocks symbol stocks table = put_stocks-get symbol stocks table
