-- ===== src/Live/Reconcile.antt =====
-- What reconciling the ledger with the order history does to it.
use toss_api_quant_trading.Broker.{Status}
use toss_api_quant_trading.Store.{OrderRow}
use toss_api_quant_trading.Toss.Models.{Order, status_text}
use toss_api_quant_trading.Prelude.{
  List, String, Option, ◌≡◌, if◌then◌else◌, ◌∷◌, str_eq, some, [], arith, eq_iff, none, All,
  Bool-cases, ap, inl, ◌∙◌, false, true, refl, inr,
}
use toss_api_quant_trading.Live.Sync.{row_status, upsert, sync_one, is_current, sync_orders}

abbrev pub text_of : Option Status → Option String
text_of none = none
text_of (some status) = some (status_text status)

-- The ledger as a map from the ids of the live broker's orders to the texts of their statuses.

pub ledger_view : List OrderRow → String → Option String
ledger_view rows order_id = text_of (row_status order_id rows)

-- The history as the latest word on each order that it names.
pub history_view : List Order → (String → Option String) → String → Option String
history_view [] v = v
history_view (o ∷ rest) v =
    history_view rest
      (λ order_id. if str_eq order_id o.order_id then some (status_text o.status) else v order_id)

row_status-upsert :
    (order_id : String) (o : Order) (rows : List OrderRow)
    → row_status order_id (upsert o rows)
      ≡ (if str_eq order_id o.order_id then some o.status else row_status order_id rows)
unfolding row_status upsert
row_status-upsert order_id o [] =
    ground (arith, eq_iff o.order_id order_id, eq_iff order_id o.order_id)
row_status-upsert order_id o (row ∷ rest) = ground (
  arith,
  eq_iff row.order_id o.order_id,
  eq_iff row.order_id order_id,
  eq_iff order_id o.order_id,
  row_status-upsert order_id o rest,
)

is_current-text :
    (m : Option Status) (o : Order)
    → is_current m o ≡ true
    → text_of m ≡ some (status_text o.status)
is_current-text none o e = absurd (cc)
is_current-text (some status) o e =
    ap some ((eq_iff (status_text status) (status_text o.status)).0 e)

-- One order of the history: the ledger has its status afterwards, and keeps every other.
sync_one-view :
    (o : Order) (rows : List OrderRow) (order_id : String)
    → ledger_view (sync_one o rows).1 order_id ≡ (
        if str_eq order_id o.order_id
        then some (status_text o.status)
        else ledger_view rows order_id)
unfolding sync_one ledger_view
sync_one-view o rows order_id = elim (Bool-cases (is_current (row_status o.order_id rows) o)) [
  | inl c ↦ elim (Bool-cases (str_eq order_id o.order_id)) [
    | inl e ↦
        rw (c, e, (eq_iff order_id o.order_id).0 e)
          (is_current-text (row_status o.order_id rows) o c)
    | inr e ↦ rw (c, e) refl
  ]
  | inr c ↦ elim (Bool-cases (str_eq order_id o.order_id)) [
    | inl e ↦ rw (c, e, row_status-upsert order_id o rows, e) refl
    | inr e ↦ rw (c, e, row_status-upsert order_id o rows, e) refl
  ]
]

history_view-same :
    (history : List Order) (v w : String → Option String)
    → ((order_id : String) → v order_id ≡ w order_id)
    → (order_id : String) → history_view history v order_id ≡ history_view history w order_id
unfolding history_view
history_view-same [] v w h order_id = h order_id
history_view-same (o ∷ rest) v w h order_id =
    history_view-same rest _ _
      (λ x. ap (λ y. if str_eq x o.order_id then some (status_text o.status) else y) (h x)) order_id

-- The ledger that `sync_orders` leaves has, for every order id, the last status that the history
-- gives the order, and the status it had where the history does not name it.
pub sync_orders-view :
    (history : List Order) (rows : List OrderRow) (order_id : String)
    → ledger_view (sync_orders history rows).1 order_id
      ≡ history_view history (ledger_view rows) order_id
unfolding sync_orders history_view
sync_orders-view [] rows order_id = refl
sync_orders-view (o ∷ rest) rows order_id =
    sync_orders-view rest (sync_one o rows).1 order_id
    ∙ history_view-same rest _ _ (sync_one-view o rows) order_id

-- Each order of the history stands in it once.
unfoldable pub IsDistinct : List Order → Type 0
IsDistinct [] = Unit
IsDistinct (o ∷ rest) = All (λ p. str_eq o.order_id p.order_id ≡ false) rest × IsDistinct rest

-- The view has the status of every order of the history.
Agrees : List Order → (String → Option String) → Type 0
Agrees history v = All (λ o. v o.order_id ≡ some (status_text o.status)) history

history_view-other :
    (history : List Order) (v : String → Option String) (order_id : String)
    → All (λ p. str_eq order_id p.order_id ≡ false) history
    → history_view history v order_id ≡ v order_id
unfolding history_view
history_view-other [] v order_id h = refl
history_view-other (p ∷ rest) v order_id (e, h) = history_view-other rest _ order_id h ∙ rw e refl

history_view-Agrees :
    (history : List Order) (v : String → Option String)
    → IsDistinct history
    → Agrees history (history_view history v)
unfolding history_view Agrees IsDistinct
history_view-Agrees [] v h = _
history_view-Agrees (o ∷ rest) v (h, hs) = (
  history_view-other rest _ o.order_id h ∙ rw ((eq_iff o.order_id o.order_id).1 refl) refl,
  history_view-Agrees rest _ hs,
)

text-is_current :
    (m : Option Status) (o : Order)
    → text_of m ≡ some (status_text o.status)
    → is_current m o ≡ true
text-is_current none o e = absurd (cc)
text-is_current (some status) o e = (eq_iff (status_text status) (status_text o.status)).1 (cc)

sync_one-current :
    (o : Order) (rows : List OrderRow)
    → ledger_view rows o.order_id ≡ some (status_text o.status)
    → sync_one o rows ≡ (0, rows)
unfolding sync_one ledger_view
sync_one-current o rows e = rw (text-is_current (row_status o.order_id rows) o e) refl

sync_orders-Agrees :
    (history : List Order) (rows : List OrderRow)
    → Agrees history (ledger_view rows)
    → sync_orders history rows ≡ (0, rows)
unfolding sync_orders Agrees
sync_orders-Agrees [] rows h = refl
sync_orders-Agrees (o ∷ rest) rows (e, h) =
    rw (sync_one-current o rows e, sync_orders-Agrees rest rows h) refl

All_along :
    (history : List Order) (v w : String → Option String)
    → ((order_id : String) → v order_id ≡ w order_id)
    → Agrees history w
    → Agrees history v
unfolding Agrees
All_along [] v w h a = _
All_along (o ∷ rest) v w h (e, a) = (h o.order_id ∙ e, All_along rest v w h a)

-- Where each order stands once in the history, reconciling a second time with the same history
-- writes no row and leaves the ledger as it is.
pub sync_orders-again :
    (history : List Order) (rows : List OrderRow)
    → IsDistinct history
    → sync_orders history (sync_orders history rows).1 ≡ (0, (sync_orders history rows).1)
sync_orders-again history rows h = sync_orders-Agrees history (sync_orders history rows).1 (
    All_along history (ledger_view (sync_orders history rows).1)
      (history_view history (ledger_view rows)) (sync_orders-view history rows)
      (history_view-Agrees history (ledger_view rows) h))
