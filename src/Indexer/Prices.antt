-- ===== src/Indexer/Prices.antt =====
-- `recordPriceHistory`: what the active offers cost, every five minutes. `rate` is the text of
-- `String(offer.rate_base_units_per_second)`.
use compute_markets.Prelude.{
  ℕ, ◌*◌, ◌/◌, String, Bool, true, false, not, ◌&&◌, ◌||◌, ◌==◌, ltb, List, [], ◌∷◌, ◌++◌, Option,
  none, some, str_eq, find, if◌then◌else◌,
}
use compute_markets.Prelude.Int.{pos, ◌-ℤ◌, ltb_ℤ}
use compute_markets.Prelude.Actions.{Exec, return, call, update, ◌>>=◌}
use compute_markets.Indexer.{
  OfferRow, MachineRow, HeartbeatRow, ReportRow, Market, PriceRow, Database,
}
use compute_markets.Indexer.Reconcile.{Services}

-- `hardware?.gpu`.
abbrev pub gpus_of : Option ReportRow → Option (List String)
gpus_of none = none
gpus_of (some report) = report.gpu

-- `hardware?.gpu?.[0]?.model ?? machine.gpu_model`.
abbrev pub model_of : Option (List String) → String → String
model_of (some (model ∷ models)) otherwise = model
model_of _ otherwise = otherwise

-- `hardware?.gpu?.length === 0`.
abbrev pub has_no_gpu : Option (List String) → Bool
has_no_gpu (some []) = true
has_no_gpu _ = false

abbrev pub is_ready : ℕ → MachineRow → Option (List String) → Option HeartbeatRow → Bool
is_ready now machine gpus none = false
is_ready now machine gpus (some heartbeat) =
    not machine.busy
    && ltb_ℤ (pos now -ℤ heartbeat.timestamp) (pos 90)
    && (has_no_gpu gpus || ltb 0 heartbeat.available_gpu_count)

module _ (now : ℕ) (market : Market) where
  abbrev pub heartbeat_of : MachineRow → Option HeartbeatRow
  heartbeat_of machine = find (λ h. str_eq h.machine_id machine.id) market.heartbeats

  abbrev pub report_of : MachineRow → Option ReportRow
  report_of machine = find (λ r. str_eq r.hash machine.hardware_hash) market.reports

  abbrev pub price_row : OfferRow → MachineRow → PriceRow
  price_row offer machine =
      let gpus = gpus_of (report_of machine) in
      record {
        offer_id = offer.id;
        gpu_model = model_of gpus machine.gpu_model;
        region = machine.region;
        rate = offer.rate;
        available = is_ready now machine gpus (heartbeat_of machine);
        recorded_at = now / 300 * 300000;
      }

  -- `if (!machine?.active) return []`.
  abbrev pub priced : OfferRow → Option MachineRow → List PriceRow
  priced offer none = []
  priced offer (some machine) = if machine.active then price_row offer machine ∷ [] else []

  unfoldable pub price_rows : List OfferRow → List PriceRow
  price_rows [] = []
  price_rows (offer ∷ offers) =
      priced offer (find (λ m. str_eq m.id offer.machine_id) market.machines) ++ price_rows offers

-- The upsert on the offer and the time.
unfoldable pub put_price : PriceRow → List PriceRow → List PriceRow
put_price row [] = row ∷ []
put_price row (p ∷ prices) =
    let rest = put_price row prices in
    if str_eq p.offer_id row.offer_id && (p.recorded_at == row.recorded_at)
    then row ∷ prices
    else p ∷ rest

abbrev pub put_prices : List PriceRow → List PriceRow → List PriceRow
put_prices [] prices = prices
put_prices (row ∷ rows) prices = put_prices rows (put_price row prices)

module _ (services : Services) where
  abbrev pub store_prices : List PriceRow → Exec Database (Unit {0})
  store_prices [] = return tt
  store_prices (row ∷ rows) = do
    accepted ← call (services.write_prices (row ∷ rows))
    update (λ db. record db { prices = put_prices (row ∷ rows) db.prices })

  unfoldable pub record_price_history : Exec Database (Unit {0})
  record_price_history = do
    market ← call services.market
    store_prices (price_rows services.now_seconds market market.offers)
