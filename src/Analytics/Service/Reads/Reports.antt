-- ===== src/Analytics/Service/Reads/Reports.antt =====
-- The reports are the ledger, day by day.
use quick_bite_analytics_ser.Prelude.{
  ℤ, String, ltb_text, ◌≡◌, refl, sym, ap₂, some, List, [], ◌∷◌, map,
}
use quick_bite_analytics_ser.Go.Effect.{ok, return, ◌>>=◌}
use quick_bite_analytics_ser.Mongo.Bson.{Doc, int, has}
use quick_bite_analytics_ser.Mongo.Driver.{Mongo}
use quick_bite_analytics_ser.Mongo.Finding.{Finds}
use quick_bite_analytics_ser.Analytics.Types.{RestaurantDayRow, FailureRow, DeliveryAvgRow}
use quick_bite_analytics_ser.Analytics.Entity.{RestaurantDay}
use quick_bite_analytics_ser.Analytics.Decode.{decode_restaurant_day}
use quick_bite_analytics_ser.Analytics.Ledger.{DayTotals}
use quick_bite_analytics_ser.Analytics.Ledger.View.{view, day_totals}
use quick_bite_analytics_ser.Analytics.Repository.Collections.{unique_index, coll_restaurant_day}
use quick_bite_analytics_ser.Analytics.Repository.RestaurantDays
use quick_bite_analytics_ser.Analytics.Repository.RestaurantDays.{restaurant_key, restaurant_range}
use quick_bite_analytics_ser.Analytics.Service.Reads.{
  Floats, in_range, average, rate, get_restaurant_days, get_restaurant_failures,
  get_restaurant_delivery_avg, restaurant_day_row, failure_row, delivery_avg_row,
}
use quick_bite_analytics_ser.Analytics.Service.Reads.Ranged.{date_of}
use quick_bite_analytics_ser.Analytics.Service.Reads.Listing.{Lists, query-Lists}
use quick_bite_analytics_ser.Analytics.Decode.Fields.{decode_restaurant_day-totals}

-- The rows of one day, from its totals.
abbrev pub day_row : String → DayTotals → RestaurantDayRow
day_row date t = record {
  date = date;
  currency = t.currency;
  orders_count = t.orders_count;
  revenue_sum_minor = t.revenue_sum;
  avg_order_minor = average t.revenue_sum t.orders_count;
}

abbrev pub failures_on : {F : Type 0} → Floats F → String → DayTotals → FailureRow F
failures_on floats date t = record {
  date = date;
  orders_count = t.orders_count;
  failed_count = t.failed_count;
  failure_rate = rate floats t.failed_count t.orders_count;
}

abbrev pub delivery_on : String → DayTotals → DeliveryAvgRow
delivery_on date t = record {
  date = date;
  delivered_count = t.delivery_ms_count;
  avg_delivery_ms = average t.delivery_ms_sum t.delivery_ms_count;
}

module _ (m : Mongo) (id : ℤ) (from to : String) (w : m.World) where
  -- The days of the range on which the restaurant has a document.
  abbrev pub RestaurantDates : List String → Type 0
  RestaurantDates =
      Lists (λ date. has (m.point w coll_restaurant_day (restaurant_key id date))) from to

  -- The three reports hold the same days, those of the range with a document, and a row of each
  -- holds the totals of its day.
  abbrev pub Reported :
      {F : Type 0}
      → Floats F
      → (String → DayTotals)
      → List RestaurantDayRow
      → List (FailureRow F)
      → List DeliveryAvgRow
      → Type 0
  Reported floats totals days failures deliveries =
      (dates : List String) × RestaurantDates dates
      × (days ≡ map (λ date. day_row date (totals date)) dates)
      × (failures ≡ map (λ date. failures_on floats date (totals date)) dates)
      × (deliveries ≡ map (λ date. delivery_on date (totals date)) dates)

  module _
      (finds : Finds unique_index m coll_restaurant_day
        (restaurant_range id from to)
        ("date" ∷ [])
        w) where
    restaurant_query :
        {B : Type 0} (row : RestaurantDay → B) (spec : String → DayTotals → B) {out : List B}
        → ((d : Doc) (r : RestaurantDay)
            → decode_restaurant_day m.decode_error d ≡ ok r
            → row r ≡ spec (date_of d) (day_totals (some d)))
        → ((in_range from to
              (do rows ← RestaurantDays.find_by_date_range m id from to; return (map row rows)))
            w).0
          ≡ ok out
        → (ds : List Doc) × (m.find coll_restaurant_day
              (restaurant_range id from to)
              ("date" ∷ [])
              w
            ≡ ok ds)
          × RestaurantDates (map date_of ds)
          × (out ≡ map (λ date. spec date ((view m w).restaurant id date)) (map date_of ds))
    unfolding RestaurantDays.find_by_date_range view
    restaurant_query row spec decoded h =
        query-Lists unique_index m coll_restaurant_day (("restaurant_id", int id) ∷ []) from to w
          refl (decode_restaurant_day m.decode_error) row (λ date o. spec date (day_totals o))
          decoded (ltb_text to from) finds h

    -- The three reports on a restaurant, where they return, list the same days: those of the range
    -- that the restaurant has a document for, each once, by ascending date. The row of a day holds
    -- the ledger's totals of that day, the averages and the rate of failures computed from them.
    pub get_restaurant_days-day_row :
        {F : Type 0} (floats : Floats F) {days : List RestaurantDayRow}
        {failures : List (FailureRow F)} {deliveries : List DeliveryAvgRow}
        → (get_restaurant_days m id from to w).0 ≡ ok days
        → (get_restaurant_failures m floats id from to w).0 ≡ ok failures
        → (get_restaurant_delivery_avg m id from to w).0 ≡ ok deliveries
        → Reported floats ((view m w).restaurant id) days failures deliveries
    unfolding get_restaurant_days get_restaurant_failures get_restaurant_delivery_avg
    get_restaurant_days-day_row floats h k l =
        let totals =
          λ (d : Doc) (r : RestaurantDay) (e : decode_restaurant_day m.decode_error d ≡ ok r).
            decode_restaurant_day-totals m.decode_error d e in
        let (ds, read, listed, days_) =
          restaurant_query restaurant_day_row day_row
            (λ d r e. ap₂ day_row (totals d r e).0 (sym (totals d r e).1)) h in
        let (ds', read', _, failures_) =
          restaurant_query (failure_row floats) (failures_on floats)
            (λ d r e. ap₂ (failures_on floats) (totals d r e).0 (sym (totals d r e).1)) k in
        let (ds'', read'', _, deliveries_) =
          restaurant_query delivery_avg_row delivery_on
            (λ d r e. ap₂ delivery_on (totals d r e).0 (sym (totals d r e).1)) l in
        let same : ds' ≡ ds = cc in
        let same' : ds'' ≡ ds = cc in
        (map date_of ds, listed, days_, rw same at failures_, rw same' at deliveries_)
