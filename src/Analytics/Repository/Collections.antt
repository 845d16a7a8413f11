-- ===== src/Analytics/Repository/Collections.antt =====
-- The collection names of app/analytics/repository/indexes.go, and the keys of the unique index that
-- EnsureIndexes creates on each.
use quick_bite_analytics_ser.Prelude.{String, List, [], ◌∷◌, ◌==◌, if◌then◌else◌}

abbrev pub coll_restaurant_day : String
coll_restaurant_day = "agg_restaurant_day"

abbrev pub coll_branch_day : String
coll_branch_day = "agg_branch_day"

abbrev pub coll_product_day : String
coll_product_day = "agg_product_day"

abbrev pub coll_platform_day : String
coll_platform_day = "agg_platform_day"

abbrev pub coll_order_context : String
coll_order_context = "order_context"

abbrev pub coll_event_ids : String
coll_event_ids = "event_ids"

-- the unique index of each collection; no other collection is used
abbrev pub unique_index : String → List String
unique_index c =
    if c == coll_restaurant_day
    then "restaurant_id" ∷ "date" ∷ []
    else if c == coll_branch_day
    then "branch_id" ∷ "date" ∷ []
    else if c == coll_product_day
    then "branch_id" ∷ "product_id" ∷ "date" ∷ []
    else if c == coll_platform_day
    then "date" ∷ "currency" ∷ []
    else if c == coll_order_context
    then "order_id" ∷ []
    else if c == coll_event_ids
    then "event_id" ∷ []
    else []
