-- ===== src/Analytics/Repository/BranchDays.antt =====
-- app/analytics/repository/branch_day.repo.go.
use quick_bite_analytics_ser.Prelude.{ℤ, pos, String, List, [], ◌∷◌}
use quick_bite_analytics_ser.Go.Effect.{Eff, reads, ◌>>=◌}
use quick_bite_analytics_ser.Mongo.Bson.{
  Doc, Update, Value, int, text, datetime, equals, between, Query,
}
use quick_bite_analytics_ser.Mongo.Driver.{Mongo}
use quick_bite_analytics_ser.Analytics.Entity.{BranchDay}
use quick_bite_analytics_ser.Analytics.Decode.{decode_branch_day, decode_all}
use quick_bite_analytics_ser.Analytics.Repository.Collections.{coll_branch_day}

abbrev pub branch_key : ℤ → String → Doc
branch_key branch_id date = ("branch_id", int branch_id) ∷ ("date", text date) ∷ []

abbrev pub branch_update : ℤ → String → List (String × ℤ) → Doc → Value → Update
branch_update branch_id date inc extra_set now = record {
  inc = inc;
  set = ("updated_at", now) ∷ extra_set;
  set_on_insert = branch_key branch_id date;
}

-- {branch_id: id, date: {$gte: from, $lte: to}}
abbrev pub branch_range : ℤ → String → String → Query
branch_range branch_id from to =
    ("branch_id", equals (int branch_id)) ∷ ("date", between from to) ∷ []

module _ (m : Mongo) where
  unfoldable pub upsert : ℤ → String → List (String × ℤ) → Doc → Eff m.World Unit
  upsert branch_id date inc extra_set w =
      m.update_one coll_branch_day (branch_key branch_id date)
        (branch_update branch_id date inc extra_set (datetime (m.stored_time (m.now w)))) w

  unfoldable pub apply_order_placed : ℤ → String → String → ℤ → Eff m.World Unit
  unfolding upsert
  apply_order_placed branch_id date currency total_minor =
      upsert branch_id date (("orders_count", pos 1) ∷ ("revenue_sum", total_minor) ∷ [])
        (("currency", text currency) ∷ [])

  unfoldable pub apply_order_delivered : ℤ → String → ℤ → Eff m.World Unit
  unfolding upsert
  apply_order_delivered branch_id date delivery_ms =
      upsert branch_id date (("delivery_ms_sum", delivery_ms) ∷ ("delivery_ms_count", pos 1) ∷ [])
        []

  unfoldable pub apply_order_rejected : ℤ → String → Eff m.World Unit
  unfolding upsert
  apply_order_rejected branch_id date = upsert branch_id date (("failed_count", pos 1) ∷ []) []

  unfoldable pub find_by_date_range : ℤ → String → String → Eff m.World (List BranchDay)
  find_by_date_range branch_id from to = do
    docs ← reads (m.find coll_branch_day (branch_range branch_id from to) ("date" ∷ []))
    reads (λ _. decode_all (decode_branch_day m.decode_error) docs)
