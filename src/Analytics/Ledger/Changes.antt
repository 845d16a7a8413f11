-- ===== src/Analytics/Ledger/Changes.antt =====
-- What an event changes in each row, apart from the row: a change of one currency commutes with another.
use quick_bite_analytics_ser.Prelude.{
  ℤ, +ℤ_right_comm, String, ◌≡◌, refl, Option, none, List, ◌⊎◌, inl, inr, arith,
}
use quick_bite_analytics_ser.Mongo.Bson.{or_else}
use quick_bite_analytics_ser.Analytics.Types.{OrderPlacedItem}
use quick_bite_analytics_ser.Analytics.Ledger.{
  DayTotals, ProductTotals, PlatformTotals, Known, Ledger, placed_day, delivered_day, rejected_day,
  placed_platform, delivered_platform, rejected_platform, paid_platform, sold,
}

pub data DayChange : Type 0 where
  same_day : DayChange
  placing : ℤ → DayChange
  delivering : ℤ → DayChange
  rejecting : DayChange

pub data ProductChange : Type 0 where
  unsold : ProductChange
  selling : ℤ → List OrderPlacedItem → ProductChange

pub data PlatformChange : Type 0 where
  same_platform : PlatformChange
  platform_placing : ℤ → PlatformChange
  platform_delivering : ℤ → PlatformChange
  platform_rejecting : PlatformChange
  paying : ℤ → PlatformChange

abbrev pub day_changed : String → DayChange → DayTotals → DayTotals
day_changed c same_day t = t
day_changed c (placing total) t = placed_day c total t
day_changed c (delivering ms) t = delivered_day ms t
day_changed c rejecting t = rejected_day t

abbrev pub product_changed : ProductChange → ProductTotals → ProductTotals
product_changed unsold t = t
product_changed (selling p items) t = sold p items t

abbrev pub platform_changed : PlatformChange → PlatformTotals → PlatformTotals
platform_changed same_platform t = t
platform_changed (platform_placing total) t = placed_platform total t
platform_changed (platform_delivering ms) t = delivered_platform ms t
platform_changed platform_rejecting t = rejected_platform t
platform_changed (paying amount) t = paid_platform amount t

pub day_changed_comm :
    (c : String) (a b : DayChange) (t : DayTotals)
    → day_changed c a (day_changed c b t) ≡ day_changed c b (day_changed c a t)
day_changed_comm c a b t = grind (arith, +ℤ_right_comm)

pub product_changed_comm :
    (a b : ProductChange) (t : ProductTotals)
    → product_changed a (product_changed b t) ≡ product_changed b (product_changed a t)
product_changed_comm a b t = grind (arith, +ℤ_right_comm)

pub platform_changed_comm :
    (a b : PlatformChange) (t : PlatformTotals)
    → platform_changed a (platform_changed b t) ≡ platform_changed b (platform_changed a t)
platform_changed_comm a b t = grind (arith, +ℤ_right_comm)

-- A change of every row, and what it records of the orders.
pub record Delta : Type 0 where
  pub restaurant : ℤ → String → DayChange
  pub branch : ℤ → String → DayChange
  pub product : ℤ → ℤ → String → ProductChange
  pub platform : String → String → PlatformChange
  pub context : String → Option Known

abbrev pub changed : String → Delta → Ledger → Ledger
changed c d l = record {
  restaurant = λ i date. day_changed c (d.restaurant i date) (l.restaurant i date);
  branch = λ i date. day_changed c (d.branch i date) (l.branch i date);
  product = λ i p date. product_changed (d.product i p date) (l.product i p date);
  platform = λ date cur. platform_changed (d.platform date cur) (l.platform date cur);
  context = λ o. or_else (d.context o) (l.context o);
}

-- No order is recorded by both.
abbrev pub Apart : Delta → Delta → Type 0
Apart d e = (o : String) → (d.context o ≡ none) ⊎ (e.context o ≡ none)

or_else_comm :
    {A : Type 0} (a b x : Option A)
    → (a ≡ none) ⊎ (b ≡ none)
    → or_else a (or_else b x) ≡ or_else b (or_else a x)
or_else_comm a b x (inl e) = rw e refl
or_else_comm a b x (inr e) = rw e refl

pub changed_comm :
    (c : String) (d e : Delta) (l : Ledger)
    → Apart d e
    → changed c d (changed c e l) ≡ changed c e (changed c d l)
changed_comm c d e l apart = λ k. record {
  restaurant = λ i date.
      day_changed_comm c (d.restaurant i date) (e.restaurant i date) (l.restaurant i date) k;
  branch = λ i date. day_changed_comm c (d.branch i date) (e.branch i date) (l.branch i date) k;
  product = λ i p date.
      product_changed_comm (d.product i p date) (e.product i p date) (l.product i p date) k;
  platform = λ date cur.
      platform_changed_comm (d.platform date cur) (e.platform date cur) (l.platform date cur) k;
  context = λ o. or_else_comm (d.context o) (e.context o) (l.context o) (apart o) k;
}
