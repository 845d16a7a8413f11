-- ===== src/Analytics/Service/Refinement/Reorder.antt =====
-- An event as one change of the ledger, from what it reads of it.
use quick_bite_analytics_ser.Prelude.{
  ℤ, String, ◌==◌, eqb_ℤ, ◌≡◌, refl, ap, Bool, true, false, ◌&&◌, Option, none, some, if◌then◌else◌,
}
use quick_bite_analytics_ser.Go.Time.{Time}
use quick_bite_analytics_ser.Mongo.Bson.{or_else}
use quick_bite_analytics_ser.Analytics.Types.{OnOrderDeliveredInput, OnOrderRejectedInput}
use quick_bite_analytics_ser.Analytics.Ledger.{
  DayTotals, ProductTotals, PlatformTotals, Ledger, Known, placed_day, rejected_day, delivered_day,
  at_restaurant, at_branch, at_products, at_platform, at_context,
}
use quick_bite_analytics_ser.Analytics.Ledger.Changes.{
  DayChange, same_day, placing, delivering, rejecting, day_changed, ProductChange, unsold, selling,
  product_changed, PlatformChange, same_platform, platform_placing, platform_delivering,
  platform_rejecting, paying, platform_changed, Delta, changed,
}
use quick_bite_analytics_ser.Analytics.Service.Writes.{delivery_ms}
use quick_bite_analytics_ser.Analytics.Service.Refinement.Spec.{
  Event, placed, delivered, rejected, paid, apply, deliver_known, reject_known,
}

abbrev pub on_row : ℤ → String → ℤ → String → Bool
on_row id date i d = eqb_ℤ id i && date == d

abbrev pub at_day : ℤ → String → DayChange → ℤ → String → DayChange
at_day id date change i d = if eqb_ℤ id i && date == d then change else same_day

abbrev pub at_currency : String → String → PlatformChange → String → String → PlatformChange
at_currency date currency change d c = if date == d && currency == c then change else same_platform

abbrev pub nothing : Delta
nothing = record {
  restaurant = λ i d. same_day;
  branch = λ i d. same_day;
  product = λ i p d. unsold;
  platform = λ d c. same_platform;
  context = λ o. none;
}

-- What an event reads, and what it changes then.
abbrev pub read : Event → Ledger → Option Known
read (placed input) l = none
read (delivered input) l = l.context input.order_id
read (rejected input) l = l.context input.order_id
read (paid input) l = none

module _ (stored : Time → Time) (day : Time → String) where
  abbrev pub delta : Event → Option Known → Delta
  delta (placed input) known =
      let date = day input.placed_at in
      record {
        restaurant = at_day input.restaurant_id date (placing input.total_minor);
        branch = at_day input.branch_id date (placing input.total_minor);
        product =
            λ i p d. if eqb_ℤ input.branch_id i && date == d then selling p input.items else unsold;
        platform = at_currency date input.currency (platform_placing input.total_minor);
        context = λ o.
            if input.order_id == o
            then some (record { currency = input.currency; placed_at = stored input.placed_at })
            else none;
      }
  delta (delivered input) none = nothing
  delta (delivered input) (some known) =
      let ms = delivery_ms input.delivered_at known.placed_at in
      let date = day known.placed_at in
      record nothing {
        restaurant = at_day input.restaurant_id date (delivering ms);
        branch = at_day input.branch_id date (delivering ms);
        platform = at_currency date input.currency (platform_delivering ms);
      }
  delta (rejected input) known =
      let date = day input.occurred_at in
      record nothing {
        restaurant = at_day input.restaurant_id date rejecting;
        branch = at_day input.branch_id date rejecting;
        platform = elim known [
          | none ↦ λ d c. same_platform
          | some k ↦ at_currency date k.currency platform_rejecting
        ];
      }
  delta (paid input) known = record nothing {
    platform = at_currency (day input.completed_at) input.currency (paying input.amount_minor);
  }

  -- A placed order has this currency.
  abbrev pub Uses : String → Event → Type 0
  Uses c (placed input) = input.currency ≡ c
  Uses c _ = Unit

  day_if :
      (b : Bool) (c : String) (change : DayChange) (t u : DayTotals)
      → u ≡ day_changed c change t
      → (if b then u else t) ≡ day_changed c (if b then change else same_day) t
  day_if true c change t u e = e
  day_if false c change t u e = refl

  product_if :
      (b : Bool) (change : ProductChange) (t : ProductTotals)
      → (if b then product_changed change t else t)
        ≡ product_changed (if b then change else unsold) t
  product_if true change t = refl
  product_if false change t = refl

  platform_if :
      (b : Bool) (change : PlatformChange) (t : PlatformTotals)
      → (if b then platform_changed change t else t)
        ≡ platform_changed (if b then change else same_platform) t
  platform_if true change t = refl
  platform_if false change t = refl

  context_if :
      (b : Bool) (k : Known) (o : Option Known)
      → (if b then some k else o) ≡ or_else (if b then some k else none) o
  context_if true k o = refl
  context_if false k o = refl

  deliver_known-changed :
      (c : String) (input : OnOrderDeliveredInput) (o : Option Known) (l : Ledger)
      → deliver_known stored day input o l ≡ changed c (delta (delivered input) o) l
  unfolding at_restaurant at_branch at_platform
  deliver_known-changed c input none l = refl
  deliver_known-changed c input (some known) l =
      let ms = delivery_ms input.delivered_at known.placed_at in
      let date = day known.placed_at in
      λ k. record l {
        restaurant = λ i d.
            day_if (on_row input.restaurant_id date i d) c (delivering ms) (l.restaurant i d)
              (delivered_day ms (l.restaurant i d)) refl k;
        branch = λ i d.
            day_if (on_row input.branch_id date i d) c (delivering ms) (l.branch i d)
              (delivered_day ms (l.branch i d)) refl k;
        platform = λ d cur.
            platform_if (date == d && input.currency == cur) (platform_delivering ms)
              (l.platform d cur) k;
      }

  reject_known-changed :
      (c : String) (input : OnOrderRejectedInput) (o : Option Known) (l : Ledger)
      → reject_known stored day (day input.occurred_at) o (
          at_branch input.branch_id
            (day input.occurred_at)
            rejected_day
            (at_restaurant input.restaurant_id (day input.occurred_at) rejected_day l))
        ≡ changed c (delta (rejected input) o) l
  unfolding at_restaurant at_branch at_platform
  reject_known-changed c input none l = λ k. record l {
    restaurant = λ i d.
        day_if (on_row input.restaurant_id (day input.occurred_at) i d) c rejecting
          (l.restaurant i d) (rejected_day (l.restaurant i d)) refl k;
    branch = λ i d.
        day_if (on_row input.branch_id (day input.occurred_at) i d) c rejecting (l.branch i d)
          (rejected_day (l.branch i d)) refl k;
  }
  reject_known-changed c input (some known) l = λ k. record l {
    restaurant = λ i d.
        day_if (on_row input.restaurant_id (day input.occurred_at) i d) c rejecting
          (l.restaurant i d) (rejected_day (l.restaurant i d)) refl k;
    branch = λ i d.
        day_if (on_row input.branch_id (day input.occurred_at) i d) c rejecting (l.branch i d)
          (rejected_day (l.branch i d)) refl k;
    platform = λ d cur.
        platform_if (day input.occurred_at == d && known.currency == cur) platform_rejecting
          (l.platform d cur) k;
  }

  pub apply-changed :
      (c : String) (e : Event) (l : Ledger)
      → Uses c e
      → apply stored day e l ≡ changed c (delta e (read e l)) l
  unfolding at_restaurant at_branch at_products at_platform at_context
  apply-changed c (placed input) l uses = λ k. record {
    restaurant = λ i d.
        day_if (on_row input.restaurant_id (day input.placed_at) i d) c (placing input.total_minor)
          (l.restaurant i d) (placed_day input.currency input.total_minor (l.restaurant i d))
          (ap (λ x. placed_day x input.total_minor (l.restaurant i d)) uses) k;
    branch = λ i d.
        day_if (on_row input.branch_id (day input.placed_at) i d) c (placing input.total_minor)
          (l.branch i d) (placed_day input.currency input.total_minor (l.branch i d))
          (ap (λ x. placed_day x input.total_minor (l.branch i d)) uses) k;
    product = λ i p d.
        product_if (on_row input.branch_id (day input.placed_at) i d) (selling p input.items)
          (l.product i p d) k;
    platform = λ d cur.
        platform_if (day input.placed_at == d && input.currency == cur)
          (platform_placing input.total_minor) (l.platform d cur) k;
    context = λ o.
        context_if (input.order_id == o)
          (record { currency = input.currency; placed_at = stored input.placed_at }) (l.context o)
          k;
  }
  apply-changed c (delivered input) l uses =
      deliver_known-changed c input (l.context input.order_id) l
  apply-changed c (rejected input) l uses =
      reject_known-changed c input (l.context input.order_id) l
  apply-changed c (paid input) l uses = λ k. record l {
    platform = λ d cur.
        platform_if (day input.completed_at == d && input.currency == cur)
          (paying input.amount_minor) (l.platform d cur) k;
  }
