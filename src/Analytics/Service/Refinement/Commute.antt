-- ===== src/Analytics/Service/Refinement/Commute.antt =====
-- Events of different orders, in one currency, commute.
use quick_bite_analytics_ser.Prelude.{
  String, ◌==◌, eq_iff, ◌≡◌, refl, sym, ap, subst, ◌∙◌, Bool, true, false, Bool-cases, ◌⊎◌, inl,
  inr, Option, none, some, if◌then◌else◌,
}
use quick_bite_analytics_ser.Go.Time.{Time}
use quick_bite_analytics_ser.Mongo.Bson.{or_else}
use quick_bite_analytics_ser.Analytics.Ledger.{Ledger, Known}
use quick_bite_analytics_ser.Analytics.Ledger.Changes.{changed, Apart, changed_comm}
use quick_bite_analytics_ser.Analytics.Service.Refinement.Spec.{
  Event, placed, delivered, rejected, paid, apply,
}
use quick_bite_analytics_ser.Analytics.Service.Refinement.Reorder.{delta, read, Uses, apply-changed}

abbrev order_of : Event → Option String
order_of (placed input) = some input.order_id
order_of (delivered input) = some input.order_id
order_of (rejected input) = some input.order_id
order_of (paid input) = none

abbrev Differ : Option String → Option String → Type 0
Differ (some x) (some y) = (x == y) ≡ false
Differ _ _ = Unit

-- Events of different orders; a payment names none.
abbrev pub OtherOrder : Event → Event → Type 0
OtherOrder a b = Differ (order_of a) (order_of b)

eq_symm : (x y : String) → (x == y) ≡ false → (y == x) ≡ false
eq_symm x y h = elim (Bool-cases (y == x)) [
  | inl same ↦ (let back : (x == y) ≡ true = (eq_iff x y).1 (sym ((eq_iff y x).0 same)) in cc)
  | inr other ↦ other
]

Differ-symm : (x y : Option String) → Differ x y → Differ y x
Differ-symm none none h = tt
Differ-symm none (some y) h = tt
Differ-symm (some x) none h = tt
Differ-symm (some x) (some y) h = eq_symm x y h

if_none : {A : Type 0} (b : Bool) (a : A) → b ≡ false → (if b then some a else none) ≡ none
if_none b a h = rw h refl

both_none :
    {A : Type 0} (x y o : String) (a b : A)
    → (x == y) ≡ false
    → ((if x == o then some a else none) ≡ none) ⊎ ((if y == o then some b else none) ≡ none)
both_none x y o a b h = elim (Bool-cases (x == o)) [
  | inl hit ↦
      let same : x ≡ o = (eq_iff x o).0 hit in
      inr (if_none (y == o) b (subst (λ z. (y == z) ≡ false) same (eq_symm x y h)))
  | inr miss ↦ inl (if_none (x == o) a miss)
]

module _ (stored : Time → Time) (day : Time → String) where
  recorded_by :
      (e : Event) (k : Option Known) (o : String)
      → Differ (order_of e) (some o)
      → (delta stored day e k).context o ≡ none
  recorded_by (placed input) k o h = if_none (input.order_id == o) _ h
  recorded_by (delivered input) none o h = refl
  recorded_by (delivered input) (some known) o h = refl
  recorded_by (rejected input) k o h = refl
  recorded_by (paid input) k o h = refl

  unread :
      (c : String) (a b : Event) (k : Option Known) (l : Ledger)
      → OtherOrder a b
      → read a (changed c (delta stored day b k) l) ≡ read a l
  unread c (placed input) b k l h = refl
  unread c (paid input) b k l h = refl
  unread c (delivered input) b k l h =
      ap (λ x. or_else x (l.context input.order_id))
        (recorded_by b k input.order_id (Differ-symm (some input.order_id) (order_of b) h))
  unread c (rejected input) b k l h =
      ap (λ x. or_else x (l.context input.order_id))
        (recorded_by b k input.order_id (Differ-symm (some input.order_id) (order_of b) h))

  delta-Apart :
      (a b : Event) (k j : Option Known)
      → OtherOrder a b
      → Apart (delta stored day a k) (delta stored day b j)
  delta-Apart (placed a) (placed b) k j h o = both_none a.order_id b.order_id o _ _ h
  delta-Apart (placed a) (delivered b) k none h o = inr refl
  delta-Apart (placed a) (delivered b) k (some x) h o = inr refl
  delta-Apart (placed a) (rejected b) k j h o = inr refl
  delta-Apart (placed a) (paid b) k j h o = inr refl
  delta-Apart (delivered a) b none j h o = inl refl
  delta-Apart (delivered a) b (some x) j h o = inl refl
  delta-Apart (rejected a) b k j h o = inl refl
  delta-Apart (paid a) b k j h o = inl refl

  pub apply_comm :
      (c : String) (a b : Event) (l : Ledger)
      → Uses stored day c a
      → Uses stored day c b
      → OtherOrder a b
      → apply stored day a (apply stored day b l) ≡ apply stored day b (apply stored day a l)
  apply_comm c a b l ua ub ab =
      let ba : OtherOrder b a = Differ-symm (order_of a) (order_of b) ab in
      let da = delta stored day a (read a l) in
      let db = delta stored day b (read b l) in
      let first : apply stored day a l ≡ changed c da l = apply-changed stored day c a l ua in
      let second : apply stored day b l ≡ changed c db l = apply-changed stored day c b l ub in
      let ra : read a (changed c db l) ≡ read a l = unread c a b (read b l) l ab in
      let rb : read b (changed c da l) ≡ read b l = unread c b a (read a l) l ba in
      ap (apply stored day a) second
      ∙ apply-changed stored day c a (changed c db l) ua
      ∙ ap (λ k. changed c (delta stored day a k) (changed c db l)) ra
      ∙ changed_comm c da db l (delta-Apart a b (read a l) (read b l) ab)
      ∙ sym (
          ap (apply stored day b) first
          ∙ apply-changed stored day c b (changed c da l) ub
          ∙ ap (λ k. changed c (delta stored day b k) (changed c da l)) rb)
