-- ===== src/Analytics/Service/Reads/Average.antt =====
-- The averages of the query side.
use quick_bite_analytics_ser.Prelude.{
  ℕ, ◌+◌, ◌*◌, ◌/◌, ◌≤◌, ◌<◌, ℤ, pos, negsuc, pos_part, neg_part, arith, sub_ℕ, ltb_ℤ, ◌≡◌, refl,
  subst, sym, Bool, true, false, ◌⊎◌, inl, inr, ◌<ℤ◌, ◌≤ℤ◌,
}
use native.Mathlib.Nat.{div-mul-le_self, lt-div-mul-add}
use quick_bite_analytics_ser.Go.Int64.{quot, if_so, quotient}
use quick_bite_analytics_ser.Analytics.Service.Reads.{average}

if_so-true :
    {A : Type 0} (b : Bool) (f : b ≡ true → A) (x y : A)
    → ((e : b ≡ true) → f e ≡ y)
    → b ≡ true
    → if_so b f x ≡ y
if_so-true true f x y same e = same refl
if_so-true false f x y same e = cc

if_so-false : {A : Type 0} (b : Bool) (f : b ≡ true → A) (x : A) → b ≡ false → if_so b f x ≡ x
if_so-false true f x e = cc
if_so-false false f x e = refl

-- `q * n` is the largest multiple of n that is at most a.
abbrev pub IsFloor : ℕ → ℕ → ℕ → Type 0
IsFloor a n q = (q * n ≤ a) × (a < q * n + n)

div-IsFloor : (a n : ℕ) → 0 < n → IsFloor a n (a / n)
div-IsFloor a n h = (div-mul-le_self a n, lt-div-mul-add h)

neg_of : (q : ℕ) → (pos_part (sub_ℕ 0 q) ≡ 0) × (neg_part (sub_ℕ 0 q) ≡ q)
neg_of q = ground arith

quot-IsFloor :
    (sum : ℤ) (n : ℕ)
    → 0 < n
    → IsFloor (pos_part sum) n (pos_part (quot sum n))
      × IsFloor (neg_part sum) n (neg_part (quot sum n))
unfolding quot
quot-IsFloor (pos a) n h = (div-IsFloor a n h, (omega arith, omega arith))
quot-IsFloor (negsuc a) n h =
    let (no_pos, all_neg) = neg_of ((a + 1) / n) in
    rw (no_pos, all_neg)
      (
        (omega arith, omega arith),
        subst (λ b. IsFloor b n ((a + 1) / n)) (omega arith) (div-IsFloor (a + 1) n h),
      )

-- An average over a positive count is the quotient cut towards zero: the positive and the negative
-- part of the sum are each divided and rounded down. With any other count it is 0.
pub average-IsFloor :
    (sum count : ℤ)
    → ((pos 0 <ℤ count)
        × (IsFloor (pos_part sum) (pos_part count) (pos_part (average sum count))
            × IsFloor (neg_part sum) (pos_part count) (neg_part (average sum count))))
      ⊎ ((count ≤ℤ pos 0) × (average sum count ≡ pos 0))
unfolding average
average-IsFloor sum count = tested (ltb_ℤ (pos 0) count) refl
  where
    tested :
        (b : Bool) (is : ltb_ℤ (pos 0) count ≡ b)
        → ((pos 0 <ℤ count)
            × (IsFloor (pos_part sum) (pos_part count) (pos_part (average sum count))
                × IsFloor (neg_part sum) (pos_part count) (neg_part (average sum count))))
          ⊎ ((count ≤ℤ pos 0) × (average sum count ≡ pos 0))
    tested true is =
        let some' : pos 0 <ℤ count = ground (arith, is) in
        inl (
          some',
          subst
              (λ q.
                IsFloor (pos_part sum) (pos_part count) (pos_part q)
                × IsFloor (neg_part sum) (pos_part count) (neg_part q))
              (sym (
                if_so-true (ltb_ℤ (pos 0) count) (λ e. quotient sum count e) (pos 0)
                  (quot sum (pos_part count)) (λ e. refl) is))
              (quot-IsFloor sum (pos_part count) (omega (arith, some'))),
        )
    tested false is = inr (
      ground (arith, is),
      if_so-false (ltb_ℤ (pos 0) count) (λ e. quotient sum count e) (pos 0) is,
    )
