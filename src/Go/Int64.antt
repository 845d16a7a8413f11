-- ===== src/Go/Int64.antt =====
-- int64 arithmetic that the service does itself: `/`, which truncates towards zero. Sums are made by
-- the database. A value is the integer that it stands for, and its range is stated where it matters.
use quick_bite_analytics_ser.Prelude.{
  ℕ, ◌+◌, ◌-◌, ◌*◌, ◌/◌, ◌%◌, ltb, if◌then◌else◌, ◌^◌, ◌≤◌, ◌<◌, ℤ, pos, negsuc, pos_part, neg_part,
  sub_ℕ, eqb_ℤ, ltb_ℤ, ◌+ℤ◌, Bool, true, false, ◌≡◌, refl,
}

abbrev pub int64_limit : ℕ
int64_limit = 2 ^ 63

abbrev pub InInt64 : ℤ → Type 0
InInt64 a = (pos_part a < int64_limit) × (neg_part a ≤ int64_limit)

-- What an int64 multiplication or shift leaves of a natural number: its value modulo 2^64, signed.
unfoldable pub wrap_int64 : ℕ → ℤ
wrap_int64 n = let r = n % (2 ^ 64) in if ltb r int64_limit then pos r else sub_ℕ r (2 ^ 64)

abbrev pub int64_max : ℤ
int64_max = pos (2 ^ 63 - 1)

-- a + 1, which wraps at the greatest int64
unfoldable pub succ_int64 : ℤ → ℤ
succ_int64 a = if eqb_ℤ a int64_max then sub_ℕ 0 int64_limit else a +ℤ pos 1

-- a / b for b > 0, the only divisors that the service uses.
unfoldable pub quot : ℤ → ℕ → ℤ
quot (pos a) b = pos (a / b)
quot (negsuc a) b = sub_ℕ 0 ((a + 1) / b)

-- if b { ... }, with the fact that the test held
abbrev pub if_so : {A : Type 0} → (b : Bool) → (b ≡ true → A) → A → A
if_so true f x = f refl
if_so false f x = x

-- a / b, which is written down only where b is known to be positive: Go panics on 0
abbrev pub quotient : (a b : ℤ) → ltb_ℤ (pos 0) b ≡ true → ℤ
quotient a b positive = quot a (pos_part b)

-- a * k for a constant k > 0.
unfoldable pub times_int64 : ℤ → ℕ → ℤ
unfolding wrap_int64
times_int64 (pos n) k = wrap_int64 (n * k)
times_int64 (negsuc n) k = wrap_int64 (2 ^ 64 - ((n + 1) * k) % (2 ^ 64))
