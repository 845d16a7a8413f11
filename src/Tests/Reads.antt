-- ===== src/Tests/Reads.antt =====
-- The queries at concrete ranges and sums.
use quick_bite_analytics_ser.Prelude.{ℤ, pos, pos_part, neg_part, ◌≡◌, ◌⊎◌, ◌<ℤ◌, ◌≤ℤ◌}
use quick_bite_analytics_ser.Analytics.Service.Reads.{Floats, average}
use quick_bite_analytics_ser.Analytics.Service.Reads.Average.{IsFloor, average-IsFloor}

-- a rate as the pair of its operands
abbrev pub ratio : Floats (ℤ × ℤ)
ratio = record { nought = (pos 0, pos 1); of_int = λ n. (n, pos 1); divide = λ a b. (a.0, b.0) }

average-IsFloor_example :
    ((pos 0 <ℤ pos 4)
      × (IsFloor 1500 4 (pos_part (average (pos 1500) (pos 4)))
          × IsFloor 0 4 (neg_part (average (pos 1500) (pos 4)))))
    ⊎ ((pos 4 ≤ℤ pos 0) × (average (pos 1500) (pos 4) ≡ pos 0))
average-IsFloor_example = average-IsFloor (pos 1500) (pos 4)
