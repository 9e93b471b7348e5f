-- ===== src/Domain/DateTime.antt =====
-- The part of Python's `datetime` that the code tests and converts: a wall clock without a zone,
-- or an instant, in microseconds, with the offset that it is shown at.
use content_approval.Common.{ℕ}

pub data UtcOffset : Type 0 where
  east west : ℕ → UtcOffset

pub data DateTime : Type 0 where
  naive : ℕ → DateTime
  aware : ℕ → UtcOffset → DateTime

abbrev pub utc : UtcOffset
utc = east 0

-- The number by which a column of UTC times is ordered.
abbrev pub instant : DateTime → ℕ
instant (naive t) = t
instant (aware t _) = t
