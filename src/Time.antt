-- ===== src/Time.antt =====
-- Moments as backend/app/sla.py computes with them. A `datetime` counts microseconds; it is an
-- aware one, which stands for an instant, or a naive one, which the code reads as UTC. All counts
-- start at the first day of year 1, Python's smallest `datetime`; overflow past year 9999 is not
-- modelled.
pub mod Iso
use the_vc_brain.Prelude.{
  ℕ, zero, suc, ◌+◌, ◌-◌, ◌*◌, ◌/◌, ◌<◌, leb, if◌then◌else◌, ℤ, pos, negsuc, arith, ◌≡◌, leb_ℤ,
  true, ◌↔◌,
}

pub data DateTime : Type 0 where
  naive : ℕ → DateTime
  aware : ℕ → DateTime

-- `_as_utc`: the instant in microseconds
abbrev pub as_utc : DateTime → ℕ
as_utc (naive wall) = wall
as_utc (aware instant) = instant

abbrev pub second : ℕ
second = 1000000

abbrev pub minutes : ℕ → ℕ
minutes n = n * 60 * second

abbrev pub hours : ℕ → ℕ
hours n = n * 3600 * second

abbrev pub negate : ℕ → ℤ
negate zero = pos 0
negate (suc n) = negsuc n

-- `int((later - earlier).total_seconds())`, which drops the fraction towards zero
unfoldable pub seconds_from : ℕ → ℕ → ℤ
seconds_from earlier later =
    if leb earlier later
    then pos ((later - earlier) / second)
    else negate ((earlier - later) / second)

-- The whole seconds left are at most `n` exactly when fewer than `n + 1` seconds are left.
pub seconds_from-le :
    (earlier later n : ℕ)
    → (leb_ℤ (seconds_from earlier later) (pos n) ≡ true) ↔ (later < earlier + (n + 1) * second)
unfolding seconds_from
seconds_from-le earlier later n = ground arith
