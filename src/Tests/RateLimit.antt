-- ===== src/Tests/RateLimit.antt =====
-- One request a minute, and three requests of one address.
use keeplin_srv.Base.{ℕ, ◌≤◌, ◌+◌, ◌-◌, ◌*◌, List, [], ◌∷◌, arith}
use keeplin_srv.RateLimit.{new, unit}
use keeplin_srv.RateLimit.Budget.{last_time, allowed_of, check_budget}

abbrev requests : List (ℕ × ℕ)
requests = (4, 10) ∷ (4, 20) ∷ (4, 60_000_000_030) ∷ []

check_budget_example :
    allowed_of 4 (new 1 0) requests * unit ≤ 1 * unit + (last_time 10 requests - 10) * 1
check_budget_example =
    check_budget 4 1 0 10 requests (omega arith) (omega arith, (omega arith, (omega arith, tt)))
