-- ===== src/Evolution/RateLimit/Limit.antt =====
-- What the limiter remembers of a token, and whom it serves (Middleware of
-- internal/policy/evolution/ratelimit.go).
use pads_v.Common.{
  ℕ, ◌≤◌, ◌≡◌, String, List, [], ◌∷◌, arith, if◌then◌else◌, ◌==◌, inl, inr, Bool-cases,
}
use pads_v.Common.Table.{lookup-insert}
use pads_v.Evolution.RateLimit.{Limiter, is_valid, valid, times_of, track, Request}
use pads_v.Evolution.RateLimit.Window.{keep-keep, within}

-- The times at which requests come never go back, from `from` on.
abbrev pub IsChronological : ℕ → List Request → Type 0
IsChronological from [] = Unit
IsChronological from ((now, header) ∷ rest) = (from ≤ now) × IsChronological now rest

pub times_of-track :
    (rl : Limiter) (k j : String) (times : List ℕ)
    → times_of j (track rl k times) ≡ (if k == j then times else times_of j rl)
unfolding times_of
times_of-track rl k j times = elim (Bool-cases (k == j)) [
  | inl e ↦ ground (arith, lookup-insert k j times rl.requests)
  | inr e ↦ ground (arith, lookup-insert k j times rl.requests)
]

-- What was valid earlier holds all that is valid later.
pub valid-valid :
    (window earlier later : ℕ) (times : List ℕ)
    → earlier ≤ later
    → valid window later (valid window earlier times) ≡ valid window later times
valid-valid window earlier later times h =
    keep-keep (is_valid window earlier) (is_valid window later) times (λ t v. ground arith)

-- The limiter remembers the handled times `past` of the token that are valid at `last` or later,
-- and no window holds more of them than the limit.
record Remembers (token : String) (rl : Limiter) (past : List ℕ) (last : ℕ) : Type 0 where
  times :
      (now : ℕ) → last ≤ now → valid rl.window now (times_of token rl) ≡ valid rl.window now past
  bounded : (start : ℕ) → within rl.window start past ≤ rl.limit
