-- ===== src/Evolution/RateLimit.antt =====
-- internal/policy/evolution/ratelimit.go: requests are limited by bearer token. A time is a number
-- of nanoseconds; `now.Sub(t) < window` is written without the difference.
pub mod Window
pub mod Limit
use Prim.Native.String.{len, slice}
use text.Mathlib.Text.{starts_with}
use pads_v.Common.{
  ℕ, zero, suc, ◌+◌, ◌-◌, ◌≡◌, Bool, true, false, ◌&&◌, String, Option, none, some, List, [], ◌∷◌,
  ◌++◌, arith, ltb, leb, if◌then◌else◌, ◌==◌, length, keep, take, drop,
}
use pads_v.Common.Table.{Table, keys, lookup, insert, delete}

pub record Limiter : Type 0 where
  pub requests : Table (List ℕ)
  pub limit : ℕ
  pub window : ℕ
  pub max_tokens : ℕ

unfoldable pub new_limiter : ℕ → ℕ → Limiter
new_limiter limit window = record {
  requests = [];
  limit = limit;
  window = window;
  max_tokens = 1000;
}

unfoldable pub set_max_tokens : ℕ → Limiter → Limiter
set_max_tokens max rl = record rl { max_tokens = max }

-- The value of the Authorization header, without its prefix.
unfoldable pub extract_token : String → String
extract_token header = if starts_with header "Bearer " then slice header 7 (len header - 7) else ""

abbrev pub is_valid : ℕ → ℕ → ℕ → Bool
is_valid window now t = ltb now (t + window)

-- The times that lie less than a window back.
abbrev pub valid : ℕ → ℕ → List ℕ → List ℕ
valid window now times = keep (is_valid window now) times

-- rl.requests[token], nil where it is missing
unfoldable pub times_of : String → Limiter → List ℕ
times_of token rl = elim (lookup token rl.requests) [ none ↦ [] | some times ↦ times ]

pub data Response : Type 0 where
  unauthorized too_many_requests handled : Response

abbrev pub track : Limiter → String → List ℕ → Limiter
track rl token times = record rl { requests = insert token times rl.requests }

-- Middleware: what is answered to one request, and whether the next handler is called.
unfoldable pub serve : Limiter → ℕ → String → Limiter × Response
unfolding times_of
serve rl now header =
    let token = extract_token header in
    let recent = valid rl.window now (times_of token rl) in
    let pruned = track rl token recent in
    if token == ""
    then (rl, unauthorized)
    else if leb rl.limit (length recent)
    then (pruned, too_many_requests)
    else (track pruned token (recent ++ now ∷ []), handled)

-- The tokens with a valid time, with those times.
prune : ℕ → ℕ → Table (List ℕ) → Table (List ℕ)
prune window now [] = []
prune window now ((token, times) ∷ rest) =
    let others = prune window now rest in
    elim (valid window now times) [ [] ↦ others | t ∷ ts ↦ (token, t ∷ ts) ∷ others ]

-- `oldestValid`, the first of the valid times.
abbrev oldest : List ℕ → ℕ
oldest [] = 0
oldest (t ∷ ts) = t

insert_by_oldest : String × List ℕ → Table (List ℕ) → Table (List ℕ)
insert_by_oldest e [] = e ∷ []
insert_by_oldest e (f ∷ fs) =
    if leb (oldest e.1) (oldest f.1) then e ∷ f ∷ fs else f ∷ insert_by_oldest e fs

-- `sort.Slice` by the oldest valid time; entries with equal times stay in their order here.
sort_by_oldest : Table (List ℕ) → Table (List ℕ)
unfolding insert_by_oldest
sort_by_oldest [] = []
sort_by_oldest (e ∷ es) = insert_by_oldest e (sort_by_oldest es)

delete_all : List String → Table (List ℕ) → Table (List ℕ)
delete_all [] m = m
delete_all (token ∷ tokens) m = delete_all tokens (delete token m)

unfoldable pub cleanup : ℕ → Limiter → Limiter
unfolding prune sort_by_oldest delete_all
cleanup now rl =
    let live = prune rl.window now rl.requests in
    let evicted = keys (take (length live - rl.max_tokens) (sort_by_oldest live)) in
    record rl {
      requests = if ltb rl.max_tokens (length live) then delete_all evicted live else live;
    }

-- A request is its time and its header.
abbrev pub Request : Type 0
Request = ℕ × String

-- The times of the requests with a token that are handled, in order.
unfoldable pub handled_times : String → Limiter → List Request → List ℕ
handled_times token rl [] = []
handled_times token rl ((now, header) ∷ rest) =
    let (rl', response) = serve rl now header in
    let later = handled_times token rl' rest in
    elim response [
      | unauthorized ↦ later
      | too_many_requests ↦ later
      | handled ↦ if extract_token header == token then now ∷ later else later
    ]
