-- ===== src/RateLimiter/Quota.antt =====
-- How many requests a bucket admits, and when it admits the next.
use distributed_document_sea.Prelude.{
  ℕ, ◌+◌, ◌-◌, ◌*◌, ◌≤◌, ◌≡◌, ap, ◌∙◌, if◌then◌else◌, leb, Bool, true, false, List, [], ◌∷◌, arith,
}
use distributed_document_sea.RateLimiter.{token, LocalBucket, refill, take_token, retry_after}

-- The checks of one bucket at the given times: how many were admitted, and the bucket at the end.
unfoldable pub admitted : (capacity limit : ℕ) → List ℕ → LocalBucket → ℕ × LocalBucket
unfolding take_token
admitted capacity limit [] b = (0, b)
admitted capacity limit (now ∷ times) b =
    let (allowed, b') = take_token capacity limit now b in
    let (n, b'') = admitted capacity limit times b' in ((if allowed then n + 1 else n), b'')

-- The times do not go back, from `start` on.
abbrev pub IsAscending : ℕ → List ℕ → Type 0
IsAscending start [] = Unit
IsAscending start (t ∷ ts) = (start ≤ t) × IsAscending t ts

-- A check moves the clock of the bucket to `now`, and what it takes and leaves was there or has come
-- in since.
take_token_budget :
    (capacity limit now : ℕ) (b : LocalBucket)
    → ((take_token capacity limit now b).1.ts ≡ now)
      × ((take_token capacity limit now b).1.tokens
            + (if (take_token capacity limit now b).0 then token else 0)
          ≤ b.tokens + (now - b.ts) * limit)
unfolding take_token refill
take_token_budget capacity limit now b = ground arith

pub parts_add : (x y limit : ℕ) → x * limit + y * limit ≡ (x + y) * limit
parts_add x y limit = ground arith

time_splits :
    (a b c limit : ℕ) → a ≤ b → b ≤ c → (b - a) * limit + (c - b) * limit ≡ (c - a) * limit
time_splits a b c limit h k = parts_add (b - a) (c - b) limit ∙ ap (λ d. d * limit) (ground arith)

budget_total :
    (tokens a m b e limit : ℕ)
    → a ≤ m
    → b ≡ m
    → b ≤ e
    → tokens + (m - a) * limit + (e - b) * limit ≤ tokens + (e - a) * limit
budget_total tokens a m b e limit h at k =
    ground (arith, time_splits a m e limit h (ground arith), ap (λ x. (e - x) * limit) at)

IsAscending-at : (s t : ℕ) (times : List ℕ) → s ≡ t → IsAscending t times → IsAscending s times
IsAscending-at s t times e h = rw e h

add_admitted :
    (allowed : Bool) (n tokens before after total limit : ℕ)
    → after + (if allowed then token else 0) ≤ before
    → n * token + tokens ≤ after + limit
    → before + limit ≤ total
    → (if allowed then n + 1 else n) * token + tokens ≤ total
add_admitted true n tokens before after total limit h k l = ground arith
add_admitted false n tokens before after total limit h k l = ground arith

admitted-ts :
    (capacity limit : ℕ) (times : List ℕ) (b : LocalBucket)
    → IsAscending b.ts times
    → b.ts ≤ (admitted capacity limit times b).1.ts
unfolding admitted
admitted-ts capacity limit [] b h = ground arith
admitted-ts capacity limit (now ∷ times) b (le, h) =
    let (at, _) = take_token_budget capacity limit now b in
    let b' = (take_token capacity limit now b).1 in
    let rest = admitted-ts capacity limit times b' (IsAscending-at b'.ts now times at h) in
    ground arith

-- Over any checks of a bucket at times that do not go back, the tokens of the admitted requests and
-- those that are left are at most the tokens at the start and the refill of the time between.
pub quota_bound :
    (capacity limit : ℕ) (times : List ℕ) (b : LocalBucket)
    → IsAscending b.ts times
    → (admitted capacity limit times b).0 * token + (admitted capacity limit times b).1.tokens
      ≤ b.tokens + ((admitted capacity limit times b).1.ts - b.ts) * limit
unfolding admitted
quota_bound capacity limit [] b h = ground arith
quota_bound capacity limit (now ∷ times) b (le, h) =
    let (at, budget) = take_token_budget capacity limit now b in
    let b' = (take_token capacity limit now b).1 in
    let asc = IsAscending-at b'.ts now times at h in
    let rest = quota_bound capacity limit times b' asc in
    let later = admitted-ts capacity limit times b' asc in
    let end = (admitted capacity limit times b').1 in
    add_admitted (take_token capacity limit now b).0 (admitted capacity limit times b').0 end.tokens
      (b.tokens + (now - b.ts) * limit) b'.tokens (b.tokens + (end.ts - b.ts) * limit)
      ((end.ts - b'.ts) * limit) budget rest
      (budget_total b.tokens b.ts now b'.ts end.ts limit le at later)

-- After a refused check of a bucket that can hold a token, a check at a later time is admitted
-- exactly if the time between is at least the announced retry time.
pub retry_exact :
    (capacity limit now later : ℕ) (b : LocalBucket)
    → token ≤ capacity
    → (take_token capacity limit now b).0 ≡ false
    → (take_token capacity limit later (take_token capacity limit now b).1).0
      ≡ leb
          ((retry_after limit (take_token capacity limit now b).1).num * 1000000)
          ((later - now) * (retry_after limit (take_token capacity limit now b).1).den)
unfolding take_token refill retry_after
retry_exact capacity limit now later b full h = ground arith
