-- ===== src/RateLimiter/Expiry.antt =====
-- What the lifetime of the hash in Redis changes.
use distributed_document_sea.Prelude.{
  ℕ, ◌+◌, ◌-◌, ◌*◌, ◌≤◌, ◌<◌, ◌≡◌, ap, if◌then◌else◌, leb, ltb, true, false, some, arith,
  Bool-cases, inl, inr,
}
use distributed_document_sea.RateLimiter.Quota.{parts_add}
use distributed_document_sea.RateLimiter.{token, LocalBucket, refill, take_token, or_full, held}

-- The bucket that a check at `now` starts from, by the entry that Redis stored at `ts`: none if the
-- key has expired.
abbrev pub seen : (capacity ttl now : ℕ) → LocalBucket → LocalBucket
seen capacity ttl now b =
    or_full capacity now (held now (some (record { bucket = b; expires_at = b.ts + ttl })))

take_token-refill :
    (capacity limit now : ℕ) (b b' : LocalBucket)
    → refill capacity limit now b ≡ refill capacity limit now b'
    → take_token capacity limit now b ≡ take_token capacity limit now b'
unfolding take_token refill
take_token-refill capacity limit now b b' e =
    ap
      (λ tokens.
        if leb token tokens
        then (true, record { tokens = tokens - token; ts = now })
        else (false, record { tokens = tokens; ts = now }))
      e

minute_and_rest : (d : ℕ) → 120000000 ≤ d → 120000000 + (d - 120000000) ≡ d
minute_and_rest d h = ground arith

refilled : (elapsed limit : ℕ) → 120000000 ≤ elapsed → 120000000 * limit ≤ elapsed * limit
refilled elapsed limit h = ground (
  arith,
  parts_add 120000000 (elapsed - 120000000) limit,
  ap (λ d. d * limit) (minute_and_rest elapsed h),
)

refill-seen :
    (capacity limit now : ℕ) (b : LocalBucket)
    → capacity ≤ 120000000 * limit
    → refill capacity limit now (seen capacity 120000000 now b) ≡ refill capacity limit now b
unfolding refill held
refill-seen capacity limit now b h = elim (Bool-cases (ltb now (b.ts + 120000000))) [
  | inl fresh ↦ simp fresh
  | inr expired ↦ ground (arith, refilled (now - b.ts) limit (ground arith))
]

-- If two minutes refill the whole bucket, the lifetime of two minutes of the stored hash is
-- invisible: a check does to an entry what it would do to one that never expires.
pub expiry_invisible :
    (capacity limit now : ℕ) (b : LocalBucket)
    → capacity ≤ 120000000 * limit
    → take_token capacity limit now (seen capacity 120000000 now b)
      ≡ take_token capacity limit now b
expiry_invisible capacity limit now b h =
    take_token-refill capacity limit now (seen capacity 120000000 now b) b
      (refill-seen capacity limit now b h)

-- If they do not, as with a limit of one or two a minute and the least capacity of five tokens, an
-- expired entry holds more tokens than were refilled.
pub expiry_mints :
    (capacity limit now : ℕ) (b : LocalBucket)
    → b.tokens + (now - b.ts) * limit < capacity
    → b.ts + 120000000 ≤ now
    → refill capacity limit now b < refill capacity limit now (seen capacity 120000000 now b)
unfolding refill held
expiry_mints capacity limit now b h k = ground arith
