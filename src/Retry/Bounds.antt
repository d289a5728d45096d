-- ===== src/Retry/Bounds.antt =====
-- The timeouts of a ticket that is tried again.
use boardroom_os.Base.{ℕ, zero, suc, ◌≤◌, arith}
use boardroom_os.Base.Float.{Float, int_times}
use boardroom_os.Retry.{apply_timeout_backoff, max, min}

-- The timeout after so many retries, each with the root's timeout for the cap.
abbrev pub after_retries : ℕ → (first root : ℕ) → (multiplier cap : Float) → ℕ
after_retries zero first root m cap = first
after_retries (suc n) first root m cap =
    apply_timeout_backoff (after_retries n first root m cap) root m cap

clamp_bounds : (c i k : ℕ) → (c ≤ max c (min i k)) × (max c (min i k) ≤ max c k)
clamp_bounds c i k = (ground arith, ground arith)

max_le : (a b c k : ℕ) → a ≤ max b k → c ≤ max a k → c ≤ max b k
max_le a b c k h g = ground arith

max_ge : (a k : ℕ) → a ≤ max a k
max_ge a k = ground arith

backoff_step :
    (current root : ℕ) (m cap : Float)
    → (current ≤ apply_timeout_backoff current root m cap)
      × (apply_timeout_backoff current root m cap ≤ max current (int_times root cap))
unfolding apply_timeout_backoff
backoff_step current root m cap = clamp_bounds current (int_times current m) (int_times root cap)

-- However often a ticket is tried again, whatever the two multipliers are: its timeout never falls
-- below the first one, never falls from one retry to the next, and never exceeds both the first one
-- and the root's timeout times the cap.
pub after_retries-bounds :
    (n first root : ℕ) (m cap : Float)
    → (first ≤ after_retries n first root m cap)
      × (after_retries n first root m cap ≤ after_retries (suc n) first root m cap)
      × (after_retries n first root m cap ≤ max first (int_times root cap))
after_retries-bounds zero first root m cap =
    (omega arith, (backoff_step first root m cap).0, max_ge first (int_times root cap))
after_retries-bounds (suc n) first root m cap =
    let (low, grows, high) = after_retries-bounds n first root m cap in
    let now = after_retries n first root m cap in
    let next = apply_timeout_backoff now root m cap in
    (
      omega (arith, low, grows),
      (backoff_step next root m cap).0,
      max_le now first next (int_times root cap) high (backoff_step now root m cap).1,
    )
