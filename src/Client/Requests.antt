-- ===== src/Client/Requests.antt =====
-- `request` of clickup.client.ts: a request that ClickUp limits is sent again after a while.
use clickup_sync.Common.{
  ℕ, zero, suc, ◌+◌, ◌-◌, ◌*◌, ◌≤◌, ◌<◌, ◌≡◌, refl, Option, true, none, some, List, [], ◌∷◌, ltb,
  if◌then◌else◌, arith, All, length, Bool-cases, inl, inr,
}
use Prim.Native.Nat.{◌^◌, min}

abbrev pub max_429_retries : ℕ
max_429_retries = 3

abbrev pub max_backoff_ms : ℕ
max_backoff_ms = 60000

-- How ClickUp answers: with data, with status 429 and a number of seconds if the header has one, or with
-- another error.
pub data Reply (A : Type 0) : Type 0 where
  answer : A → Reply A
  limited : Option ℕ → Reply A
  failure : Reply A

abbrev pub retry_after_ms : Option ℕ → ℕ → ℕ
retry_after_ms (some secs) attempt = min (secs * 1000) max_backoff_ms
retry_after_ms none attempt = min (1000 * 2 ^ attempt) max_backoff_ms

retry_after_ms-le : (secs : Option ℕ) (attempt : ℕ) → retry_after_ms secs attempt ≤ max_backoff_ms
retry_after_ms-le (some secs) attempt = omega arith
retry_after_ms-le none attempt = omega arith

module _ {A : Type 0} where
  abbrev pub on_reply : Reply A → ℕ → Option A × List ℕ → Option A × List ℕ
  on_reply (answer a) attempt next = (some a, [])
  on_reply failure attempt next = (none, [])
  on_reply (limited secs) attempt next =
      if ltb attempt max_429_retries
      then (next.0, retry_after_ms secs attempt ∷ next.1)
      else (none, [])

  -- The answer or an exception, and how long it waited between the attempts. `replies n` is the reply
  -- to attempt `n`; the fuel is one more than the retries that are left.
  unfoldable pub request_from : (fuel attempt : ℕ) → (ℕ → Reply A) → Option A × List ℕ
  request_from zero attempt replies = (none, [])
  request_from (suc fuel) attempt replies =
      on_reply (replies attempt) attempt (request_from fuel (suc attempt) replies)

  unfoldable pub request : (ℕ → Reply A) → Option A × List ℕ
  request replies = request_from (suc max_429_retries) 0 replies

  on_reply-waits :
      (r : Reply A) (attempt : ℕ) (next : Option A × List ℕ)
      → length next.1 ≤ 3 - suc attempt
      → All (λ ms. ms ≤ max_backoff_ms) next.1
      → (length (on_reply r attempt next).1 ≤ 3 - attempt)
        × All (λ ms. ms ≤ max_backoff_ms) (on_reply r attempt next).1
  on_reply-waits (answer a) attempt next h k = (omega arith, tt)
  on_reply-waits failure attempt next h k = (omega arith, tt)
  on_reply-waits (limited secs) attempt next h k = elim (Bool-cases (ltb attempt 3)) [
    | inl e ↦
        let early : attempt < 3 = ground (arith, e) in
        rw e (omega (arith, h, early), (retry_after_ms-le secs attempt, k))
    | inr e ↦ rw e (omega arith, tt)
  ]

  request_from-waits :
      (fuel attempt : ℕ) (replies : ℕ → Reply A)
      → (length (request_from fuel attempt replies).1 ≤ 3 - attempt)
        × All (λ ms. ms ≤ max_backoff_ms) (request_from fuel attempt replies).1
  unfolding request_from
  request_from-waits zero attempt replies = (omega arith, tt)
  request_from-waits (suc fuel) attempt replies =
      let ih = request_from-waits fuel (suc attempt) replies in
      on_reply-waits (replies attempt) attempt _ ih.0 ih.1

  -- ClickUp limits the requests before the k-th from `attempt` on, and answers that one.
  pub data Answers (a : A) : ℕ → ℕ → (ℕ → Reply A) → Type 0 where
    at_once :
        (k attempt : ℕ) (replies : ℕ → Reply A)
        → replies attempt ≡ answer a
        → Answers a k attempt replies
    later :
        (k attempt : ℕ) (replies : ℕ → Reply A) (secs : Option ℕ)
        → replies attempt ≡ limited secs
        → Answers a k (suc attempt) replies
        → Answers a (suc k) attempt replies

  request_from_lem :
      {a : A} {k attempt : ℕ} {replies : ℕ → Reply A}
      → Answers a k attempt replies
      → (fuel : ℕ) → k < fuel
      → attempt + k ≤ 3
      → (request_from fuel attempt replies).0 ≡ some a
  unfolding request_from
  request_from_lem (at_once k attempt replies e) zero h b = absurd (omega (arith, h))
  request_from_lem (at_once k attempt replies e) (suc fuel) h b = rw e refl
  request_from_lem (later k attempt replies secs e rest) zero h b = absurd (omega (arith, h))
  request_from_lem (later k attempt replies secs e rest) (suc fuel) h b =
      let early : ltb attempt 3 ≡ true = ground (arith, b) in
      rw (e, early) (request_from_lem rest fuel (omega (arith, h)) (omega (arith, b)))

  -- A request is sent again three times at most, after a minute at most each time; it returns the answer
  -- that ClickUp gives after three limited replies or fewer.
  pub request_lem :
      (replies : ℕ → Reply A)
      → (length (request replies).1 ≤ 3)
        × All (λ ms. ms ≤ 60000) (request replies).1
        × ((a : A) → Answers a 3 0 replies → (request replies).0 ≡ some a)
  unfolding request
  request_lem replies =
      let waits = request_from-waits 4 0 replies in
      (omega (arith, waits.0), waits.1, λ a h. request_from_lem h 4 (omega arith) (omega arith))
