-- ===== src/Changeset/RateLimiter.antt =====
-- rate_limiter.go: a token bucket for each namespace. Times are nanoseconds; a request carries the two
-- readings of the clock that its handling takes. Counts of tokens are not negative.
pub mod Window
use formae.Prelude.{
  ℕ, ◌+◌, ◌-◌, Bool, true, false, Option, none, some, List, ◌∷◌, [], Text, text_discrete, ltb, ite,
  if◌then◌else◌,
}

pub record TokenBucket : Type 0 where
  pub tokens : ℕ
  pub capacity : ℕ
  pub last_refill : ℕ

-- The map from namespaces to buckets.
abbrev pub Buckets : Type 0
Buckets = Text → Option TokenBucket

pub record RequestTokens : Type 0 where
  pub namespace : Text
  pub n : ℕ
  pub since : ℕ
  pub now : ℕ

abbrev pub second : ℕ
second = 1000000000

abbrev pub min : ℕ → ℕ → ℕ
min a b = if ltb a b then a else b

unfoldable pub consume : ℕ → TokenBucket → TokenBucket
consume n b = record b { tokens = b.tokens - n }

unfoldable pub replenish : RequestTokens → TokenBucket → TokenBucket
replenish r b =
    if ltb second (r.since - b.last_refill)
    then record b { tokens = b.capacity; last_refill = r.now }
    else b

-- `Init`: a full bucket for each plugin, given as its namespace and its MaxRequestsPerSecond.
unfoldable pub init_buckets : List (Text × ℕ) → (now : ℕ) → Buckets
init_buckets [] now = λ m. none
init_buckets ((ns, limit) ∷ plugins) now = λ m. elim (init_buckets plugins now m) [
  | some b ↦ some b
  | none ↦
      ite (text_discrete ns m)
        (some (record { tokens = limit; capacity = limit; last_refill = now })) none
]

-- The bucket after a request, and the tokens granted.
unfoldable pub serve : RequestTokens → TokenBucket → TokenBucket × ℕ
unfolding consume replenish
serve r b = let b1 = replenish r b in let n = min r.n b1.tokens in (consume n b1, n)

abbrev pub put_bucket : Buckets → Text → TokenBucket → Buckets
put_bucket bs ns b = λ m. ite (text_discrete ns m) (some b) (bs m)

unfoldable pub answer : Buckets → RequestTokens → Option TokenBucket → Option (Buckets × ℕ)
unfolding serve
answer bs r none = none
answer bs r (some b) = let (b', n) = serve r b in some (put_bucket bs r.namespace b', n)

-- `none` is the panic on a namespace without a bucket.
unfoldable pub handle_call : Buckets → RequestTokens → Option (Buckets × ℕ)
unfolding answer
handle_call bs r = answer bs r (bs r.namespace)

-- A run of the limiter, with the sum of what the requests for `ns` are granted.
abbrev pub counted : Text → RequestTokens → ℕ → ℕ
counted ns r n = ite (text_discrete r.namespace ns) n 0

abbrev pub add_to : ℕ → Option ℕ → Option ℕ
add_to n none = none
add_to n (some total) = some (n + total)

abbrev pub after_call :
    (Buckets → Option ℕ) → Text → RequestTokens → Option (Buckets × ℕ) → Option ℕ
after_call rest ns r none = none
after_call rest ns r (some (bs, n)) = add_to (counted ns r n) (rest bs)

unfoldable pub granted : Text → Buckets → List RequestTokens → Option ℕ
unfolding handle_call
granted ns bs [] = some 0
granted ns bs (r ∷ rs) = after_call (λ bs'. granted ns bs' rs) ns r (handle_call bs r)
