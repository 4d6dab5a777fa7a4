-- ===== src/Changeset/RateLimiter/Window.antt =====
-- How many requests the rate limiter (rate_limiter.go) lets through in one second.
use formae.Prelude.{
  ℕ, ◌+◌, ◌≤◌, ◌≡◌, ◌≢◌, ◌⊎◌, inl, inr, refl, sym, ap, ◌∙◌, Option, none, some, List, ◌∷◌, [], Text,
  text_discrete, if_pos, if_neg, In, arith,
}
use formae.Changeset.RateLimiter.{
  TokenBucket, Buckets, RequestTokens, second, consume, replenish, serve, put_bucket, answer,
  handle_call, counted, add_to, after_call, granted,
}

-- The clock readings of the requests lie in one second.
abbrev pub InSecond : ℕ → List RequestTokens → Type 0
InSecond start rs =
    (r : RequestTokens) → In r rs → (start ≤ r.since) × (r.since ≤ start + second) × (start ≤ r.now)

-- The requests are for namespaces that have a bucket.
abbrev pub Knows : Buckets → List RequestTokens → Type 0
Knows bs rs = (r : RequestTokens) → In r rs → bs r.namespace ≢ none

module _ (r : RequestTokens) (b : TokenBucket) where
  serve-capacity : (serve r b).0.capacity ≡ b.capacity
  unfolding serve consume replenish
  serve-capacity = ground arith

  -- Within the second after a refill there is no other.
  serve-same :
      r.since ≤ b.last_refill + second
      → ((serve r b).1 + (serve r b).0.tokens ≡ b.tokens)
        × ((serve r b).0.last_refill ≡ b.last_refill)
  unfolding serve consume replenish
  serve-same h = ground arith

  -- A refill is noted with the clock.
  serve-refilled :
      b.tokens ≤ b.capacity
      → (((serve r b).1 + (serve r b).0.tokens ≡ b.tokens)
          × ((serve r b).0.last_refill ≡ b.last_refill))
        ⊎ (((serve r b).1 + (serve r b).0.tokens ≡ b.capacity)
            × ((serve r b).0.last_refill ≡ r.now))
  unfolding serve consume replenish
  serve-refilled h = ground arith

-- A first request, its bucket and the rest.
module _ (ns : Text) (bs : Buckets) (r : RequestTokens) (rs : List RequestTokens) (b : TokenBucket)
    (e : bs r.namespace ≡ some b) where
  abbrev onward : Buckets
  onward = put_bucket bs r.namespace (serve r b).0

  handle_call-known : handle_call bs r ≡ some (onward, (serve r b).1)
  unfolding handle_call answer
  handle_call-known = ap (answer bs r) e

  granted-step :
      {t : ℕ}
      → granted ns onward rs ≡ some t
      → granted ns bs (r ∷ rs) ≡ some (counted ns r (serve r b).1 + t)
  unfolding granted
  granted-step f =
      ap (after_call (λ x. granted ns x rs) ns r) handle_call-known
      ∙ ap (add_to (counted ns r (serve r b).1)) f

  onward-Knows : Knows bs (r ∷ rs) → Knows onward rs
  onward-Knows k x m = ground (arith, k x (inr m))

  onward_same : r.namespace ≡ ns → onward ns ≡ some (serve r b).0
  onward_same q = if_pos (text_discrete r.namespace ns) q (some (serve r b).0) (bs ns)

  onward_other : r.namespace ≢ ns → onward ns ≡ bs ns
  onward_other ne = if_neg (text_discrete r.namespace ns) ne (some (serve r b).0) (bs ns)

  counted_same : (n : ℕ) → r.namespace ≡ ns → counted ns r n ≡ n
  counted_same n q = if_pos (text_discrete r.namespace ns) q n 0

  counted_other : (n : ℕ) → r.namespace ≢ ns → counted ns r n ≡ 0
  counted_other n ne = if_neg (text_discrete r.namespace ns) ne n 0

some_injective : {x y : TokenBucket} → some x ≡ some y → x ≡ y
some_injective q = cc

known_bucket : (o : Option TokenBucket) → o ≢ none → (b : TokenBucket) × (o ≡ some b)
known_bucket none n = absurd (n refl)
known_bucket (some b) n = (b, refl)

abbrev AtMost : Text → Buckets → List RequestTokens → ℕ → Type 0
AtMost ns bs rs bound = (t : ℕ) × (granted ns bs rs ≡ some t) × (t ≤ bound)

-- After a refill within the second, no more is granted than what the bucket holds.
after_refill :
    (start : ℕ) (ns : Text) (rs : List RequestTokens) (bs : Buckets) (b : TokenBucket)
    → bs ns ≡ some b
    → start ≤ b.last_refill
    → InSecond start rs
    → Knows bs rs
    → AtMost ns bs rs b.tokens
unfolding granted
after_refill start ns [] bs b e h timed knows = (0, refl, omega arith)
after_refill start ns (r ∷ rs) bs b e h timed knows =
    let (b0, e0) = known_bucket (bs r.namespace) (knows r (inl refl)) in
    let (t1, t2, t3) = timed r (inl refl) in
    let later : InSecond start rs = λ x m. timed x (inr m) in
    let known = onward-Knows ns bs r rs b0 e0 knows in
    elim (text_discrete r.namespace ns) [
      | no ne ↦
          let (t, ran, le) =
            after_refill start ns rs (onward ns bs r rs b0 e0) b
              (onward_other ns bs r rs b0 e0 ne ∙ e) h later known in
          (
            counted ns r (serve r b0).1 + t,
            granted-step ns bs r rs b0 e0 ran,
            omega (arith, le, counted_other ns bs r rs b0 e0 (serve r b0).1 ne),
          )
      | yes q ↦
          let same : b0 ≡ b = some_injective (sym e0 ∙ (ap bs q ∙ e)) in
          let (sum, refill) =
            serve-same r b0 (omega (arith, t2, h, ap (λ (x : TokenBucket). x.last_refill) same)) in
          let (t, ran, le) =
            after_refill start ns rs (onward ns bs r rs b0 e0) (serve r b0).0
              (onward_same ns bs r rs b0 e0 q)
              (omega (arith, refill, h, ap (λ (x : TokenBucket). x.last_refill) same)) later
              known in
          (
            counted ns r (serve r b0).1 + t,
            granted-step ns bs r rs b0 e0 ran,
            omega (
              arith,
              le,
              sum,
              counted_same ns bs r rs b0 e0 (serve r b0).1 q,
              ap (λ (x : TokenBucket). x.tokens) same,
            ),
          )
    ]

-- In one second, whatever requests arrive in whatever order, the limiter does not panic if each is for
-- a namespace with a bucket, and grants a namespace at most what its bucket holds at the start and one
-- refill.
pub granted-InSecond :
    (start : ℕ) (ns : Text) (rs : List RequestTokens) (bs : Buckets) (b : TokenBucket)
    → bs ns ≡ some b
    → b.tokens ≤ b.capacity
    → InSecond start rs
    → Knows bs rs
    → (total : ℕ) × (granted ns bs rs ≡ some total) × (total ≤ b.tokens + b.capacity)
unfolding granted
granted-InSecond start ns [] bs b e h timed knows = (0, refl, omega arith)
granted-InSecond start ns (r ∷ rs) bs b e h timed knows =
    let (b0, e0) = known_bucket (bs r.namespace) (knows r (inl refl)) in
    let (t1, t2, t3) = timed r (inl refl) in
    let later : InSecond start rs = λ x m. timed x (inr m) in
    let known = onward-Knows ns bs r rs b0 e0 knows in
    elim (text_discrete r.namespace ns) [
      | no ne ↦
          let (t, ran, le) =
            granted-InSecond start ns rs (onward ns bs r rs b0 e0) b
              (onward_other ns bs r rs b0 e0 ne ∙ e) h later known in
          (
            counted ns r (serve r b0).1 + t,
            granted-step ns bs r rs b0 e0 ran,
            omega (arith, le, counted_other ns bs r rs b0 e0 (serve r b0).1 ne),
          )
      | yes q ↦
          let same : b0 ≡ b = some_injective (sym e0 ∙ (ap bs q ∙ e)) in
          let held = ap (λ (x : TokenBucket). x.tokens) same in
          let size = ap (λ (x : TokenBucket). x.capacity) same in
          let here = onward_same ns bs r rs b0 e0 q in
          let once = counted_same ns bs r rs b0 e0 (serve r b0).1 q in
          let kept = serve-capacity r b0 in
          elim (serve-refilled r b0 (omega (arith, h, held, size))) [
            | inl (sum, refill) ↦
                let (t, ran, le) =
                  granted-InSecond start ns rs (onward ns bs r rs b0 e0) (serve r b0).0 here
                    (omega (arith, sum, h, held, size, kept)) later known in
                (
                  counted ns r (serve r b0).1 + t,
                  granted-step ns bs r rs b0 e0 ran,
                  omega (arith, le, sum, once, held, size, kept),
                )
            | inr (sum, refill) ↦
                let (t, ran, le) =
                  after_refill start ns rs (onward ns bs r rs b0 e0) (serve r b0).0 here
                    (omega (arith, refill, t3)) later known in
                (
                  counted ns r (serve r b0).1 + t,
                  granted-step ns bs r rs b0 e0 ran,
                  omega (arith, le, sum, once, held, size),
                )
          ]
    ]
