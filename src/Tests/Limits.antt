-- ===== src/Tests/Limits.antt =====
-- The property of the rate limiter at two plugins.
use formae.Prelude.{
  ℕ, ◌+◌, ◌≤◌, ◌≡◌, ◌≢◌, none, some, List, ◌∷◌, [], Text, codes, text_discrete, inl, inr, refl, sym,
  subst, arith,
}
use formae.Changeset.RateLimiter.{
  TokenBucket, Buckets, RequestTokens, second, init_buckets, granted,
}
use formae.Changeset.RateLimiter.Window.{InSecond, Knows, granted-InSecond}

abbrev limits : Buckets
limits = init_buckets ((codes "AWS", 5) ∷ (codes "FAKE", 2) ∷ []) 0

abbrev full : TokenBucket
full = record { tokens = 5; capacity = 5; last_refill = 0 }

abbrev ask : Text → ℕ → ℕ → RequestTokens
ask ns n at = record { namespace = ns; n = n; since = at; now = at }

abbrev asked : List RequestTokens
asked = ask (codes "AWS") 4 10 ∷ ask (codes "FAKE") 3 20 ∷ ask (codes "AWS") 4 30 ∷ []

asked_timed : InSecond 5 asked
asked_timed r (inl q) =
    subst (λ x. (5 ≤ x.since) × (x.since ≤ 5 + second) × (5 ≤ x.now)) (sym q)
      (omega arith, omega arith, omega arith)
asked_timed r (inr (inl q)) =
    subst (λ x. (5 ≤ x.since) × (x.since ≤ 5 + second) × (5 ≤ x.now)) (sym q)
      (omega arith, omega arith, omega arith)
asked_timed r (inr (inr (inl q))) =
    subst (λ x. (5 ≤ x.since) × (x.since ≤ 5 + second) × (5 ≤ x.now)) (sym q)
      (omega arith, omega arith, omega arith)
asked_timed r (inr (inr (inr n))) = absurd n

some_not_none : {b : TokenBucket} → some b ≢ none
some_not_none e = cc

asked_known : Knows limits asked
unfolding init_buckets text_discrete
asked_known r (inl q) e = some_not_none (subst (λ x. limits x.namespace ≡ none) q e)
asked_known r (inr (inl q)) e = some_not_none (subst (λ x. limits x.namespace ≡ none) q e)
asked_known r (inr (inr (inl q))) e = some_not_none (subst (λ x. limits x.namespace ≡ none) q e)
asked_known r (inr (inr (inr n))) e = absurd n

aws_bucket : limits (codes "AWS") ≡ some full
unfolding init_buckets text_discrete
aws_bucket = refl

granted-InSecond_example :
    (total : ℕ) × (granted (codes "AWS") limits asked ≡ some total) × (total ≤ 5 + 5)
granted-InSecond_example =
    granted-InSecond 5 (codes "AWS") asked limits full aws_bucket (omega arith) asked_timed
      asked_known
