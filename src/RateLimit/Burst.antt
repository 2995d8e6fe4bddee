-- ===== src/RateLimit/Burst.antt =====
-- How many calls a full limiter allows at one moment.
use dispatchhub.Prelude.{
  ℕ, zero, suc, ◌^◌, ◌<◌, ◌≤◌, ◌≡◌, refl, ap, ◌∙◌, Bool, true, false, none, some, List, [], ◌∷◌,
  ltb, leb, if◌then◌else◌, arith,
}
use dispatchhub.Prelude.Int.{pos, sub_ℕ}
use dispatchhub.RateLimit.{Float, Limiter, new_limiter, refill, cut_off, take_token, allow_one}
use dispatchhub.RateLimit.Queues.{alone}

abbrev pub exact_below : ℕ
exact_below = 2 ^ 53

-- What IEEE 754 says of the whole numbers that a float64 holds exactly.
pub record IsFloat (f : Float) : Type 0 where
  pub seconds_zero : f.seconds (pos 0) ≡ f.of_int (pos 0)
  pub add_zero :
      (k : ℕ) → k < exact_below → f.add (f.of_int (pos k)) (f.of_int (pos 0)) ≡ f.of_int (pos k)
  pub sub_one :
      (k : ℕ)
      → suc k < exact_below
      → f.sub (f.of_int (pos (suc k))) (f.of_int (pos 1)) ≡ f.of_int (pos k)
  pub less_whole :
      (a b : ℕ)
      → a < exact_below
      → b < exact_below
      → f.less (f.of_int (pos a)) (f.of_int (pos b)) ≡ ltb a b
  pub at_least_whole :
      (a b : ℕ)
      → a < exact_below
      → b < exact_below
      → f.at_least (f.of_int (pos a)) (f.of_int (pos b)) ≡ leb b a

abbrev pub count : List Bool → ℕ
count [] = 0
count (true ∷ bs) = suc (count bs)
count (false ∷ bs) = count bs

-- The same time for `n` calls.
abbrev pub at_once : ℕ → ℕ → List ℕ
at_once zero now = []
at_once (suc n) now = now ∷ at_once n now

sub_ℕ-same : (n : ℕ) → sub_ℕ n n ≡ pos 0
sub_ℕ-same n = ground arith

one_below : (k : ℕ) → leb 1 (suc k) ≡ true
one_below k = ground arith

module _ (f : Float) (float : IsFloat f) where
  -- A limiter that is asked again at the time of its last call.
  abbrev holding : ℕ → f.Number → ℕ → ℕ → Limiter f
  holding now rate b k = record {
    rate = rate;
    burst = pos b;
    tokens = f.of_int (pos k);
    last_time = now;
  }

  refill-holding :
      (now : ℕ) (rate : f.Number) (b k : ℕ)
      → f.mul (f.of_int (pos 0)) rate ≡ f.of_int (pos 0)
      → b < exact_below
      → k ≤ b
      → refill f now (holding now rate b k) ≡ holding now rate b k
  unfolding refill
  refill-holding now rate b k finite small le =
      let gained : f.mul (f.seconds (sub_ℕ now now)) rate ≡ f.of_int (pos 0) =
        ap (λ z. f.mul (f.seconds z) rate) (sub_ℕ-same now)
        ∙ (ap (λ x. f.mul x rate) float.seconds_zero ∙ finite) in
      let total : f.add (f.of_int (pos k)) (f.mul (f.seconds (sub_ℕ now now)) rate)
          ≡ f.of_int (pos k) =
        ap (f.add (f.of_int (pos k))) gained ∙ float.add_zero k (omega (arith, small, le)) in
      let within : f.less (f.of_int (pos b)) (f.of_int (pos k)) ≡ false =
        float.less_whole b k small (omega (arith, small, le)) ∙ ground (arith, le) in
      ap (λ t. record { rate = rate; burst = pos b; tokens = cut_off f t (pos b); last_time = now })
        total
      ∙ ap
          (λ x. record {
            rate = rate;
            burst = pos b;
            tokens = if x then f.of_int (pos b) else f.of_int (pos k);
            last_time = now;
          })
          within

  allow-empty :
      (now : ℕ) (rate : f.Number) (b : ℕ)
      → f.mul (f.of_int (pos 0)) rate ≡ f.of_int (pos 0)
      → b < exact_below
      → allow_one f now (holding now rate b 0) ≡ (false, holding now rate b 0)
  unfolding allow_one
  allow-empty now rate b finite small =
      ap (take_token f) (refill-holding now rate b 0 finite small (omega arith))
      ∙ rw (float.at_least_whole 0 1 (omega arith) (omega arith)) refl

  allow-more :
      (now : ℕ) (rate : f.Number) (b k : ℕ)
      → f.mul (f.of_int (pos 0)) rate ≡ f.of_int (pos 0)
      → b < exact_below
      → suc k ≤ b
      → allow_one f now (holding now rate b (suc k)) ≡ (true, holding now rate b k)
  unfolding allow_one
  allow-more now rate b k finite small le =
      ap (take_token f) (refill-holding now rate b (suc k) finite small le)
      ∙ rw
          (
            float.at_least_whole (suc k) 1 (omega (arith, small, le)) (omega arith) ∙ one_below k,
            float.sub_one k (omega (arith, small, le)),
          )
          refl

  alone-count :
      (now : ℕ) (rate : f.Number) (b n k : ℕ)
      → f.mul (f.of_int (pos 0)) rate ≡ f.of_int (pos 0)
      → b < exact_below
      → k ≤ b
      → count (alone f rate (pos b) (some (holding now rate b k)) (at_once n now))
        ≡ (if leb n k then n else k)
  alone-count now rate b zero k finite small le = ground arith
  alone-count now rate b (suc n) zero finite small le =
      ap (λ p. count (p.0 ∷ alone f rate (pos b) (some p.1) (at_once n now)))
        (allow-empty now rate b finite small)
      ∙ (alone-count now rate b n zero finite small le ∙ ground arith)
  alone-count now rate b (suc n) (suc k) finite small le =
      ap (λ p. count (p.0 ∷ alone f rate (pos b) (some p.1) (at_once n now)))
        (allow-more now rate b k finite small le)
      ∙ (ap suc (alone-count now rate b n k finite small (omega (arith, le))) ∙ ground arith)

  -- Of any number of calls at the moment at which the limiter is made, as many are allowed as the burst,
  -- and all if they are no more, for a burst below 2^53 and a finite rate.
  pub burst_exact :
      (now : ℕ) (rate : f.Number) (burst n : ℕ)
      → f.mul (f.of_int (pos 0)) rate ≡ f.of_int (pos 0)
      → burst < exact_below
      → count (alone f rate (pos burst) none (at_once n now)) ≡ (if leb n burst then n else burst)
  unfolding new_limiter
  burst_exact now rate burst zero finite small = ground arith
  burst_exact now rate burst (suc n) finite small =
      alone-count now rate burst (suc n) burst finite small (omega arith)
