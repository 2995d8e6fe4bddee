-- ===== src/Redis/Memory/Ranking.antt =====
-- The lowest member of a sorted set in memory, and its members up to a score.
use dispatchhub.Prelude.{
  ℕ, suc, zero, ◌<◌, Text, Bool, true, false, Option, none, some, List, [], ◌∷◌, ◌≡◌, refl, ap,
  if◌then◌else◌, length, take, All, Occurs, arith, inl, inr, Option-cases, Bool-cases,
}
use dispatchhub.Prelude.Int.{ℤ, ◌≤ℤ◌, ltb_ℤ, leb_ℤ}
use dispatchhub.Redis.Memory.Table.{Table, lookup}

le→leb : (a b : ℤ) → a ≤ℤ b → leb_ℤ a b ≡ true
le→leb a b h = ground arith

module _ (k : Text) (l : Table ℤ) where
  abbrev pub keep_lower : Text → Option ℤ → Option (Text × ℤ) → Option (Text × ℤ)
  keep_lower m none best = best
  keep_lower m (some c) none = some (m, c)
  keep_lower m (some c) (some (m', c')) = if ltb_ℤ c' c then some (m', c') else some (m, c)

  unfoldable pub lowest : List Text → Option (Text × ℤ)
  lowest [] = none
  lowest (m ∷ ms) = keep_lower m (lookup k m l) (lowest ms)

  pub lowest-none :
      (ms : List Text) (m : Text) → lowest ms ≡ none → Occurs m ms → lookup k m l ≡ none
  unfolding lowest
  lowest-none [] m h o = elim o [ ]
  lowest-none (x ∷ ms) m h (inl e) = ground arith
  lowest-none (x ∷ ms) m h (inr o) = ground (arith, lowest-none ms m)

  pub lowest-score :
      (ms : List Text) (m : Text) (c : ℤ) → lowest ms ≡ some (m, c) → lookup k m l ≡ some c
  unfolding lowest
  lowest-score [] m c h = ground arith
  lowest-score (x ∷ ms) m c h = ground (arith, lowest-score ms m c)

  pub lowest-le :
      (ms : List Text) (m : Text) (c : ℤ) (m' : Text) (c' : ℤ)
      → lowest ms ≡ some (m, c)
      → Occurs m' ms
      → lookup k m' l ≡ some c'
      → c ≤ℤ c'
  unfolding lowest
  lowest-le [] m c m' c' h o e = elim o [ ]
  lowest-le (x ∷ ms) m c m' c' h (inl p) e = ground arith
  lowest-le (x ∷ ms) m c m' c' h (inr o) e = elim (Option-cases (lowest ms)) [
    | inl q ↦ cc (lowest-none ms m' q o)
    | inr ((m1, c1), q) ↦ ground (arith, q, lowest-le ms m1 c1 m' c' q o e)
  ]

  abbrev pub up_to : ℤ → Option ℤ → Bool
  up_to top none = false
  up_to top (some c) = leb_ℤ c top

  up_to-score : (top : ℤ) (o : Option ℤ) → up_to top o ≡ true → (c : ℤ) × (o ≡ some c) × (c ≤ℤ top)
  up_to-score top none h = cc
  up_to-score top (some c) h = (c, refl, ground arith)

  unfoldable pub within : ℤ → List Text → List Text
  within top [] = []
  within top (m ∷ ms) =
      let rest = within top ms in if up_to top (lookup k m l) then m ∷ rest else rest

  pub within_sound :
      (top : ℤ) (ms : List Text) (n : ℕ)
      → All (λ m. (c : ℤ) × (lookup k m l ≡ some c) × (c ≤ℤ top)) (take n (within top ms))
  unfolding within
  within_sound top ms zero = tt
  within_sound top [] (suc n) = tt
  within_sound top (m ∷ ms) (suc n) = elim (Bool-cases (up_to top (lookup k m l))) [
    | inl e ↦ rw (e, within) (up_to-score top _ e, within_sound top ms n)
    | inr e ↦ rw (e, within) (within_sound top ms (suc n))
  ]

  pub Occurs-within :
      (top : ℤ) (ms : List Text) (m : Text) (c : ℤ)
      → Occurs m ms
      → lookup k m l ≡ some c
      → c ≤ℤ top
      → Occurs m (within top ms)
  unfolding within
  Occurs-within top [] m c o e h = o
  Occurs-within top (x ∷ ms) m c (inl p) e h =
      let hit : up_to top (lookup k x l) ≡ true = rw (p, e) (le→leb c top h) in
      rw (hit, within) (inl p)
  Occurs-within top (x ∷ ms) m c (inr o) e h = elim (Bool-cases (up_to top (lookup k x l))) [
    | inl hit ↦ rw (hit, within) (inr (Occurs-within top ms m c o e h))
    | inr miss ↦ rw (miss, within) (Occurs-within top ms m c o e h)
  ]

pub take-whole : {A : Type 0} (n : ℕ) (xs : List A) → length (take n xs) < n → take n xs ≡ xs
take-whole zero xs h = elim h [ ]
take-whole (suc n) [] h = refl
take-whole (suc n) (x ∷ xs) h = ap (λ t. x ∷ t) (take-whole n xs (omega arith))
