-- ===== src/Redis/Memory/Server.antt =====
-- The commands on the memory store, and the proof that they behave as documented.
use dispatchhub.Prelude.{
  ◌<◌, ℕ, ◌+◌, Text, ◌&&◌, Option, none, some, [], ◌∷◌, ◌≡◌, refl, same, same_iff, if◌then◌else◌,
  get_or, length, take, length-take-le, arith, inl, inr, Option-cases, ap, ◌∙◌, ◌++◌, has_infix,
  Bool-cases, All, true, false, List, Occurs,
}
use dispatchhub.Prelude.Int.{ℤ, ◌≤ℤ◌}
use dispatchhub.Redis.Interface.{Redis, IsRedis, Ends, Missed, around}
use dispatchhub.Redis.Memory.Table.{Table, lookup, without, members, lookup-without, Occurs-members}
use dispatchhub.Redis.Memory.Ranking.{
  lowest, lowest-none, lowest-score, lowest-le, within, within_sound, Occurs-within, take-whole,
}

pub record Memory : Type 0 where
  pub sets : Table ℤ
  pub hashes : Table Text
  pub numbers : Table ℕ

abbrev pub empty : Memory
empty = record { sets = []; hashes = []; numbers = [] }

-- A pattern without its first and last character; the scan takes one round.
abbrev but_last : Text → Text
but_last [] = []
but_last (x ∷ []) = []
but_last (x ∷ y ∷ xs) = x ∷ but_last (y ∷ xs)

abbrev inner : Text → Text
inner [] = []
inner (x ∷ xs) = but_last xs

abbrev scan_hits : Text → List Text → List Text
scan_hits needle [] = []
scan_hits needle (m ∷ ms) =
    let rest = scan_hits needle ms in if has_infix needle m then m ∷ rest else rest

abbrev zpopmin : Memory → Text → Option (Text × Memory)
zpopmin s k = elim (lowest k s.sets (members k s.sets)) [
  | none ↦ none
  | some (m, c) ↦ some (m, record s { sets = without k m s.sets })
]

abbrev pub memory : Redis
memory = record {
  Store = Memory;
  zadd = λ s k c m. record s { sets = (k, m, c) ∷ s.sets };
  zrem = λ s k m. record s { sets = without k m s.sets };
  zscore = λ s k m. lookup k m s.sets;
  zcard = λ s k. length (members k s.sets);
  zpopmin = zpopmin;
  zrangebyscore = λ s k top n. take n (within k s.sets top (members k s.sets));
  zscan = λ s k cursor pattern. (0, scan_hits (inner pattern) (members k s.sets));
  hset = λ s k f v. record s { hashes = (k, f, v) ∷ s.hashes };
  hdel = λ s k f. record s { hashes = without k f s.hashes };
  hget = λ s k f. lookup k f s.hashes;
  hlen = λ s k. length (members k s.hashes);
  hincrby =
      λ s k f n. record s { numbers = (k, f, get_or 0 (lookup k f s.numbers) + n) ∷ s.numbers };
  hget_int = λ s k f. lookup k f s.numbers;
}

zpopmin-some :
    (s : Memory) (k m : Text) (s' : Memory)
    → zpopmin s k ≡ some (m, s')
    → (s' ≡ record s { sets = without k m s.sets })
      × (c : ℤ) × (lookup k m s.sets ≡ some c)
      × ((m' : Text) (c' : ℤ) → lookup k m' s.sets ≡ some c' → c ≤ℤ c')
zpopmin-some s k m s' h = elim (Option-cases (lowest k s.sets (members k s.sets))) [
  | inl e ↦ cc e
  | inr ((m1, c), e) ↦
      let ms = members k s.sets in
      (
        ground (arith, e),
        c,
        ground (arith, lowest-score k s.sets ms m1 c e),
        λ m' c' q. lowest-le k s.sets ms m1 c m' c' e (Occurs-members k m' c' s.sets q) q,
      )
]

hget_int-hincrby :
    (k f k' f' : Text) (n : ℕ) (l : Table ℕ)
    → lookup k' f' ((k, f, get_or 0 (lookup k f l) + n) ∷ l)
      ≡ (if same k k' && same f f' then some (get_or 0 (lookup k' f' l) + n) else lookup k' f' l)
unfolding lookup
hget_int-hincrby k f k' f' n l = ground (arith, same_iff k k', same_iff f f')

zpopmin-none : (s : Memory) (k : Text) → zpopmin s k ≡ none → (m : Text) → lookup k m s.sets ≡ none
zpopmin-none s k h m = elim (Option-cases (lookup k m s.sets)) [
  | inl e ↦ e
  | inr (c, e) ↦
      let nothing : lowest k s.sets (members k s.sets) ≡ none = ground arith in
      lowest-none k s.sets (members k s.sets) m nothing (Occurs-members k m c s.sets e)
]

but_last-append : (xs : Text) → but_last (xs ++ 42 ∷ []) ≡ xs
but_last-append [] = refl
but_last-append (x ∷ []) = refl
but_last-append (x ∷ y ∷ xs) = ap (λ t. x ∷ t) (but_last-append (y ∷ xs))

scan_hits_sound :
    (needle : Text) (ms : List Text) → All (λ m. has_infix needle m ≡ true) (scan_hits needle ms)
scan_hits_sound needle [] = tt
scan_hits_sound needle (m ∷ ms) = elim (Bool-cases (has_infix needle m)) [
  | inl e ↦ rw (e, All) (e, scan_hits_sound needle ms)
  | inr e ↦ rw (e, All) (scan_hits_sound needle ms)
]

scan_hits_complete :
    (needle m : Text) (ms : List Text)
    → has_infix needle m ≡ true
    → Occurs m ms
    → ¬ All (λ x. same x m ≡ false) (scan_hits needle ms)
scan_hits_complete needle m [] hit h none_of = elim h [ ]
scan_hits_complete needle m (x ∷ ms) hit (inl e) none_of =
    let other : same x m ≡ false = (rw (ap (has_infix needle) e ∙ hit, All) at none_of).0 in
    ground (arith, same_iff x m)
scan_hits_complete needle m (x ∷ ms) hit (inr h) none_of = elim (Bool-cases (has_infix needle x)) [
  | inl e ↦ scan_hits_complete needle m ms hit h (rw (e, All) at none_of).1
  | inr e ↦ scan_hits_complete needle m ms hit h (rw (e, All) at none_of)
]

zscan_complete :
    (k needle m : Text) (s : Memory)
    → has_infix needle m ≡ true
    → ¬ Missed memory k (around needle) m s 0
zscan_complete k needle m _ hit (Missed.last s _ there none_of ended) =
    elim (Option-cases (lookup k m s.sets)) [
      | inl e ↦ absurd (there e)
      | inr (c, e) ↦
          scan_hits_complete needle m (members k s.sets) hit (Occurs-members k m c s.sets e)
            (rw (but_last-append needle) at none_of)
    ]
zscan_complete k needle m _ hit (Missed.more s _ there none_of further missed) =
    absurd (further refl)
zscan_complete k needle m _ hit (Missed.removed s _ x ne missed) =
    zscan_complete k needle m (memory.zrem s k x) hit missed

pub memory-Ends : Ends memory
memory-Ends = record { rounds = λ n. n; rounds-zscan = λ s k cursor pattern h. absurd (h refl) }

pub rounds-memory : memory-Ends.rounds 0 < 1
unfolding memory-Ends
rounds-memory = omega arith

pub memory-IsRedis : IsRedis memory
unfolding lookup
memory-IsRedis = record {
  zscore-zadd = λ s k c m k' m'. refl;
  zscore-zrem = λ s k m k' m'. lookup-without k m k' m' s.sets;
  zscore-hset = λ s k f v k' m'. refl;
  zscore-hdel = λ s k f k' m'. refl;
  zscore-hincrby = λ s k f n k' m'. refl;
  hget-hset = λ s k f v k' f'. refl;
  hget-hdel = λ s k f k' f'. lookup-without k f k' f' s.hashes;
  hget-zadd = λ s k c m k' f'. refl;
  hget-zrem = λ s k m k' f'. refl;
  hget-hincrby = λ s k f n k' f' h. refl;
  hget_int-hincrby = λ s k f n k' f'. hget_int-hincrby k f k' f' n s.numbers;
  hget_int-zadd = λ s k c m k' f'. refl;
  hget_int-zrem = λ s k m k' f'. refl;
  hget_int-hdel = λ s k f k' f' h. refl;
  zpopmin-none = zpopmin-none;
  zpopmin-some = zpopmin-some;
  range_sound = λ s k top n. within_sound k s.sets top (members k s.sets) n;
  range_limit = λ s k top n. length-take-le n (within k s.sets top (members k s.sets));
  range_complete = λ s k top n m c short e le.
      let ms = members k s.sets in
      rw (take-whole n (within k s.sets top ms) short)
        (Occurs-within k s.sets top ms m c (Occurs-members k m c s.sets e) e le);
  zscan_sound = λ s k cursor needle plain.
      rw (but_last-append needle) (scan_hits_sound needle (members k s.sets));
  zscan_complete = λ s k needle m plain hit. zscan_complete k needle m s hit;
}
