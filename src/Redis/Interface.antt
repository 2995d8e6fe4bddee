-- ===== src/Redis/Interface.antt =====
-- The Redis server, which is not part of the repository: the commands that
-- internal/shared/infrastructure/persistence/redis/queue_broker.go and its Lua scripts call, as
-- operations on an abstract store. `IsRedis` is the documented behaviour that the theorems use, for
-- keys that hold a value of the command's own type.

use dispatchhub.Prelude.{
  ℕ, ◌+◌, ◌≤◌, ◌<◌, Text, false, ◌&&◌, Option, none, some, List, ◌≡◌, same, if◌then◌else◌, get_or,
  length, All, Occurs, Bool, true, not, ◌==◌, ◌||◌, ◌++◌, [], ◌∷◌, has_infix, ◌≢◌,
}
use dispatchhub.Prelude.Int.{ℤ, ◌≤ℤ◌}

-- The special characters of a glob pattern: * ? [ \ and a pattern with stars around a text.
abbrev pub is_special : ℕ → Bool
is_special c = c == 42 || c == 63 || c == 91 || c == 92

abbrev pub is_plain : Text → Bool
is_plain [] = true
is_plain (c ∷ cs) = not (is_special c) && is_plain cs

abbrev pub around : Text → Text
around needle = 42 ∷ (needle ++ 42 ∷ [])

pub record Redis : Type 1 where
  pub Store : Type 0
  pub zadd : Store → Text → ℤ → Text → Store
  pub zrem : Store → Text → Text → Store
  pub zscore : Store → Text → Text → Option ℤ
  pub zcard : Store → Text → ℕ
  -- the member with the lowest score, and the store without it
  pub zpopmin : Store → Text → Option (Text × Store)
  -- the members with a score up to the bound, at most so many
  pub zrangebyscore : Store → Text → ℤ → ℕ → List Text
  -- ZSCAN key cursor MATCH pattern COUNT 100: the next cursor, and members
  pub zscan : Store → Text → ℕ → Text → ℕ × List Text
  pub hset : Store → Text → Text → Text → Store
  pub hdel : Store → Text → Text → Store
  pub hget : Store → Text → Text → Option Text
  pub hlen : Store → Text → ℕ
  pub hincrby : Store → Text → Text → ℕ → Store
  -- HGET of a field that holds a number
  pub hget_int : Store → Text → Text → Option ℕ

module _ (r : Redis) where
  open r use {
    Store, zadd, zrem, zscore, zpopmin, zrangebyscore, hset, hdel, hget, hincrby, hget_int, zscan,
  }

  -- The rest of a scan from a cursor, between whose calls members leave the set, that does not return
  -- a member though it is there all the time.
  pub data Missed (key pattern m : Text) : Store → ℕ → Type 0 where
    last :
        (s : Store) (cursor : ℕ)
        → zscore s key m ≢ none
        → All (λ x. same x m ≡ false) (zscan s key cursor pattern).1
        → (zscan s key cursor pattern).0 ≡ 0
        → Missed key pattern m s cursor
    more :
        (s : Store) (cursor : ℕ)
        → zscore s key m ≢ none
        → All (λ x. same x m ≡ false) (zscan s key cursor pattern).1
        → (zscan s key cursor pattern).0 ≢ 0
        → Missed key pattern m s (zscan s key cursor pattern).0
        → Missed key pattern m s cursor
    removed :
        (s : Store) (cursor : ℕ) (x : Text)
        → same x m ≡ false
        → Missed key pattern m (zrem s key x) cursor
        → Missed key pattern m s cursor

  pub record IsRedis : Type 0 where
    pub zscore-zadd :
        (s : Store) (k : Text) (c : ℤ) (m k' m' : Text)
        → zscore (zadd s k c m) k' m' ≡ (if same k k' && same m m' then some c else zscore s k' m')
    pub zscore-zrem :
        (s : Store) (k m k' m' : Text)
        → zscore (zrem s k m) k' m' ≡ (if same k k' && same m m' then none else zscore s k' m')
    pub zscore-hset :
        (s : Store) (k f v k' m' : Text) → zscore (hset s k f v) k' m' ≡ zscore s k' m'
    pub zscore-hdel : (s : Store) (k f k' m' : Text) → zscore (hdel s k f) k' m' ≡ zscore s k' m'
    pub zscore-hincrby :
        (s : Store) (k f : Text) (n : ℕ) (k' m' : Text)
        → zscore (hincrby s k f n) k' m' ≡ zscore s k' m'
    pub hget-hset :
        (s : Store) (k f v k' f' : Text)
        → hget (hset s k f v) k' f' ≡ (if same k k' && same f f' then some v else hget s k' f')
    pub hget-hdel :
        (s : Store) (k f k' f' : Text)
        → hget (hdel s k f) k' f' ≡ (if same k k' && same f f' then none else hget s k' f')
    pub hget-zadd :
        (s : Store) (k : Text) (c : ℤ) (m k' f' : Text) → hget (zadd s k c m) k' f' ≡ hget s k' f'
    pub hget-zrem : (s : Store) (k m k' f' : Text) → hget (zrem s k m) k' f' ≡ hget s k' f'
    pub hget-hincrby :
        (s : Store) (k f : Text) (n : ℕ) (k' f' : Text)
        → same k k' ≡ false
        → hget (hincrby s k f n) k' f' ≡ hget s k' f'
    pub hget_int-hincrby :
        (s : Store) (k f : Text) (n : ℕ) (k' f' : Text)
        → hget_int (hincrby s k f n) k' f' ≡ (
            if same k k' && same f f'
            then some (get_or 0 (hget_int s k' f') + n)
            else hget_int s k' f')
    pub hget_int-zadd :
        (s : Store) (k : Text) (c : ℤ) (m k' f' : Text)
        → hget_int (zadd s k c m) k' f' ≡ hget_int s k' f'
    pub hget_int-zrem :
        (s : Store) (k m k' f' : Text) → hget_int (zrem s k m) k' f' ≡ hget_int s k' f'
    pub hget_int-hdel :
        (s : Store) (k f k' f' : Text)
        → same k k' ≡ false
        → hget_int (hdel s k f) k' f' ≡ hget_int s k' f'
    -- ZPOPMIN removes and returns the member with the lowest score.
    pub zpopmin-none :
        (s : Store) (k : Text) → zpopmin s k ≡ none → (m : Text) → zscore s k m ≡ none
    pub zpopmin-some :
        (s : Store) (k m : Text) (s' : Store)
        → zpopmin s k ≡ some (m, s')
        → (s' ≡ zrem s k m)
          × (c : ℤ) × (zscore s k m ≡ some c)
          × ((m' : Text) (c' : ℤ) → zscore s k m' ≡ some c' → c ≤ℤ c')
    -- ZRANGEBYSCORE key -inf max LIMIT 0 n
    pub range_sound :
        (s : Store) (k : Text) (top : ℤ) (n : ℕ)
        → All (λ m. (c : ℤ) × (zscore s k m ≡ some c) × (c ≤ℤ top)) (zrangebyscore s k top n)
    pub range_limit :
        (s : Store) (k : Text) (top : ℤ) (n : ℕ) → length (zrangebyscore s k top n) ≤ n
    pub range_complete :
        (s : Store) (k : Text) (top : ℤ) (n : ℕ) (m : Text) (c : ℤ)
        → length (zrangebyscore s k top n) < n
        → zscore s k m ≡ some c
        → c ≤ℤ top
        → Occurs m (zrangebyscore s k top n)
    -- A pattern without special characters between two stars matches the texts that it occurs in.
    pub zscan_sound :
        (s : Store) (k : Text) (cursor : ℕ) (needle : Text)
        → is_plain needle ≡ true
        → All (λ m. has_infix needle m ≡ true) (zscan s k cursor (around needle)).1
    -- A full iteration returns every member that is there from its start to its end.
    pub zscan_complete :
        (s : Store) (k needle m : Text)
        → is_plain needle ≡ true
        → has_infix needle m ≡ true
        → ¬ Missed k (around needle) m s 0

  -- A scan that starts at a cursor ends, in so many rounds, whatever is removed in between.
  pub record Ends : Type 0 where
    pub rounds : ℕ → ℕ
    pub rounds-zscan :
        (s : Store) (k : Text) (cursor : ℕ) (pattern : Text)
        → (zscan s k cursor pattern).0 ≢ 0
        → rounds (zscan s k cursor pattern).0 < rounds cursor
