-- ===== src/Redis/Laws.antt =====
-- The equations of the documented behaviour, as rules for `simp`.
use dispatchhub.Prelude.{ℕ, ◌+◌, Text, false, ◌&&◌, none, some, ◌≡◌, same, if◌then◌else◌, get_or}
use dispatchhub.Prelude.Int.{ℤ}
use dispatchhub.Redis.Interface.{Redis, IsRedis}

module _ (r : Redis) ⦃redis : IsRedis r⦄ where
  open r use {Store, zadd, zrem, zscore, hset, hdel, hget, hincrby, hget_int}

  pub zscore-zadd :
      (s : Store) (k : Text) (c : ℤ) (m k' m' : Text)
      → zscore (zadd s k c m) k' m' ≡ (if same k k' && same m m' then some c else zscore s k' m')
  zscore-zadd s k c m k' m' = redis.zscore-zadd s k c m k' m'

  pub zscore-zrem :
      (s : Store) (k m k' m' : Text)
      → zscore (zrem s k m) k' m' ≡ (if same k k' && same m m' then none else zscore s k' m')
  zscore-zrem s k m k' m' = redis.zscore-zrem s k m k' m'

  pub zscore-hset : (s : Store) (k f v k' m' : Text) → zscore (hset s k f v) k' m' ≡ zscore s k' m'
  zscore-hset s k f v k' m' = redis.zscore-hset s k f v k' m'

  pub zscore-hdel : (s : Store) (k f k' m' : Text) → zscore (hdel s k f) k' m' ≡ zscore s k' m'
  zscore-hdel s k f k' m' = redis.zscore-hdel s k f k' m'

  pub zscore-hincrby :
      (s : Store) (k f : Text) (n : ℕ) (k' m' : Text)
      → zscore (hincrby s k f n) k' m' ≡ zscore s k' m'
  zscore-hincrby s k f n k' m' = redis.zscore-hincrby s k f n k' m'

  pub hget-hset :
      (s : Store) (k f v k' f' : Text)
      → hget (hset s k f v) k' f' ≡ (if same k k' && same f f' then some v else hget s k' f')
  hget-hset s k f v k' f' = redis.hget-hset s k f v k' f'

  pub hget-hdel :
      (s : Store) (k f k' f' : Text)
      → hget (hdel s k f) k' f' ≡ (if same k k' && same f f' then none else hget s k' f')
  hget-hdel s k f k' f' = redis.hget-hdel s k f k' f'

  pub hget-zadd :
      (s : Store) (k : Text) (c : ℤ) (m k' f' : Text) → hget (zadd s k c m) k' f' ≡ hget s k' f'
  hget-zadd s k c m k' f' = redis.hget-zadd s k c m k' f'

  pub hget-zrem : (s : Store) (k m k' f' : Text) → hget (zrem s k m) k' f' ≡ hget s k' f'
  hget-zrem s k m k' f' = redis.hget-zrem s k m k' f'

  pub hget-hincrby :
      (s : Store) (k f : Text) (n : ℕ) (k' f' : Text)
      → same k k' ≡ false
      → hget (hincrby s k f n) k' f' ≡ hget s k' f'
  hget-hincrby s k f n k' f' h = redis.hget-hincrby s k f n k' f' h

  pub hget_int-hincrby :
      (s : Store) (k f : Text) (n : ℕ) (k' f' : Text)
      → hget_int (hincrby s k f n) k' f' ≡ (
          if same k k' && same f f'
          then some (get_or 0 (hget_int s k' f') + n)
          else hget_int s k' f')
  hget_int-hincrby s k f n k' f' = redis.hget_int-hincrby s k f n k' f'

  pub hget_int-zadd :
      (s : Store) (k : Text) (c : ℤ) (m k' f' : Text)
      → hget_int (zadd s k c m) k' f' ≡ hget_int s k' f'
  hget_int-zadd s k c m k' f' = redis.hget_int-zadd s k c m k' f'

  pub hget_int-zrem :
      (s : Store) (k m k' f' : Text) → hget_int (zrem s k m) k' f' ≡ hget_int s k' f'
  hget_int-zrem s k m k' f' = redis.hget_int-zrem s k m k' f'

  pub hget_int-hdel :
      (s : Store) (k f k' f' : Text)
      → same k k' ≡ false
      → hget_int (hdel s k f) k' f' ≡ hget_int s k' f'
  hget_int-hdel s k f k' f' h = redis.hget_int-hdel s k f k' f' h

pub ruleset redis_laws = (
  zscore-zadd, zscore-zrem, zscore-hset, zscore-hdel, zscore-hincrby, hget-hset, hget-hdel,
  hget-zadd, hget-zrem, hget-hincrby, hget_int-hincrby, hget_int-zadd, hget_int-zrem, hget_int-hdel,
)
