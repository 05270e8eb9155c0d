-- ===== src/Cache.antt =====
-- cache/: a cache of values by key. The library behind it (go-cache) is an interface.
use bitmarkd_broadcast_monit.Common.{ℕ, ◌+◌, ◌*◌, ◌≤◌, ◌<◌, ◌≡◌, Option, some, List, [], ◌∷◌, Bytes}
use bitmarkd_broadcast_monit.Clock.{Time, minute}

abbrev pub default_expire_time : ℕ
default_expire_time = 5 * minute

abbrev pub default_cleanup_time : ℕ
default_cleanup_time = 10 * minute

-- A go-cache store of values `V` with an expiration: `set` under the default expiration and `get`,
-- each at a time. A value is found until it has expired.
pub record GoCache (V : Type 0) : Type 1 where
  pub Store : Type 0
  pub create : ℕ → ℕ → Store
  pub set : Store → Time → Bytes → V → Store
  pub get : Store → Time → Bytes → Option V

-- What go-cache documents of a store that was created with the default times.
pub record Keeps {V : Type 0} (c : GoCache V) : Type 0 where
  pub get-set :
      (s : c.Store) (t u : Time) (k : Bytes) (v : V)
      → t ≤ u
      → u < t + default_expire_time
      → c.get (c.set s t k v) u k ≡ some v

-- The result of `NewCache`, which may be an error.
pub data Created (S : Type 0) : Type 0 where
  created : S → Created S
  wrong_parameters : Created S

-- `args` are the durations given.
unfoldable pub new_cache : {V : Type 0} (c : GoCache V) → List ℕ → Created c.Store
new_cache c [] = created (c.create default_expire_time default_cleanup_time)
new_cache c (expire_time ∷ cleanup_time ∷ []) = created (c.create expire_time cleanup_time)
new_cache c (expire_time ∷ []) = wrong_parameters
new_cache c (a ∷ b ∷ x ∷ rest) = wrong_parameters
