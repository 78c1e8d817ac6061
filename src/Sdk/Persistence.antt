-- ===== src/Sdk/Persistence.antt =====
-- persistence/Persistence.h of WolkSDK-Cpp: what waits on the device to be published.
use wolk_connect_cpp.Base.{
  ℕ, String, List, [], ◌∷◌, ◌++◌, ◌≡◌, Option, none, some, take, drop, str_eq, if◌then◌else◌,
}

-- Items in a queue for each key (sensor readings, alarms): `get` reads the oldest items, `remove`
-- takes them off.
pub record Queues (Store A : Type 0) : Type 0 where
  pub put : Store → String → A → Store
  pub get : Store → String → ℕ → List A
  pub remove : Store → String → ℕ → Store
  pub keys : Store → List String
  -- Everything that waits under a key.
  pub items : Store → String → List A
  pub get-items : (s : Store) (k : String) (n : ℕ) → get s k n ≡ take n (items s k)
  pub items-put :
      (s : Store) (k j : String) (a : A)
      → items (put s k a) j ≡ (if str_eq k j then items s j ++ a ∷ [] else items s j)
  pub items-remove :
      (s : Store) (k j : String) (n : ℕ)
      → items (remove s k n) j ≡ (if str_eq k j then drop n (items s j) else items s j)

-- The latest item for each key (actuator statuses, configurations).
pub record Slots (Store A : Type 0) : Type 0 where
  pub put : Store → String → A → Store
  pub get : Store → String → Option A
  pub remove : Store → String → Store
  pub keys : Store → List String
  pub get-put :
      (s : Store) (k j : String) (a : A)
      → get (put s k a) j ≡ (if str_eq k j then some a else get s j)
  pub get-remove :
      (s : Store) (k j : String) → get (remove s k) j ≡ (if str_eq k j then none else get s j)
