-- ===== src/Dict.antt =====
-- RedisModuleDict, which Redis implements: the operations that the module calls, and the documented
-- behaviour that it relies on. `set` is DictSetC, which leaves a key that exists alone; `replace` is
-- what a write through the pointer under a key amounts to; `entries` is what an iterator started at
-- "^" yields.
pub mod Total
pub mod Assoc
use redis_fs.Base.{◌≡◌, Option, none, some, List, [], ◌∷◌, if◌then◌else◌, Bytes, bytes_eq}

module _ {V : Type 0} where
  unfoldable pub find : Bytes → List (Bytes × V) → Option V
  find k [] = none
  find k ((j, v) ∷ l) = if bytes_eq j k then some v else find k l

  -- No key occurs twice.
  abbrev pub Distinct : List (Bytes × V) → Type 0
  Distinct [] = Unit
  Distinct ((k, v) ∷ l) = (find k l ≡ none) × Distinct l

  abbrev pub or_else : Option V → V → V
  or_else none v = v
  or_else (some w) v = w

pub record DictApi (V : Type 0) : Type 1 where
  pub Dict : Type 0
  pub empty : Dict
  pub get : Dict → Bytes → Option V
  pub set : Dict → Bytes → V → Dict
  pub replace : Dict → Bytes → V → Dict
  pub del : Dict → Bytes → Dict
  pub entries : Dict → List (Bytes × V)
  pub get-empty : (k : Bytes) → get empty k ≡ none
  pub get-set :
      (d : Dict) (k j : Bytes) (v : V)
      → get (set d k v) j ≡ (if bytes_eq k j then some (or_else (get d k) v) else get d j)
  pub get-replace :
      (d : Dict) (k j : Bytes) (v : V)
      → get (replace d k v) j ≡ (if bytes_eq k j then some v else get d j)
  pub get-del :
      (d : Dict) (k j : Bytes) → get (del d k) j ≡ (if bytes_eq k j then none else get d j)
  pub find-entries : (d : Dict) (k : Bytes) → find k (entries d) ≡ get d k
  pub entries-Distinct : (d : Dict) → Distinct (entries d)
