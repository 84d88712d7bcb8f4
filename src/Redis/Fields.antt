-- ===== src/Redis/Fields.antt =====
-- What a field of a hash says of the list of its fields.
use call_it.Prelude.{List, [], ◌∷◌, ◌≡◌, ◌∙◌, refl, arith, some}
use call_it.Redis.Keys.{Key, Field, Text}
use call_it.Redis.Server.{Redis, lookup_field}

lookup_field-∷ :
    (f : Field) (v : Text) (l : List (Field × Text))
    → lookup_field f l ≡ some v
    → (p : Field × Text) × (rest : List (Field × Text)) × (l ≡ p ∷ rest)
lookup_field-∷ f v [] h = absurd (ground arith)
lookup_field-∷ f v (p ∷ l) h = (p, l, refl)

-- A hash with a field has fields.
pub hgetall-∷ :
    (redis : Redis) (k : Key) (f : Field) (v : Text) (t : redis.hashes.T)
    → redis.hashes.hget k f t ≡ some v
    → (p : Field × Text) × (rest : List (Field × Text)) × (redis.hashes.hgetall k t ≡ p ∷ rest)
hgetall-∷ redis k f v t h =
    lookup_field-∷ f v (redis.hashes.hgetall k t) (redis.hashes.lookup-hgetall k f t ∙ h)
