-- ===== src/Redis/Reference.antt =====
-- A server that meets the interface, so that the hypotheses on Redis can hold: it runs in the tests.
use mathlib.Core.List.Perm
use mathlib.Core.List.{Perm}
use call_it.Prelude.{
  ℕ, ◌+◌, Str, str_eq, str_eq_iff, List, [], ◌∷◌, ◌++◌, Bool, false, ◌&&◌, ◌||◌, Option, none, some,
  ◌≡◌, refl, if◌then◌else◌, arith,
}
use call_it.Redis.Keys.{
  Key, Field, Text, int, key_eq, field_eq, key_eq_refl, field_eq_iff, key_eq_sound,
}
use call_it.Redis.Server.{
  Stored, Strings, Hashes, Sets, Stream, SortedSets, Redis, Db, Entry, Scores, insert_field,
  lookup_field, drop_member, add_member, drop_up_to,
}

abbrev Table : Type 0
Table = Key → List (Field × Text)

abbrev drop_field : Field → List (Field × Text) → List (Field × Text)
drop_field f [] = []
drop_field f ((g, w) ∷ rest) =
    let kept = drop_field f rest in if field_eq f g then kept else (g, w) ∷ kept

lookup-insert_field :
    (f g : Field) (v : Text) (l : List (Field × Text))
    → lookup_field g (insert_field f v l) ≡ (if field_eq f g then some v else lookup_field g l)
lookup-insert_field f g v [] = ground (arith, field_eq_iff f g, field_eq_iff g f)
lookup-insert_field f g v ((h, w) ∷ l) = ground (
  arith,
  lookup-insert_field f g v l,
  field_eq_iff f h,
  field_eq_iff g h,
  field_eq_iff f g,
  field_eq_iff g f,
)

lookup-drop_field :
    (f g : Field) (l : List (Field × Text))
    → lookup_field g (drop_field f l) ≡ (if field_eq f g then none else lookup_field g l)
lookup-drop_field f g [] = ground arith
lookup-drop_field f g ((h, w) ∷ l) =
    ground (arith, lookup-drop_field f g l, field_eq_iff f h, field_eq_iff g h, field_eq_iff f g)

abbrev table_set : Key → Field → Text → Table → Table
table_set k f v t j = if key_eq k j then insert_field f v (t j) else t j

abbrev table_del : Key → Field → Table → Table
table_del k f t j = if key_eq k j then drop_field f (t j) else t j

pub hget-table_set :
    (k j : Key) (f g : Field) (v : Text) (t : Table)
    → lookup_field g (table_set k f v t j)
      ≡ (if key_eq k j && field_eq f g then some v else lookup_field g (t j))
hget-table_set k j f g v t = ground (arith, lookup-insert_field f g v (t j))

pub hget-table_del :
    (k j : Key) (f g : Field) (t : Table)
    → lookup_field g (table_del k f t j)
      ≡ (if key_eq k j && field_eq f g then none else lookup_field g (t j))
hget-table_del k j f g t = ground (arith, lookup-drop_field f g (t j))

pub table_set_self :
    (k : Key) (f : Field) (v : Text) (t : Table)
    → Perm (table_set k f v t k) (insert_field f v (t k))
table_set_self k f v t = rw key_eq_refl (Perm.refl (insert_field f v (t k)))

pub table_set_ne :
    (k j : Key) (f : Field) (v : Text) (t : Table) → key_eq k j ≡ false → table_set k f v t j ≡ t j
table_set_ne k j f v t h = rw h

abbrev hash_tables : Hashes
hash_tables = record {
  T = Table;
  hget = λ k f t. lookup_field f (t k);
  hset = table_set;
  hdel = table_del;
  hgetall = λ k t. t k;
  hget-hset = hget-table_set;
  hget-hdel = hget-table_del;
  lookup-hgetall = λ k f t. refl;
  hgetall-hset_self = table_set_self;
  hgetall-hset_ne = table_set_ne;
}

abbrev string_table : Strings
string_table = record {
  T = Key → Option Stored;
  get = λ k t. t k;
  put = λ k v t j. if key_eq k j then some v else t j;
  del = λ k t j. if key_eq k j then none else t j;
  get-put = λ k j v t. refl;
  get-del = λ k j t. refl;
}

abbrev has_member : Str → List Str → Bool
has_member m [] = false
has_member m (n ∷ rest) = str_eq n m || has_member m rest

abbrev members_add : Key → Str → (Key → List Str) → Key → List Str
members_add k m t j = if key_eq k j then (if has_member m (t k) then t j else m ∷ t j) else t j

abbrev count_members : List Str → ℕ
count_members [] = 0
count_members (m ∷ rest) = count_members rest + 1

pub smember-members_add :
    (k j : Key) (m n : Str) (t : Key → List Str)
    → has_member n (members_add k m t j) ≡ ((key_eq k j && str_eq m n) || has_member n (t j))
smember-members_add k j m n t = ground (arith, key_eq_sound k j, str_eq_iff m n)

pub scard-members_add :
    (k j : Key) (m : Str) (t : Key → List Str)
    → count_members (members_add k m t j) ≡ (
        if key_eq k j
        then (if has_member m (t k) then count_members (t j) else count_members (t j) + 1)
        else count_members (t j))
scard-members_add k j m t = ground arith

abbrev member_lists : Sets
member_lists = record {
  T = Key → List Str;
  smember = λ k m t. has_member m (t k);
  scard = λ k t. count_members (t k);
  sadd = members_add;
  smember-sadd = smember-members_add;
  scard-sadd = scard-members_add;
}

abbrev entry_list : Stream
entry_list = record {
  T = List Entry;
  entries = λ t. t;
  xadd = λ e t. t ++ (e ∷ []);
  entries-xadd = λ e t. refl;
}

abbrev score_lists : SortedSets
score_lists = record {
  T = Key → Scores;
  zrange = λ k t. t k;
  zadd = λ k s m t j. if key_eq k j then add_member m s (drop_member m (t j)) else t j;
  zrem = λ k m t j. if key_eq k j then drop_member m (t j) else t j;
  zremrangebyscore = λ k top t j. if key_eq k j then drop_up_to top (t j) else t j;
  zrange-zadd = λ k j s m t. refl;
  zrange-zrem = λ k j m t. refl;
  zrange-zremrangebyscore = λ k j top t. refl;
}

abbrev pub reference : Redis
reference = record {
  lua = record { tostring = int; tostring-int = λ z h. refl };
  strings = string_table;
  hashes = hash_tables;
  sets = member_lists;
  stream = entry_list;
  zsets = score_lists;
}

-- A server with nothing in it.
abbrev pub fresh : Db reference
fresh = record {
  strings = λ k. none;
  hashes = λ k. [];
  sets = λ k. [];
  stream = [];
  zsets = λ k. [];
}
