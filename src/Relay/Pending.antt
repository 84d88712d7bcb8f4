-- ===== src/Relay/Pending.antt =====
-- The lists of the consumer group: IDs in rising order, what an acknowledgement leaves, and the split of
-- the pending messages at a cursor.
use call_it.Prelude.{
  ℕ, zero, suc, ◌<◌, Str, str_eq_iff, List, [], ◌∷◌, ◌++◌, take, drop, All, length, ◌≡◌, refl, ap,
  arith,
}
use call_it.Relay.Streams.{
  StreamMessage, Delivered, messages_of, deliver, own, drop_ids, before, from,
}

abbrev pub message_ids : List StreamMessage → List ℕ
message_ids [] = []
message_ids (m ∷ rest) = m.id ∷ message_ids rest

abbrev pub Rising : List ℕ → Type 0
Rising [] = Unit
Rising (i ∷ l) = All (λ j. i < j) l × Rising l

-- Every pending message is the consumer's.
abbrev pub IsOwned : Str → List Delivered → Type 0
IsOwned c = All (λ (d : Delivered). d.consumer ≡ c)

pub message_ids-append :
    (xs ys : List StreamMessage) → message_ids (xs ++ ys) ≡ message_ids xs ++ message_ids ys
message_ids-append [] ys = refl
message_ids-append (x ∷ xs) ys = ap (◌∷◌ x.id) (message_ids-append xs ys)

pub messages_of-append :
    (xs ys : List Delivered) → messages_of (xs ++ ys) ≡ messages_of xs ++ messages_of ys
messages_of-append [] ys = refl
messages_of-append (x ∷ xs) ys = ap (◌∷◌ x.message) (messages_of-append xs ys)

pub messages_of-deliver : (c : Str) (l : List StreamMessage) → messages_of (deliver c l) ≡ l
messages_of-deliver c [] = refl
messages_of-deliver c (m ∷ l) = ap (◌∷◌ m) (messages_of-deliver c l)

pub All-append {ℓ} :
    {A : Type 0} (P : A → Type ℓ) (xs ys : List A) → All P xs → All P ys → All P (xs ++ ys)
All-append P [] ys h k = k
All-append P (x ∷ xs) ys h k = (h.0, All-append P xs ys h.1 k)

pub All-split {ℓ} :
    {A : Type 0} (P : A → Type ℓ) (xs ys : List A) → All P (xs ++ ys) → All P xs × All P ys
All-split P [] ys h = (tt, h)
All-split P (x ∷ xs) ys h = let (a, b) = All-split P xs ys h.1 in ((h.0, a), b)

pub Rising-split : (xs ys : List ℕ) → Rising (xs ++ ys) → Rising xs × Rising ys
Rising-split [] ys h = (tt, h)
Rising-split (x ∷ xs) ys h =
    let (a, b) = Rising-split xs ys h.1 in (((All-split (λ j. x < j) xs ys h.0).0, a), b)

pub Rising-snoc : (xs : List ℕ) (i : ℕ) → Rising xs → All (λ j. j < i) xs → Rising (xs ++ (i ∷ []))
Rising-snoc [] i h k = (tt, tt)
Rising-snoc (x ∷ xs) i h k =
    (All-append (λ j. x < j) xs (i ∷ []) h.0 (k.0, tt), Rising-snoc xs i h.1 k.1)

pub IsOwned-deliver : (c : Str) (l : List StreamMessage) → IsOwned c (deliver c l)
IsOwned-deliver c [] = tt
IsOwned-deliver c (m ∷ l) = (refl, IsOwned-deliver c l)

pub own-IsOwned : (c : Str) (p : List Delivered) → IsOwned c p → own c p ≡ messages_of p
own-IsOwned c [] h = refl
own-IsOwned c (d ∷ p) h = ground (arith, own-IsOwned c p, str_eq_iff d.consumer c)

drop_ids-skip :
    (i : ℕ) (ids : List ℕ) (p : List Delivered)
    → All (λ j. i < j) (message_ids (messages_of p))
    → drop_ids (i ∷ ids) p ≡ drop_ids ids p
drop_ids-skip i ids [] h = refl
drop_ids-skip i ids (d ∷ p) h = ground (arith, drop_ids-skip i ids p)

drop_ids-nil : (p : List Delivered) → drop_ids [] p ≡ p
drop_ids-nil [] = refl
drop_ids-nil (d ∷ p) = ap (◌∷◌ d) (drop_ids-nil p)

-- To acknowledge the first messages leaves the others.
pub drop_ids-append :
    (p q : List Delivered)
    → Rising (message_ids (messages_of (p ++ q)))
    → drop_ids (message_ids (messages_of p)) (p ++ q) ≡ q
drop_ids-append [] q h = drop_ids-nil q
drop_ids-append (d ∷ p) q h = ground (
  arith,
  drop_ids-append p q,
  drop_ids-skip d.message.id (message_ids (messages_of p)) (p ++ q) h.0,
)

pub from-zero : (p : List Delivered) → (from 0 p ≡ p) × (before 0 p ≡ [])
from-zero [] = (refl, refl)
from-zero (d ∷ p) = ground (arith, from-zero p)

pub All-middle :
    (P : ℕ → Type 0) (p : List Delivered) (d : Delivered) (q : List Delivered)
    → All P (message_ids (messages_of (p ++ (d ∷ q))))
    → P d.message.id
All-middle P [] d q h = h.0
All-middle P (x ∷ p) d q h = All-middle P p d q h.1

-- The cursor finds its place again.
pub from-cursor :
    (p : List Delivered) (d : Delivered) (q : List Delivered)
    → Rising (message_ids (messages_of (p ++ (d ∷ q))))
    → (from d.message.id (p ++ (d ∷ q)) ≡ d ∷ q) × (before d.message.id (p ++ (d ∷ q)) ≡ p)
from-cursor [] d q h = ground arith
from-cursor (x ∷ p) d q h =
    let less : x.message.id < d.message.id = All-middle (λ j. x.message.id < j) p d q h.0 in
    ground (arith, from-cursor p d q h.1)

pub messages_of-take :
    (n : ℕ) (l : List Delivered) → messages_of (take n l) ≡ take n (messages_of l)
messages_of-take zero l = refl
messages_of-take (suc n) [] = refl
messages_of-take (suc n) (d ∷ l) = ap (◌∷◌ d.message) (messages_of-take n l)

pub length-messages_of : (l : List Delivered) → length (messages_of l) ≡ length l
length-messages_of [] = refl
length-messages_of (d ∷ l) = ap suc (length-messages_of l)

pub IsOwned-drop : (c : Str) (n : ℕ) (l : List Delivered) → IsOwned c l → IsOwned c (drop n l)
IsOwned-drop c zero l h = h
IsOwned-drop c (suc n) [] h = tt
IsOwned-drop c (suc n) (d ∷ l) h = IsOwned-drop c n l h.1

pub messages_of-drop :
    (n : ℕ) (l : List Delivered) → messages_of (drop n l) ≡ drop n (messages_of l)
messages_of-drop zero l = refl
messages_of-drop (suc n) [] = refl
messages_of-drop (suc n) (d ∷ l) = messages_of-drop n l
