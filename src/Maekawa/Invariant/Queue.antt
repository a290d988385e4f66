-- ===== src/Maekawa/Invariant/Queue.antt =====
-- The waiting queue: what its operations do to its order and to the requests it names.
use aosproject.Prelude.{◌≡◌, ◌⊎◌, true, List, [], ◌∷◌, arith, In, All, ℤ}
use aosproject.OrderedSet.{insert, IsSorted, insert-IsSorted, insert_holds}
use aosproject.Maekawa.Message.{Message, precedes, precedes_irrefl, precedes_trans, Same-fields}
use aosproject.Maekawa.Handlers.{erase_from}

-- Some request in the queue has this sequence number and this sender.
abbrev pub Names : ℤ × ℤ → List Message → Type 0
Names p [] = ⊥
Names p (m ∷ ms) = ((m.seq ≡ p.0) × (m.from ≡ p.1)) ⊎ Names p ms

Names-of_In :
    (x y : Message) (ms : List Message)
    → x.seq ≡ y.seq
    → x.from ≡ y.from
    → In y ms
    → Names (x.seq, x.from) ms
Names-of_In x y [] e f h = elim h [ ]
Names-of_In x y (m ∷ ms) e f h = ground (arith, Names-of_In x y ms)

pub Names-insert_old :
    (p : ℤ × ℤ) (x : Message) (ms : List Message) → Names p ms → Names p (insert precedes x ms)
unfolding insert
Names-insert_old p x [] h = elim h [ ]
Names-insert_old p x (m ∷ ms) h = ground (arith, Names-insert_old p x ms)

-- After an insertion the queue names the inserted request, also if an equivalent one was there.
pub Names-insert : (x : Message) (ms : List Message) → Names (x.seq, x.from) (insert precedes x ms)
Names-insert x ms =
    let (y, i, s) = insert_holds precedes precedes_irrefl precedes_trans x ms in
    let (e, f) = Same-fields x y s in Names-of_In x y (insert precedes x ms) e f i

pub IsSorted-insert :
    (x : Message) (ms : List Message)
    → IsSorted precedes ms
    → IsSorted precedes (insert precedes x ms)
IsSorted-insert = insert-IsSorted precedes precedes_irrefl precedes_trans

All-erase_from :
    (P : Message → Type 0) (id : ℤ) (ms : List Message) → All P ms → All P (erase_from id ms)
unfolding erase_from
All-erase_from P id [] h = tt
All-erase_from P id (m ∷ ms) h = ground (arith, All-erase_from P id ms h.1)

pub IsSorted-erase_from :
    (id : ℤ) (ms : List Message) → IsSorted precedes ms → IsSorted precedes (erase_from id ms)
unfolding erase_from
IsSorted-erase_from id [] h = tt
IsSorted-erase_from id (m ∷ ms) h =
    ground
      (arith, IsSorted-erase_from id ms h.1, All-erase_from (λ y. precedes m y ≡ true) id ms h.0)
