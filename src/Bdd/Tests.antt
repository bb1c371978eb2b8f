-- ===== src/Bdd/Tests.antt =====
-- Runs of src/bdd_tag.cpp.
use libdft64_ect.Prelude.{
  ℕ, ◌+◌, ◌≡◌, refl, Option, none, some, ◌*◌, List, [], ◌∷◌, map, ◌==◌, arith, ◌>>=◌,
}
use libdft64_ect.Bdd.{TagSeg, Nodes, init, alloc_node, insert, combine, find}
use libdft64_ect.Bdd.Inv.{init_shape, init-IsTrie}
use libdft64_ect.Bdd.Returns
use libdft64_ect.Bdd.Returns.{Returns}
use libdft64_ect.Bdd.Union.{IsTagOf, label, union, insert-single, combine-IsUnion}
use libdft64_ect.Bdd.Find.{covers, IsRising, find-has}
use libdft64_ect.Bdd.Labels.{has}

-- The tag of each offset of a list, by `insert`.
labels_of : List ℕ → Nodes → Option (List ℕ)
labels_of [] ns = some []
labels_of (p ∷ ps) ns = insert ns p >>= λ r. labels_of ps r.0 >>= λ ls. some (r.1 ∷ ls)

-- The offsets that `find` lists for the union of two.
found : ℕ → ℕ → Option (List ℕ)
found a b = do
  (ns1, l1) ← insert init a
  (ns2, l2) ← insert ns1 b
  (ns3, l3) ← combine ns2 l1 l2
  segs ← find ns3 l3
  some (map (λ s. s.begin) segs)

found_two : found 7 3 ≡ some (3 ∷ 7 ∷ [])
unfolding found insert combine find init alloc_node
found_two = refl

-- The largest offset gets a tag that `find` does not list.
found_largest : found 0xffffff 3 ≡ some (3 ∷ [])
unfolding found insert combine find init alloc_node
found_largest = refl

-- The second tag for offset 5 is another one, though the first is in the vector.
labels_twice : labels_of (5 ∷ 2 ∷ 5 ∷ []) init ≡ some (2 ∷ 4 ∷ 6 ∷ [])
unfolding labels_of insert init alloc_node
labels_twice = refl

-- A vector with a tag for offset 3, and then one for 5.
from_some : Option (Nodes × ℕ) → Nodes × ℕ
from_some none = (init, 0)
from_some (some r) = r

three : Nodes × ℕ
unfolding from_some
three = from_some (insert init 3)

five : Nodes × ℕ
unfolding from_some
five = from_some (insert three.0 5)

three_eq : insert init 3 ≡ some three
unfolding from_some three insert init alloc_node
three_eq = refl

five_eq : insert three.0 5 ≡ some five
unfolding from_some three five insert init alloc_node
five_eq = refl

-- The tags of both are 2 and 4.
labels_three_five : (three.1 ≡ 2) × (five.1 ≡ 4)
unfolding from_some three five insert init alloc_node
labels_three_five = (refl, refl)

insert-single_example :
    Returns (IsTagOf init init_shape (λ n. n == 3)) (init.size + 1) (insert init 3)
insert-single_example = insert-single init init_shape 3 init-IsTrie (omega arith)

three_tag : IsTagOf init init_shape (λ n. n == 3) three
three_tag = Returns.result (insert-single init init_shape 3 init-IsTrie (omega arith)) three_eq

five_tag : IsTagOf three.0 three_tag.shape (λ n. n == 5) five
five_tag =
    Returns.result (insert-single three.0 three_tag.shape 5 three_tag.trie (omega arith)) five_eq

-- The union of the tags of 3 and 5.
combine-IsUnion_example :
    Returns
      (IsTagOf five.0 five_tag.shape (union five.0 (label three.1) (label five.1)))
      (five.0.size + 2 * (label three.1 + label five.1))
      (combine five.0 three.1 five.1)
combine-IsUnion_example =
    combine-IsUnion five.0 five_tag.shape three.1 five.1 five_tag.trie
      (five_tag.kept three.1 0 three_tag.tag).0 five_tag.tag

find-has_example :
    (tags : List TagSeg) × (find five.0 five.1 ≡ some tags)
    × ((n : ℕ) → covers tags n ≡ has five.0 (label five.1) n)
    × IsRising 0 tags
find-has_example = find-has five.0 five_tag.shape five_tag.trie five.1 five_tag.tag
