-- ===== src/Btree/Laws.antt =====
-- What a level of the B+tree promises to the level above it: predicates on the nodes of one
-- height, and the laws of its operations, which the leaves meet and each inner level passes on.
use kanbudb.Prelude.{
  ℕ, zero, suc, ◌≡◌, ◌≢◌, true, false, none, some, List, [], ◌∷◌, if◌then◌else◌, All, Bytes,
}
use kanbudb.Key.{key_cmp, is_eq, below}
use kanbudb.Status.{Status}
use kanbudb.Btree.{
  Item, Kids, Node, node_full, split_node, node_insert_nonfull, node_search, node_delete, only,
  more,
}

-- `P` holds of every separator, and `Q` of every child.
module _ {C : Type 0} where
  abbrev pub AllKids : (Bytes → Type 0) → (C → Type 0) → Kids C → Type 0
  AllKids P Q (only c) = Q c
  AllKids P Q (more c k rest) = Q c × P k × AllKids P Q rest

-- `P` holds of every key below the node: those of its items, and the separators.
abbrev pub AllKeys : (Bytes → Type 0) → (h : ℕ) → Node h → Type 0
AllKeys P zero items = All (λ (x : Item). P x.key) items
AllKeys P (suc h) kids = AllKids P (AllKeys P h) kids

abbrev pub Below : Bytes → Bytes → Type 0
Below k x = below x k ≡ true

abbrev pub AtLeast : Bytes → Bytes → Type 0
AtLeast k x = below x k ≡ false

abbrev pub Above : Bytes → Bytes → Type 0
Above k x = below k x ≡ true

-- The items of a leaf stand in ascending order, each key once.
abbrev pub IsAscending : List Item → Type 0
IsAscending [] = Unit
IsAscending (x ∷ xs) = All (λ (y : Item). below x.key y.key ≡ true) xs × IsAscending xs

-- A separator is above all keys to its left, not above any to its right, and below the separators
-- there.
abbrev pub OrderedKids : (h : ℕ) → (Node h → Type 0) → Kids (Node h) → Type 0
OrderedKids h Q (only c) = Q c
OrderedKids h Q (more c k rest) =
    Q c
    × AllKeys (Below k) h c
    × AllKids (Above k) (AllKeys (AtLeast k) h) rest
    × OrderedKids h Q rest

abbrev pub IsOrdered : (h : ℕ) → Node h → Type 0
IsOrdered zero items = IsAscending items
IsOrdered (suc h) kids = OrderedKids h (IsOrdered h) kids

-- `key` is not the key that would move up if this node were split now.
abbrev pub NotMiddle : Bytes → (h : ℕ) → Node h → Type 0
NotMiddle key h n = node_full h n ≡ true → (split_node h n).1 ≢ key

-- `key` is not the middle key of any full node below the root.
abbrev pub MissesMiddles : Bytes → (h : ℕ) → Node h → Type 0
MissesMiddles key zero items = Unit
MissesMiddles key (suc h) kids =
    AllKids (λ _. Unit) (λ c. NotMiddle key h c × MissesMiddles key h c) kids

pub record SplitLaws (h : ℕ) (n : Node h) : Type 1 where
  pub all :
      (P : Bytes → Type 0)
      → AllKeys P h n
      → AllKeys P h (split_node h n).0 × P (split_node h n).1 × AllKeys P h (split_node h n).2
  pub left_below : IsOrdered h n → AllKeys (Below (split_node h n).1) h (split_node h n).0
  pub right_above : IsOrdered h n → AllKeys (AtLeast (split_node h n).1) h (split_node h n).2
  pub left_ordered : IsOrdered h n → IsOrdered h (split_node h n).0
  pub right_ordered : IsOrdered h n → IsOrdered h (split_node h n).2
  pub search_halves :
      (q : Bytes)
      → IsOrdered h n
      → node_search h q n ≡ (
          if below q (split_node h n).1
          then node_search h q (split_node h n).0
          else node_search h q (split_node h n).2)
  pub misses :
      (key : Bytes)
      → MissesMiddles key h n
      → MissesMiddles key h (split_node h n).0 × MissesMiddles key h (split_node h n).2
  -- The left half is not empty.
  pub strict :
      (k : Bytes) → IsOrdered h n → AllKeys (AtLeast k) h n → below k (split_node h n).1 ≡ true
  pub not_full : (node_full h (split_node h n).0 ≡ false) × (node_full h (split_node h n).2 ≡ false)

-- The laws of insertion into a node that holds no full node with `key` in its middle.
pub record InsertLaws (h : ℕ) (key value : Bytes) (n : Node h) : Type 1 where
  pub all :
      (P : Bytes → Type 0) → P key → AllKeys P h n → AllKeys P h (node_insert_nonfull h key value n)
  pub ordered : IsOrdered h (node_insert_nonfull h key value n)
  pub search_self : node_search h key (node_insert_nonfull h key value n) ≡ some value
  pub search_ne :
      (q : Bytes)
      → q ≢ key
      → node_search h q (node_insert_nonfull h key value n) ≡ node_search h q n

-- The laws of deletion.
pub record DeleteLaws (h : ℕ) (key : Bytes) (n : Node h) : Type 1 where
  pub all : (P : Bytes → Type 0) → AllKeys P h n → AllKeys P h (node_delete h key n).0
  pub ordered : IsOrdered h (node_delete h key n).0
  pub search :
      (q : Bytes)
      → node_search h q (node_delete h key n).0
        ≡ (if is_eq (key_cmp q key) then none else node_search h q n)
  pub status :
      (node_delete h key n).1
      ≡ elim (node_search h key n) [ none ↦ Status.not_found | some v ↦ Status.ok ]

-- What one level promises.
pub record Laws (h : ℕ) : Type 1 where
  pub split : (n : Node h) → node_full h n ≡ true → SplitLaws h n
  pub insert :
      (key value : Bytes) (n : Node h)
      → IsOrdered h n
      → MissesMiddles key h n
      → InsertLaws h key value n
  pub delete : (key : Bytes) (n : Node h) → IsOrdered h n → DeleteLaws h key n
