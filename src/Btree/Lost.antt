-- ===== src/Btree/Lost.antt =====
-- The put that is lost: `node_insert_nonfull` of src/storage/btree.c sends a key that equals the
-- separator it has just moved up to the left, where `node_search` does not look.
use kanbudb.Prelude.{ℕ, suc, ◌≡◌, true, false, arith, Bytes}
use kanbudb.Key.{below}
use kanbudb.Key.Order.{below_refl, below_eq, below_gt}
use kanbudb.Btree.{
  more, Kids, Node, child_at, insert_child, insert_kids, node_full, split_node, node_insert_nonfull,
  node_search, btree_put, btree_get,
}
use kanbudb.Btree.Laws.{IsOrdered}
use kanbudb.Btree.InnerInsert.{reaches-RightOf}
use kanbudb.Btree.InnerDelete.{level-Laws}

-- The key that equals the separator goes to the left half.
insert_kids_middle :
    (h : ℕ) (key value k : Bytes) (c : Node h) (rest : Kids (Node h))
    → IsOrdered (suc h) (more c k rest)
    → below key k ≡ true
    → node_full h c ≡ true
    → (split_node h c).1 ≡ key
    → node_insert_nonfull (suc h) key value (more c k rest)
      ≡ more
          (node_insert_nonfull h key value (split_node h c).0)
          (split_node h c).1
          (more (split_node h c).2 k rest)
unfolding node_insert_nonfull insert_kids insert_child
insert_kids_middle h key value k c rest o lt f e = ground (
  arith,
  reaches-RightOf h (level-Laws h) key value k rest lt o.2,
  below_refl key,
  below_gt key (split_node h c).1,
  below_eq key (split_node h c).1,
)

search-insert_kids_middle :
    (h : ℕ) (key value k : Bytes) (c : Node h) (rest : Kids (Node h))
    → IsOrdered (suc h) (more c k rest)
    → below key k ≡ true
    → node_full h c ≡ true
    → (split_node h c).1 ≡ key
    → node_search (suc h) key (node_insert_nonfull (suc h) key value (more c k rest))
      ≡ node_search (suc h) key (more c k rest)
unfolding node_search child_at
search-insert_kids_middle h key value k c rest o lt f e =
    let sp = (level-Laws h).split c f in
    rw (insert_kids_middle h key value k c rest o lt f e)
      (ground (arith, sp.search_halves key o.0, below_refl key))

-- In a valid tree whose root is not full, let the key stand below the first separator, in a full
-- first child whose split moves this very key up. Then `btree_put` is lost: a search finds
-- under the key what it found before.
pub btree_put_lost :
    (h : ℕ) (key value k : Bytes) (c : Node h) (rest : Kids (Node h))
    → IsOrdered (suc h) (more c k rest)
    → node_full (suc h) (more c k rest) ≡ false
    → below key k ≡ true
    → node_full h c ≡ true
    → (split_node h c).1 ≡ key
    → btree_get key (btree_put key value (record { height = suc h; root = more c k rest }))
      ≡ btree_get key (record { height = suc h; root = more c k rest })
unfolding btree_put btree_get
btree_put_lost h key value k c rest o nf lt f e =
    rw (nf, btree_put) (search-insert_kids_middle h key value k c rest o lt f e)
