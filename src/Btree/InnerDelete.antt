-- ===== src/Btree/InnerDelete.antt =====
-- The laws of a deletion from an inner level of the B+tree, src/storage/btree.c, and the laws of
-- every level.
use kanbudb.Prelude.{
  ℕ, zero, suc, ◌≡◌, sym, subst, inl, inr, true, false, none, some, arith, if◌then◌else◌,
  Bool-cases, Bytes,
}
use kanbudb.Status.{Status}
use kanbudb.Key.{key_cmp, is_eq, below}
use kanbudb.Key.Order.{is_eq_iff}
use kanbudb.Btree.{Kids, Node, child_at, delete_kids, node_search, node_delete, only, more}
use kanbudb.Btree.Laws.{AllKids, AllKeys, Below, AtLeast, Above, IsOrdered, DeleteLaws, Laws}
use kanbudb.Btree.LeafReads.{leaf-Laws}
use kanbudb.Btree.Inner.{OrdK, search, kids-SplitLaws}
use kanbudb.Btree.InnerInsert.{kids-InsertLaws}

module _ (h : ℕ) (ih : Laws h) (key : Bytes) where
  abbrev drop_key : Kids (Node h) → Kids (Node h)
  drop_key g = (delete_kids (node_delete h key) key g).0

  AllKids-delete_kids :
      (P : Bytes → Type 0) (Q : Node h → Type 0) (g : Kids (Node h))
      → ((c : Node h) → IsOrdered h c → Q c → Q (node_delete h key c).0)
      → OrdK h g
      → AllKids P Q g
      → AllKids P Q (drop_key g)
  unfolding delete_kids
  AllKids-delete_kids P Q (only c) f o a = f c o a
  AllKids-delete_kids P Q (more c k rest) f o a =
      ground (arith, f c o.0 a.0, AllKids-delete_kids P Q rest f o.3 a.2)

  all-delete :
      (P : Bytes → Type 0) (c : Node h)
      → IsOrdered h c
      → AllKeys P h c
      → AllKeys P h (node_delete h key c).0
  all-delete P c o a = (ih.delete key c o).all P a

  drop_key-left :
      (c : Node h) (k : Bytes) (rest : Kids (Node h))
      → below key k ≡ true
      → drop_key (more c k rest) ≡ more (node_delete h key c).0 k rest
  unfolding delete_kids
  drop_key-left c k rest l = ground arith

  drop_key-right :
      (c : Node h) (k : Bytes) (rest : Kids (Node h))
      → below key k ≡ false
      → drop_key (more c k rest) ≡ more c k (drop_key rest)
  unfolding delete_kids
  drop_key-right c k rest l = ground arith

  OrdK-delete_kids : (g : Kids (Node h)) → OrdK h g → OrdK h (drop_key g)
  unfolding delete_kids
  OrdK-delete_kids (only c) o = (ih.delete key c o).ordered
  OrdK-delete_kids (more c k rest) o = elim (Bool-cases (below key k)) [
    | inl l ↦
        let d = ih.delete key c o.0 in
        subst (OrdK h) (sym (drop_key-left c k rest l)) (d.ordered, d.all (Below k) o.1, o.2, o.3)
    | inr l ↦ subst (OrdK h) (sym (drop_key-right c k rest l)) (
      o.0,
      o.1,
      AllKids-delete_kids (Above k) (AllKeys (AtLeast k) h) rest (all-delete (AtLeast k)) o.3 o.2,
      OrdK-delete_kids rest o.3,
    )
  ]

  search-delete_kids :
      (q : Bytes) (g : Kids (Node h))
      → OrdK h g
      → search h q (drop_key g) ≡ (if is_eq (key_cmp q key) then none else search h q g)
  unfolding delete_kids child_at
  search-delete_kids q (only c) o = (ih.delete key c o).search q
  search-delete_kids q (more c k rest) o =
      ground
        (arith, (ih.delete key c o.0).search q, search-delete_kids q rest o.3, (is_eq_iff q key).0)

  status-delete_kids :
      (g : Kids (Node h))
      → OrdK h g
      → (delete_kids (node_delete h key) key g).1
        ≡ elim (search h key g) [ none ↦ Status.not_found | some v ↦ Status.ok ]
  unfolding delete_kids child_at
  status-delete_kids (only c) o = (ih.delete key c o).status
  status-delete_kids (more c k rest) o =
      ground (arith, (ih.delete key c o.0).status, status-delete_kids rest o.3)

  kids-DeleteLaws : (g : Kids (Node h)) → IsOrdered (suc h) g → DeleteLaws (suc h) key g
  unfolding node_delete node_search
  kids-DeleteLaws g o = record {
    all = λ P a. AllKids-delete_kids P (AllKeys P h) g (all-delete P) o a;
    ordered = OrdK-delete_kids g o;
    search = λ q. search-delete_kids q g o;
    status = status-delete_kids g o;
  }

-- Every level meets the laws.
pub level-Laws : (h : ℕ) → Laws h
level-Laws zero = leaf-Laws
level-Laws (suc h) = record {
  split = kids-SplitLaws h;
  insert = kids-InsertLaws h (level-Laws h);
  delete = kids-DeleteLaws h (level-Laws h);
}
