-- ===== src/Fst.antt =====
-- The term dictionary, src/util/fst.c, a trie over bytes, and the full-text index on it,
-- src/fts/index.c. A node's array of 256 children is the list of those that are not NULL; the searches
-- here look a child up by its byte. Allocations are taken to succeed.
pub mod Lookup
use Prim.Native.Nat.{bit_or}
use kanbudb.Prelude.{
  ℕ, suc, ◌+◌, ◌*◌, ◌/◌, ◌%◌, ◌^◌, Option, none, some, List, [], ◌∷◌, ltb, ◌==◌, if◌then◌else◌,
  length, Bytes,
}
use kanbudb.Status.{Status, is_ok}

mutual
  -- The value, if the node has one, and the children.
  pub data Trie : Type 0 where
    node : Option ℕ → Children → Trie

  pub data Children : Type 0 where
    no_child : Children
    child : ℕ → Trie → Children → Children

abbrev pub empty_node : Trie
empty_node = node none no_child

unfoldable pub find_child : ℕ → Children → Option Trie
find_child c no_child = none
find_child c (child b t rest) = if b == c then some t else find_child c rest

-- The child of a byte, created if it is missing, with a change.
unfoldable pub update_child : ℕ → (Trie → Trie) → Children → Children
update_child c f no_child = child c (f empty_node) no_child
update_child c f (child b t rest) =
    if b == c then child b (f t) rest else child b t (update_child c f rest)

-- The walk of `fst_insert` along the key.
unfoldable pub insert_at : Bytes → ℕ → Trie → Trie
insert_at [] value (node old cs) = node (some value) cs
insert_at (c ∷ key) value (node old cs) = node old (update_child c (insert_at key value) cs)

unfoldable pub get_at : Bytes → Trie → Option ℕ
get_at [] (node old cs) = old
get_at (c ∷ key) (node old cs) = elim (find_child c cs) [ none ↦ none | some t ↦ get_at key t ]

-- The nodes that `fst_insert` creates.
unfoldable pub created : Bytes → Trie → ℕ
created [] t = 0
created (c ∷ key) (node old cs) = elim (find_child c cs) [
  | none ↦ suc (length key)
  | some t ↦ created key t
]

pub record Fst : Type 0 where
  pub root : Trie
  pub size : ℕ
  pub nodes : ℕ

unfoldable pub fst_create : Fst
fst_create = record { root = empty_node; size = 0; nodes = 1 }

abbrev pub fst_max_key_len : ℕ
fst_max_key_len = 256

unfoldable pub fst_insert : Fst → Bytes → ℕ → Fst × Status
fst_insert fst key value = if ltb fst_max_key_len (length key) then (fst, Status.inval) else (
  record {
    root = insert_at key value fst.root;
    size = elim (get_at key fst.root) [ none ↦ fst.size + 1 | some old ↦ fst.size ];
    nodes = fst.nodes + created key fst.root;
  },
  Status.ok,
)

-- `fst_get`: `none` is KANBUDB_ERR_NOTFOUND.
unfoldable pub fst_get : Fst → Bytes → Option ℕ
fst_get fst key = get_at key fst.root

-- `kanbudb_fts_index_t`
pub record FtsIndex : Type 0 where
  pub term_dict : Fst
  pub next_doc_id : ℕ
  pub total_docs : ℕ
  pub total_terms : ℕ

unfoldable pub fts_index_create : FtsIndex
fts_index_create = record {
  term_dict = fst_create;
  next_doc_id = 0;
  total_docs = 0;
  total_terms = 0;
}

-- The loop of `fts_index_add_document` over the terms with their positions.
unfoldable pub add_terms : ℕ → List (Bytes × ℕ) → FtsIndex → FtsIndex × Status
add_terms doc_id [] idx = (idx, Status.ok)
add_terms doc_id ((term, position) ∷ rest) idx =
    let (dict, rc) = fst_insert idx.term_dict term (bit_or (doc_id * 2 ^ 16 % 2 ^ 64) position) in
    let more =
      add_terms doc_id rest (record idx { term_dict = dict; total_terms = idx.total_terms + 1 }) in
    if is_ok rc then more else (record idx { term_dict = dict }, rc)

unfoldable pub fts_index_add_document : FtsIndex → List (Bytes × ℕ) → FtsIndex × Status
fts_index_add_document idx terms =
    add_terms idx.next_doc_id terms
      (record idx { next_doc_id = (idx.next_doc_id + 1) % 2 ^ 64; total_docs = idx.total_docs + 1 })

-- `fts_index_search`, the results that it stores.
unfoldable pub fts_index_search : FtsIndex → Bytes → List ℕ
fts_index_search idx term = elim (fst_get idx.term_dict term) [
  | none ↦ []
  | some encoded ↦ (encoded / 2 ^ 16) ∷ []
]
