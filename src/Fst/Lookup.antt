-- ===== src/Fst/Lookup.antt =====
-- `fst_get` after `fst_insert`, of src/util/fst.c.
use mathlib.Core.Path.{ap₂}
use kanbudb.Prelude.{
  ℕ, ◌≤◌, ◌≡◌, refl, ◌∙◌, ◌≢◌, inl, inr, none, some, [], ◌∷◌, arith, ◌==◌, if◌then◌else◌,
  Bool-cases, Option-cases, le→ltb_false, length, Bytes,
}
use kanbudb.Key.{key_cmp, is_eq}
use kanbudb.Key.Order.{is_eq_iff}
use kanbudb.Fst.{
  Trie, Children, empty_node, find_child, update_child, insert_at, get_at, Fst, fst_max_key_len,
  fst_insert, fst_get, node, child, no_child,
}

find_child-update_child :
    (c : ℕ) (f : Trie → Trie) (cs : Children)
    → find_child c (update_child c f cs)
      ≡ some (elim (find_child c cs) [ none ↦ f empty_node | some t ↦ f t ])
unfolding find_child update_child
find_child-update_child c f no_child = ground arith
find_child-update_child c f (child b t rest) = ground (arith, find_child-update_child c f rest)

find_child-update_child_ne :
    (c d : ℕ) (f : Trie → Trie) (cs : Children)
    → d ≢ c
    → find_child d (update_child c f cs) ≡ find_child d cs
unfolding find_child update_child
find_child-update_child_ne c d f no_child h = ground arith
find_child-update_child_ne c d f (child b t rest) h =
    ground (arith, find_child-update_child_ne c d f rest h)

get_at-empty_node : (q : Bytes) → get_at q empty_node ≡ none
unfolding get_at find_child
get_at-empty_node [] = refl
get_at-empty_node (c ∷ q) = refl

get_at-insert_at_self :
    (key : Bytes) (value : ℕ) (t : Trie) → get_at key (insert_at key value t) ≡ some value
unfolding get_at insert_at
get_at-insert_at_self [] value (node old cs) = refl
get_at-insert_at_self (c ∷ key) value (node old cs) =
    let found = find_child-update_child c (insert_at key value) cs in
    elim (Option-cases (find_child c cs)) [
      | inl e ↦ rw (found, get_at) (rw e (get_at-insert_at_self key value empty_node))
      | inr (t, e) ↦ rw (found, get_at) (rw e (get_at-insert_at_self key value t))
    ]

get_at-insert_at_ne :
    (key q : Bytes) (value : ℕ) (t : Trie) → q ≢ key → get_at q (insert_at key value t) ≡ get_at q t
unfolding get_at insert_at
get_at-insert_at_ne [] [] value (node old cs) h = absurd (h refl)
get_at-insert_at_ne [] (d ∷ q) value (node old cs) h = refl
get_at-insert_at_ne (c ∷ key) [] value (node old cs) h = refl
get_at-insert_at_ne (c ∷ key) (d ∷ q) value (node old cs) h = elim (Bool-cases (d == c)) [
  | inr n ↦
      let other : d ≢ c = ground (arith, n) in
      rw (find_child-update_child_ne c d (insert_at key value) cs other, get_at)
  | inl e ↦
      let same : d ≡ c = ground (arith, e) in
      let differ : q ≢ key = λ p. h (ap₂ (λ a b. a ∷ b) same p) in
      let found = find_child-update_child c (insert_at key value) cs in
      elim (Option-cases (find_child c cs)) [
        | inl m ↦ rw same (
            rw (found, get_at)
              (rw (m, get_at)
                (get_at-insert_at_ne key q value empty_node differ ∙ get_at-empty_node q)))
        | inr (t, m) ↦
            rw same (rw (found, get_at) (rw (m, get_at) (get_at-insert_at_ne key q value t differ)))
      ]
]

-- After the insertion of a key of at most 256 bytes, `fst_get` of the key answers the value, and of any
-- other key what it did.
pub fst_get-fst_insert :
    (fst : Fst) (key q : Bytes) (value : ℕ)
    → length key ≤ fst_max_key_len
    → fst_get (fst_insert fst key value).0 q
      ≡ (if is_eq (key_cmp q key) then some value else fst_get fst q)
unfolding fst_get fst_insert
fst_get-fst_insert fst key q value h = rw (le→ltb_false fst_max_key_len (length key) h) (
    ground (
      arith,
      get_at-insert_at_self key value fst.root,
      get_at-insert_at_ne key q value fst.root,
      (is_eq_iff q key).0,
      (is_eq_iff q key).1,
    ))
