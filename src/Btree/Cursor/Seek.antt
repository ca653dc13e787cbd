-- ===== src/Btree/Cursor/Seek.antt =====
-- Where `btree_cursor_seek` of src/storage/btree.c puts the cursor.
use Prim.Native.Nat.{Ordering}
use mathlib.Core.Option
use kanbudb.Prelude.{
  ℕ, zero, suc, ◌+◌, ◌-◌, ◌/◌, ◌≤◌, ◌<◌, ◌≡◌, refl, inl, inr, true, false, Option, some, List, [],
  ◌∷◌, arith, ltb, Bool-cases, ltb→lt, ltb-false, length, take, drop, All, Bytes,
}
use kanbudb.Key.{key_cmp, below}
use kanbudb.Key.Order.{key_cmp_eq, below_refl, below_trans, below_gt}
use kanbudb.Btree.{Item}
use kanbudb.Btree.Laws.{IsAscending}
use kanbudb.Btree.Cursor.{item_key, seek_loop, btree_cursor_seek}

-- Where every position below `p` and every one from `p` on stands to the key.
abbrev Left : Bytes → List Item → ℕ → Type 0
Left key items p = (j : ℕ) → j < p → below (item_key items j) key ≡ true

abbrev Right : Bytes → List Item → ℕ → Type 0
Right key items p = (j : ℕ) → p ≤ j → j < length items → below (item_key items j) key ≡ false

item_key-All :
    (P : Bytes → Type 0) (items : List Item) (j : ℕ)
    → All (λ (y : Item). P y.key) items
    → j < length items
    → P (item_key items j)
item_key-All P [] j a h = elim h [ ]
item_key-All P (x ∷ xs) zero a h = a.0
item_key-All P (x ∷ xs) (suc j) a h = item_key-All P xs j a.1 (omega arith)

item_key-IsAscending :
    (items : List Item) (i j : ℕ)
    → IsAscending items
    → i < j
    → j < length items
    → below (item_key items i) (item_key items j) ≡ true
item_key-IsAscending [] i j o h l = elim l [ ]
item_key-IsAscending (x ∷ xs) i zero o h l = absurd (omega arith)
item_key-IsAscending (x ∷ xs) zero (suc j) o h l =
    item_key-All (λ k. below x.key k ≡ true) xs j o.0 (omega arith)
item_key-IsAscending (x ∷ xs) (suc i) (suc j) o h l =
    item_key-IsAscending xs i j o.1 (omega arith) (omega arith)

Left-take :
    (key : Bytes) (items : List Item) (p : ℕ)
    → p ≤ length items
    → Left key items p
    → All (λ (y : Item). below y.key key ≡ true) (take p items)
Left-take key items zero h f = tt
Left-take key [] (suc p) h f = tt
Left-take key (x ∷ xs) (suc p) h f =
    (f 0 (omega arith), Left-take key xs p (omega arith) (λ j l. f (suc j) (omega arith)))

Right-drop :
    (key : Bytes) (items : List Item) (p : ℕ)
    → Right key items p
    → All (λ (y : Item). below y.key key ≡ false) (drop p items)
Right-drop key [] zero f = tt
Right-drop key [] (suc p) f = tt
Right-drop key (x ∷ xs) zero f = (
  f 0 (omega arith) (omega arith),
  Right-drop key xs 0 (λ j g l. f (suc j) (omega arith) (omega arith)),
)
Right-drop key (x ∷ xs) (suc p) f =
    Right-drop key xs p (λ j g l. f (suc j) (omega arith) (omega arith))

below-Left :
    (key : Bytes) (items : List Item) (mid : ℕ)
    → IsAscending items
    → mid < length items
    → key_cmp key (item_key items mid) ≡ Ordering.gt
    → Left key items (mid + 1)
unfolding below
below-Left key items mid o h g j l = ground (
  arith,
  item_key-IsAscending items j mid o,
  below_trans (item_key items j) (item_key items mid) key,
  below_gt key (item_key items mid),
)

above-Right :
    (key : Bytes) (items : List Item) (mid : ℕ)
    → IsAscending items
    → mid < length items
    → below key (item_key items mid) ≡ true
    → Right key items mid
above-Right key items mid o h g j l m = ground (
  arith,
  item_key-IsAscending items mid j o,
  below_trans key (item_key items mid) (item_key items j),
  below_trans key (item_key items j) key,
  below_refl key,
)

-- What the search answers.
abbrev Found : Bytes → List Item → Option ℕ → Type 0
Found key items r =
    (p : ℕ) × (r ≡ some p) × (p ≤ length items) × Left key items p × Right key items p

-- One round: what the two ways to go on answer, and the comparison that picks one.
seek_round :
    (mid : ℕ) (key : Bytes) (items : List Item) (left right : Option ℕ) (c : Ordering)
    → IsAscending items
    → mid < length items
    → key_cmp key (item_key items mid) ≡ c
    → (Right key items mid → Found key items left)
    → (Left key items (mid + 1) → Found key items right)
    → Found key items (elim c [ Ordering.eq ↦ some mid | Ordering.lt ↦ left | Ordering.gt ↦ right ])
seek_round mid key items left right Ordering.lt o h q f g =
    f (above-Right key items mid o h (unfold below in rw q))
seek_round mid key items left right Ordering.gt o h q f g = g (below-Left key items mid o h q)
seek_round mid key items left right Ordering.eq o h q f g =
    let same : key ≡ item_key items mid = key_cmp_eq key (item_key items mid) q in
    (
      mid,
      refl,
      omega arith,
      λ j l. rw same (item_key-IsAscending items j mid o l h),
      λ j l m. ground (
        arith,
        same,
        item_key-IsAscending items mid j o,
        below_trans key (item_key items j) key,
        below_refl key,
      ),
    )

seek_loop-Found :
    (fuel lo top : ℕ) (key : Bytes) (items : List Item)
    → IsAscending items
    → lo ≤ top
    → top < lo + fuel
    → top ≤ length items
    → Left key items lo
    → Right key items top
    → Found key items (seek_loop fuel lo top key items)
unfolding seek_loop
seek_loop-Found zero lo top key items o h f t l r = absurd (omega arith)
seek_loop-Found (suc fuel) lo top key items o h f t l r = elim (Bool-cases (ltb lo top)) [
  | inr e ↦
      let past : top ≤ lo = ltb-false lo top e in
      rw e (lo, refl, omega (arith, h, t), l, λ j g m. r j (omega (arith, past, g)) m)
  | inl e ↦
      let inside : lo < top = ltb→lt lo top e in
      let mid = (lo + (top - 1)) / 2 in
      rw e (
        seek_round mid key items (seek_loop fuel lo mid key items)
          (seek_loop fuel (mid + 1) top key items) (key_cmp key (item_key items mid)) o
          (omega (arith, inside, t)) refl
          (λ a.
            seek_loop-Found fuel lo mid key items o (omega (arith, inside))
              (omega (arith, inside, f)) (omega (arith, inside, t)) l a)
          (λ a.
            seek_loop-Found fuel (mid + 1) top key items o (omega (arith, inside))
              (omega (arith, inside, f)) t a r))
]

-- On ascending items a seek ends: all items before the new position are below the key, and none from
-- it on is.
pub btree_cursor_seek_ends :
    (items : List Item) (pos : ℕ) (key : Bytes)
    → IsAscending items
    → (p : ℕ) × (btree_cursor_seek (record { items = items; pos = pos }) (some key)
        ≡ some (record { items = items; pos = p }))
      × All (λ (y : Item). below y.key key ≡ true) (take p items)
      × All (λ (y : Item). below y.key key ≡ false) (drop p items)
unfolding btree_cursor_seek
btree_cursor_seek_ends items pos key o =
    let (p, found, in_range, l, r) =
      seek_loop-Found (suc (length items)) 0 (length items) key items o (omega arith) (omega arith)
        (omega arith) (λ j h. absurd (omega arith)) (λ j g m. absurd (omega arith)) in
    (p, rw (found, Option.map), Left-take key items p in_range l, Right-drop key items p r)
