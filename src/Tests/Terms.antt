-- ===== src/Tests/Terms.antt =====
-- The theorem on the term dictionary, src/util/fst.c, at work on a small one.
use kanbudb.Prelude.{◌≡◌, some, [], ◌∷◌, arith, if◌then◌else◌}
use kanbudb.Key.{key_cmp, is_eq}
use kanbudb.Fst.{Fst, fst_create, fst_insert, fst_get}
use kanbudb.Fst.Lookup.{fst_get-fst_insert}

abbrev terms : Fst
terms = (fst_insert fst_create (97 ∷ 98 ∷ []) 5).0

fst_get-fst_insert_example :
    fst_get (fst_insert terms (97 ∷ []) 6).0 (97 ∷ 98 ∷ [])
    ≡ (if is_eq (key_cmp (97 ∷ 98 ∷ []) (97 ∷ [])) then some 6 else fst_get terms (97 ∷ 98 ∷ []))
fst_get-fst_insert_example = fst_get-fst_insert terms (97 ∷ []) (97 ∷ 98 ∷ []) 6 (ground arith)
