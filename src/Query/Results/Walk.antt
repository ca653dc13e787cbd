-- ===== src/Query/Results/Walk.antt =====
-- The loop of a caller over `rs_next` and `rs_get_column`, src/query/query_builder.c.
use kanbudb.Prelude.{ℕ, zero, suc, ltb, if◌then◌else◌}
use kanbudb.Status.{Status}
use kanbudb.Query.Results.{ResultSet, rs_next}

-- The set after so many calls of `rs_next`.
abbrev pub nexts : ℕ → ResultSet → ResultSet
nexts zero rs = rs
nexts (suc n) rs = (rs_next (nexts n rs)).0

-- Where the set stands after so many calls.
abbrev pub place : ResultSet → ℕ → ℕ
place rs n = if ltb rs.num_rows n then suc rs.num_rows else n
