-- ===== src/Prelude/Counts.antt =====
-- A dict of counters: `if k not in d: d[k] = 0` and `d[k] += 1`.
use Prim.Native.Nat.{ℕ, ◌+◌}
use Prim.Native.String.{String}
use mathlib.Core.Path.{◌≡◌}
use mathlib.Core.Option.{Option, none, some}
use mathlib.Core.List.{List, [], ◌∷◌}
use native.Mathlib.Omega.{arith}
use text.Mathlib.Text.{◌==◌}
use text.Mathlib.TextEquality.{eq_iff}
use multi_ai_agent.Prelude.Tests.{if◌then◌else◌}
use multi_ai_agent.Prelude.Dict.{Dict, get, put, get-put}

abbrev pub or_zero : Option ℕ → ℕ
or_zero none = 0
or_zero (some n) = n

abbrev pub count_of : String → Dict ℕ → ℕ
count_of k counts = or_zero (get k counts)

abbrev pub increment : String → Dict ℕ → Dict ℕ
increment k counts = put k (count_of k counts + 1) counts

unfoldable pub increment_all : List String → Dict ℕ → Dict ℕ
increment_all [] counts = counts
increment_all (k ∷ ks) counts = increment_all ks (increment k counts)

-- how often a string is in the list
unfoldable pub occurrences : String → List String → ℕ
occurrences k [] = 0
occurrences k (j ∷ js) = let rest = occurrences k js in if j == k then rest + 1 else rest

pub count_of-increment :
    (k j : String) (counts : Dict ℕ)
    → count_of j (increment k counts)
      ≡ (if k == j then count_of j counts + 1 else count_of j counts)
count_of-increment k j counts =
    ground (arith, get-put k j (count_of k counts + 1) counts, eq_iff k j)

pub count_of-increment_all :
    (k : String) (ks : List String) (counts : Dict ℕ)
    → count_of k (increment_all ks counts) ≡ count_of k counts + occurrences k ks
unfolding increment_all occurrences
count_of-increment_all k [] counts = ground arith
count_of-increment_all k (j ∷ ks) counts =
    ground (arith, count_of-increment_all k ks (increment j counts), count_of-increment j k counts)
