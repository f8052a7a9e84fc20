-- ===== src/Examples/TlbSize.antt =====
-- The search of lmbench3/src/tlb.c at concrete inputs.
use repo_support_tools.Base.{ℕ, ◌≡◌, ◌⊎◌, List, [], ◌∷◌, refl, arith, ltb, if◌then◌else◌}
use repo_support_tools.Timing.Results.{
  Results, Value, save_median, insertsort, insertinit, shift, scan,
}
use repo_support_tools.TlbSize.{find_tlb}
use repo_support_tools.TlbSize.Located.{IsFlat, IsEdge, find_tlb-IsEdge}
use repo_support_tools.Examples.Fractions.{fractions}

abbrev room : Results
room = record { count = 0; v = record { u = 0; n = 0 } ∷ record { u = 0; n = 0 } ∷ [] }

-- Above 20 pages an access takes three times as long.
abbrev runs : ℕ → ℕ → List Value × List Value
runs calls pages =
    (record { u = if ltb 20 pages then 30 else 10; n = 1 } ∷ [], record { u = 10; n = 1 } ∷ [])

find_tlb-IsEdge_example :
    ((find_tlb fractions room runs 8 64 ≡ 0) × IsFlat fractions room runs 8 64)
    ⊎ IsEdge fractions room runs 8 (find_tlb fractions room runs 8 64)
find_tlb-IsEdge_example = find_tlb-IsEdge fractions room runs 8 64 (omega arith)

tlb_found : find_tlb fractions room runs 8 64 ≡ 20
unfolding find_tlb save_median insertsort insertinit shift scan
tlb_found = refl
