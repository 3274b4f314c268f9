-- ===== src/InitGraph/Tests.antt =====
-- Runs of the sort of kernel/init/init_graph.hpp and of its order, and the theorems at one graph.
use doom_os.Base.{
  ℕ, zero, suc, ◌<◌, ◌≡◌, refl, true, false, List, [], ◌∷◌, Option, none, some, ◌+◌, arith,
  if◌then◌else◌, ◌==◌,
}
use doom_os.InitGraph.{
  list_contains, list_append_unique, list_concat_unique, list_filter_out, list_filter_out_accum,
  sorted, cyclic, topo_list, topo_component, sorted_components, runnable_components, begin, ok,
  fail, run_logged, run_component_logged,
}
use doom_os.InitGraph.Sort.{IsSorted, sorted_components_lem}
use doom_os.InitGraph.Run.{IsRunOf, run_graph_after-IsRun}

-- 3 needs 1 and 2, both need 0.
abbrev diamond : ℕ → List ℕ
diamond zero = []
diamond (suc zero) = 0 ∷ []
diamond (suc (suc zero)) = 0 ∷ []
diamond (suc (suc (suc zero))) = 1 ∷ 2 ∷ []
diamond (suc (suc (suc (suc c)))) = []

diamond_known : (c d : ℕ) → list_contains d (diamond c) ≡ true → d < 4
unfolding list_contains
diamond_known zero d h = absurd (ground arith)
diamond_known (suc zero) d h = ground arith
diamond_known (suc (suc zero)) d h = ground arith
diamond_known (suc (suc (suc zero))) d h = ground arith
diamond_known (suc (suc (suc (suc c)))) d h = absurd (ground arith)

diamond_roots : (c : ℕ) → list_contains c (3 ∷ []) ≡ true → c < 4
unfolding list_contains
diamond_roots c h = ground arith

diamond_satisfied : (c : ℕ) → list_contains c (1 ∷ []) ≡ true → c < 4
unfolding list_contains
diamond_satisfied c h = ground arith

-- The components count how many of them ran; 2 fails after two others.
abbrev count_runs : ℕ → ℕ → Option ℕ × ℕ
count_runs c n = (if c == 2 then some n else none, n + 1)

sorts : sorted_components diamond 4 (3 ∷ []) ≡ sorted (0 ∷ 1 ∷ 2 ∷ 3 ∷ [])
unfolding sorted_components topo_list topo_component list_contains list_append_unique
    list_concat_unique
sorts = refl

refuses_cycle : sorted_components (λ c. (1 ∷ [])) 2 (0 ∷ []) ≡ cyclic
unfolding sorted_components topo_list topo_component list_contains
refuses_cycle = refl

leaves_out : runnable_components diamond 4 (3 ∷ []) (1 ∷ []) ≡ sorted (2 ∷ 3 ∷ [])
unfolding runnable_components sorted_components topo_list topo_component list_contains
    list_append_unique list_concat_unique list_filter_out list_filter_out_accum
leaves_out = refl

stops :
    run_logged count_runs (0 ∷ 2 ∷ 3 ∷ []) 5 ≡ (false, 7, begin 0 ∷ ok 0 ∷ begin 2 ∷ fail 2 6 ∷ [])
unfolding run_logged run_component_logged
stops = refl

sorted_components_example : IsSorted diamond (3 ∷ []) (sorted_components diamond 4 (3 ∷ []))
sorted_components_example = sorted_components_lem diamond 4 diamond_known (3 ∷ []) diamond_roots

run_graph_after_example :
    (before : List ℕ) × (sorted_components diamond 4 (1 ∷ []) ≡ sorted before)
    × IsRunOf diamond count_runs before (2 ∷ 3 ∷ []) 0
run_graph_after_example =
    run_graph_after-IsRun diamond count_runs 4 diamond_known (3 ∷ []) (1 ∷ []) (2 ∷ 3 ∷ []) 0
      diamond_roots diamond_satisfied leaves_out
