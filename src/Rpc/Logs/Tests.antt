-- ===== src/Rpc/Logs/Tests.antt =====
-- Log queries on the sample node.
use kanari_evm.Prelude.{◌+◌, ◌-◌, ◌≡◌, ◌↔◌, true, none, some, List, [], ◌∷◌, Option, Bytes}
use kanari_evm.Rpc.Logs.{topics_match, logs_in_range}
use kanari_evm.Rpc.Logs.Topics.{AllSlots, topics_match_iff}
use kanari_evm.Rpc.Logs.Range.{ranged_logs, logs_in_range_ranged}
use kanari_evm.Samples.Machines.{sample}
use kanari_evm.Samples.Nodes.{first_node, first_node-IsValid}

abbrev wanted : List (Option (List Bytes))
wanted = none ∷ some ((1 ∷ []) ∷ (2 ∷ []) ∷ []) ∷ []

abbrev found : List Bytes
found = (9 ∷ []) ∷ (2 ∷ []) ∷ (7 ∷ []) ∷ []

topics_match_iff_example : (topics_match wanted found ≡ true) ↔ AllSlots 0 wanted found
topics_match_iff_example = topics_match_iff wanted found

logs_in_range_ranged_example :
    logs_in_range sample first_node 0 5 ≡ ranged_logs sample first_node 0 (5 + 1 - 0) []
logs_in_range_ranged_example = logs_in_range_ranged sample first_node 0 5 first_node-IsValid
