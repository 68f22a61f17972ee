-- ===== src/Tests/Logs.antt =====
-- internal/logger on concrete entries.
use nx_iio_t_gateway_max_gat.Shared.{ℕ, ◌≡◌, List, [], ◌∷◌}
use nx_iio_t_gateway_max_gat.Logs.{add_all, snapshot, new_ring, snapshot-add_all}

abbrev three_entries : List ℕ
three_entries = 5 ∷ 6 ∷ 7 ∷ []

abbrev two_entries : List ℕ
two_entries = 6 ∷ 7 ∷ []

snapshot-add_all_example : snapshot (add_all three_entries (new_ring 2)) ≡ two_entries
snapshot-add_all_example = snapshot-add_all 2 three_entries
