-- ===== src/Graph/Tests.antt =====
-- graph.rs: a history with a branch and its merge.
use git_client.Prelude.{◌≡◌, refl, List, [], ◌∷◌, Text, codes, map, All, String}
use git_client.Graph.{
  Commit, position, first_free, free_lanes, ensure_len, set_lane, uses_color, color_from,
  pick_color, node_column, node_color, columns_awaiting, clear_columns, spawn, spawns, top_from,
  spawned, through, was_active, layout_row, layout_into, layout,
}
use git_client.Graph.Rows.Continuity.{Joined, layout_into-Joined}
use git_client.Graph.Rows.Straight.{IsStraight, layout-IsStraight}

abbrev new_commit : String → List Text → Commit
new_commit id parents = record { id = codes id; parents = parents }

abbrev merge : Commit
merge = new_commit "m" (codes "a" ∷ codes "b" ∷ [])

abbrev left : Commit
left = new_commit "a" (codes "r" ∷ [])

abbrev right : Commit
right = new_commit "b" (codes "r" ∷ [])

abbrev root : Commit
root = new_commit "r" []

abbrev diamond : List Commit
diamond = merge ∷ left ∷ right ∷ root ∷ []

diamond_columns : map (λ r. r.column) (layout diamond) ≡ 0 ∷ 0 ∷ 1 ∷ 0 ∷ []
unfolding layout layout_into layout_row node_column node_color position first_free ensure_len
    free_lanes set_lane pick_color color_from uses_color columns_awaiting clear_columns spawns spawn
    top_from spawned through was_active
diamond_columns = refl

layout_into-Joined_example : Joined (layout_into diamond []).1
layout_into-Joined_example = layout_into-Joined diamond []

layout-IsStraight_example : All (λ r. All IsStraight r.top) (layout diamond)
layout-IsStraight_example = layout-IsStraight diamond
