-- ===== src/Monitoring/Ids.antt =====
-- `uniqueIDs` of internal/monitoring/runtime.go.
pub mod Unique
use wacht.Shared.{String, Bool, false, ◌||◌, List, [], ◌∷◌, ◌==◌, if◌then◌else◌}

-- _, ok := seen[id]
unfoldable pub contains : String → List String → Bool
contains id [] = false
contains id (j ∷ seen) = j == id || contains id seen

-- The loop: an empty or seen ID is skipped.
unfoldable pub unique_from : List String → List String → List String
unfolding contains
unique_from seen [] = []
unique_from seen (id ∷ ids) =
    let skip = id == "" || contains id seen in
    let rest = unique_from (if skip then seen else id ∷ seen) ids in
    if skip then rest else id ∷ rest

unfoldable pub unique_ids : List String → List String
unfolding unique_from
unique_ids ids = unique_from [] ids
