-- ===== src/Tests/Operator.antt =====
-- What the operator sees of a host with a waiting task.
use secnano.Prelude.{String, Bool, true, Option, some, List, [], ◌∷◌}
use secnano.OpsView.{Item, no_members, member, bool_value, int_value}

abbrev one_channel : List Item
one_channel = member "connected" (bool_value true) no_members ∷ []

abbrev one_queue : List Item
one_queue = member "queue_size" (int_value 1) no_members ∷ []

abbrev always_reached : String → Option Bool
always_reached time = some true
