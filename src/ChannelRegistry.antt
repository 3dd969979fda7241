-- ===== src/ChannelRegistry.antt =====
-- secnano/channels/registry.py, and `find_channel` of secnano/router.py. A channel is anything with a
-- name and a test whether it owns a jid.
use secnano.Prelude.{String, Bool, Option, none, some, List, [], ◌∷◌, if◌then◌else◌}
use secnano.Db.Table.{upsert_row}

module _ {C : Type 0} (name : C → String) where
  -- The registry is a dictionary: a channel of the same name takes the old one's place.
  unfoldable pub register_channel : C → List C → List C
  unfolding upsert_row
  register_channel channel registry = upsert_row name (λ old. channel) channel registry

unfoldable pub find_channel : {C : Type 0} → (owns_jid : C → Bool) → List C → Option C
find_channel owns_jid [] = none
find_channel owns_jid (channel ∷ channels) =
    if owns_jid channel then some channel else find_channel owns_jid channels
