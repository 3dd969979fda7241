-- ===== src/ChannelInterface.antt =====
-- The abstract class `Channel` of secnano/types.py, as the interface that the host uses.
use secnano.Prelude.{String, ◌≡◌, ◌∙◌, Bool, true, false, some, List, [], ◌∷◌, Bool-cases, inl, inr}
use secnano.Effect.{Result, ok}
use secnano.ChannelRegistry.{find_channel}

-- `C` is what the channel object holds.
pub record Channel (C : Type 0) : Type 0 where
  pub name : String
  pub connect : C → Result (Unit {0}) × C
  pub send_message : (jid text : String) → C → Result (Unit {0}) × C
  pub is_connected : C → Bool
  pub owns_jid : (jid : String) → C → Bool
  pub disconnect : C → Result (Unit {0}) × C
  pub set_typing : (jid : String) → (is_typing : Bool) → C → C
  pub sync_groups : (force : Bool) → C → C

-- The bodies of the two methods that are not abstract.
abbrev pub default_set_typing : {C : Type 0} → (jid : String) → (is_typing : Bool) → C → C
default_set_typing jid is_typing c = c

abbrev pub default_sync_groups : {C : Type 0} → (force : Bool) → C → C
default_sync_groups force c = c

-- What the class says of its methods: a channel sends to the jids that it owns, and goes on owning
-- them; and `is_connected` tells whether it was connected or disconnected last.
pub record IsChannel {C : Type 0} (channel : Channel C) : Type 0 where
  pub sends :
      (jid text : String) (c : C)
      → channel.owns_jid jid c ≡ true
      → (channel.send_message jid text c).0 ≡ ok tt
  pub owns :
      (other jid text : String) (c : C)
      → channel.owns_jid other (channel.send_message jid text c).1 ≡ channel.owns_jid other c
  pub connected :
      (c : C) → (channel.connect c).0 ≡ ok tt → channel.is_connected (channel.connect c).1 ≡ true
  pub disconnected : (c : C) → channel.is_connected (channel.disconnect c).1 ≡ false

module _ {C : Type 0} (channel : Channel C) (laws : IsChannel channel) where
  found-owns :
      (jid : String) (channels : List C) (c : C)
      → find_channel (channel.owns_jid jid) channels ≡ some c
      → channel.owns_jid jid c ≡ true
  unfolding find_channel
  found-owns jid [] c found = cc
  found-owns jid (first ∷ channels) c found = elim (Bool-cases (channel.owns_jid jid first)) [
    | inl e ↦ let same : some first ≡ some c = rw e at found in cc
    | inr e ↦ found-owns jid channels c (rw e at found)
  ]

  -- Whatever a run sends over the channel that was found for a jid is sent, also the second time.
  pub found_sends :
      (jid first second : String) (channels : List C) (c : C)
      → find_channel (channel.owns_jid jid) channels ≡ some c
      → ((channel.send_message jid first c).0 ≡ ok tt)
        × ((channel.send_message jid second (channel.send_message jid first c).1).0 ≡ ok tt)
  found_sends jid first second channels c found =
      let owned = found-owns jid channels c found in
      (
        laws.sends jid first c owned,
        laws.sends jid second (channel.send_message jid first c).1
            (laws.owns jid jid first c ∙ owned),
      )
