-- ===== src/Race/Calls.antt =====
-- A call of the user and a request of the counterparty at once (`Guac::fill_channel` of
-- guac_core/src/channel_manager.rs and `Guac::propose_channel` of counterparty_api.rs).
use guac_rs.Prelude.{◌≡◌, ap, refl, Bool, true, false, Option, none, some, String, arith}
use guac_rs.External.{Address, Uint256, Num, Clarity, Signature}
use guac_rs.Types.{
  Channel, Counterparty, new, creating, other_creating, re_drawing, other_re_drawing, open_channel,
  NewChannelTx, ReDrawTx,
}
use guac_rs.Storage.{lookup, lookup-insert}
use guac_rs.Node.{Guac, Node}
use guac_rs.Task.{Order}
use guac_rs.ChannelManager.Fill.{fill_signed, fill_at}
use guac_rs.ChannelManager.{fill_channel}
use guac_rs.CounterpartyApi.{propose_channel_at, propose_channel, check_new_channel}
use guac_rs.Race.{race, steps}
use guac_rs.Race.Serial.{KeepsEntry, Serial}
use guac_rs.Race.Orders.{race-Serial}

abbrev has_entry : Option Counterparty → Bool
has_entry none = false
has_entry (some c) = true

entry_of : (o : Option Counterparty) → has_entry o ≡ true → (d : Counterparty) × (o ≡ some d)
entry_of (some d) h = (d, refl)
entry_of none h = ground arith

module _ (num : Num) (lib : Clarity) {W : Type 0} (self : Guac W) (their : Address) where
  module _ (url : String) (amount : Uint256) where
    fill_signed_keeps :
        (c : Channel) (tx : ReDrawTx) (sig : Signature) (n : Node W)
        → has_entry (lookup their n.storage) ≡ true
        → has_entry (lookup their (fill_signed lib self their url amount c tx sig n).1.storage)
          ≡ true
    unfolding fill_signed
    fill_signed_keeps c tx sig n h = grind (arith, lookup-insert)

    fill_at_keeps :
        (c : Counterparty) (n : Node W)
        → has_entry (lookup their n.storage) ≡ true
        → has_entry (lookup their (fill_at num lib self their url amount c n).1.storage) ≡ true
    fill_at_keeps (new i) n h = grind (arith, lookup-insert)
    fill_at_keeps (open_channel c) n h = grind (arith, fill_signed_keeps)
    fill_at_keeps (creating tx i) n h = h
    fill_at_keeps (other_creating tx i) n h = h
    fill_at_keeps (re_drawing tx c) n h = h
    fill_at_keeps (other_re_drawing tx c) n h = h

    fill_at-KeepsEntry : KeepsEntry their (fill_at num lib self their url amount)
    fill_at-KeepsEntry c n e = entry_of _ (fill_at_keeps c n (ap has_entry e))

  propose_channel_at_keeps :
      (tx : NewChannelTx) (c : Counterparty) (n : Node W)
      → has_entry (lookup their n.storage) ≡ true
      → has_entry (lookup their (propose_channel_at num lib self their tx c n).1.storage) ≡ true
  unfolding check_new_channel
  propose_channel_at_keeps tx (new i) n h =
      ground (arith, lookup-insert their their (other_creating tx i) n.storage)
  propose_channel_at_keeps tx c n h = h

  propose_channel_at-KeepsEntry :
      (tx : NewChannelTx) → KeepsEntry their (propose_channel_at num lib self their tx)
  propose_channel_at-KeepsEntry tx c n e =
      entry_of _ (propose_channel_at_keeps tx c n (ap has_entry e))

module _ (num : Num) (lib : Clarity) {W : Type 0} (self : Guac W) (their : Address) where
  -- Let `fill_channel` with a counterparty and a request `propose_channel` of that counterparty run
  -- at once on one node, each holding the counterparty's entry from the step that finds it to its
  -- end. Whatever the order of their steps, their two results and the node at the end are those of
  -- one call after the other, as single actions, in one of the two orders, or those of one call
  -- alone, while the other fails with the error that the counterparty already exists.
  pub fill_and_propose-Serial :
      (url : String) (amount : Uint256) (tx : NewChannelTx) (order : Order) (n : Node W)
      → let my = self.crypto.own_address in
        Serial
          (fill_channel num lib self their url amount)
          (propose_channel num lib self their "" tx)
          n
          (race order
            (steps their my (fill_at num lib self their url amount))
            (steps their my (propose_channel_at num lib self their tx))
            n)
  unfolding fill_channel propose_channel
  fill_and_propose-Serial url amount tx order n =
      race-Serial their self.crypto.own_address (fill_at num lib self their url amount)
        (propose_channel_at num lib self their tx)
        (fill_at-KeepsEntry num lib self their url amount)
        (propose_channel_at-KeepsEntry num lib self their tx) order n
