-- ===== src/ChannelManager/Effect.antt =====
-- The calls of guac_core/src/channel_manager.rs keep to the specification.
use mathlib.Core.Option.{get_or}
use guac_rs.Prelude.{ltb, ℕ, ◌≡◌, none, some, String, inl, inr, arith, Option-cases}
use guac_rs.External.{Address, Num, Clarity, IsExact}
use guac_rs.Types.{Counterparty, new}
use guac_rs.Storage.{lookup, lookup-insert, insert}
use guac_rs.Node.{Guac, Node}
use guac_rs.ChannelManager.Fill.{fill_at}
use guac_rs.ChannelManager.{fill_channel, withdraw, make_payment}
use guac_rs.ChannelManager.Transition.{Filled, Withdrawn, Spent}
use guac_rs.ChannelManager.Cases.{fill_at-Filled, withdraw_at-Withdrawn, pay_at-Spent}

module _ (num : Num) (exact : IsExact num) (lib : Clarity) {W : Type 0} (self : Guac W) where
  -- Given exact arithmetic and a known counterparty, whatever it and the chain answer: a call of
  -- `withdraw` that succeeds turned an open channel, of which this end held `amount`, into the same
  -- channel with `amount` less for this end. A call that fails or panics left the entry as it was,
  -- or took the open channel to `re_drawing` of that channel with a transaction of its id, its
  -- balances and its next number, or took `new` to `creating` for the same end.
  pub withdraw-Withdrawn :
      (their : Address) (url : String) (amount : ℕ) (c : Counterparty) (n : Node W)
      → lookup their n.storage ≡ some c
      → let (r, n') = withdraw num lib self their url amount n in
        Withdrawn amount r c (lookup their n'.storage)
  unfolding withdraw
  withdraw-Withdrawn their url amount c n e =
      rw e (withdraw_at-Withdrawn num exact lib self their url amount c n e)

  -- Given exact arithmetic and a known counterparty, whatever it answers: a call of `make_payment`
  -- that succeeds found an open channel with at least `amount` for this end, and stored either that
  -- channel unchanged or the channel with `amount` moved to the other end and the next number. A
  -- call that fails or panics left the entry as it was.
  pub make_payment-Spent :
      (their : Address) (url : String) (amount : ℕ) (c : Counterparty) (n : Node W)
      → lookup their n.storage ≡ some c
      → let (r, n') = make_payment num lib self their url amount n in
        Spent amount r c (lookup their n'.storage)
  unfolding make_payment
  make_payment-Spent their url amount c n e =
      rw e (pay_at-Spent num exact lib self their url amount c n e)

  pub fill_channel-new :
      (their : Address) (url : String) (amount : ℕ) (n : Node W)
      → lookup their n.storage ≡ none
      → let b = ltb self.crypto.own_address their in
        fill_channel num lib self their url amount n
        ≡ fill_at num lib self their url amount
            (new b)
            (record n { storage = insert their (new b) n.storage })
  unfolding fill_channel
  fill_channel-new their url amount n unknown =
      ground (arith, lookup-insert their their (new (ltb self.crypto.own_address their)) n.storage)

  -- Given exact arithmetic, whatever the counterparty and the chain answer, and with an unknown
  -- counterparty counted as `new`: a call of `fill_channel` that succeeds turned a `new`
  -- counterparty into a channel with number 0 and no accrual that holds `amount` for this end and 0
  -- for the other, or an open channel into the same channel with `amount` more for this end. A call
  -- that fails or panics left the entry as it was, or took `new` to `creating` for the same end, or
  -- the open channel to `re_drawing` of that channel with a transaction of its id, its balances and
  -- its next number.
  pub fill_channel-Filled :
      (their : Address) (url : String) (amount : ℕ) (n : Node W)
      → let (r, n') = fill_channel num lib self their url amount n in
        let before = get_or (lookup their n.storage) (new (ltb self.crypto.own_address their)) in
        Filled amount r before (lookup their n'.storage)
  fill_channel-Filled their url amount n = elim (Option-cases (lookup their n.storage)) [
    | inl unknown ↦
        let b = ltb self.crypto.own_address their in
        let created = record n { storage = insert their (new b) n.storage } in
        let found : lookup their created.storage ≡ some (new b) =
          ground (arith, lookup-insert their their (new b) n.storage) in
        rw (fill_channel-new their url amount n unknown, unknown)
          (fill_at-Filled num exact lib self their url amount (new b) created found)
    | inr (c, e) ↦
        unfold fill_channel in rw e (fill_at-Filled num exact lib self their url amount c n e)
  ]
