-- ===== src/Channel/Sessions.antt =====
-- The exchanges of payments that the tests of guac_core/src/channel.rs make, with any amounts.
use guac_rs.Prelude.{ℕ, ◌+◌, ◌-◌, ◌^◌, ◌≤◌, ◌<◌, ◌≡◌, true, false, Option, none, some, arith}
use guac_rs.External.{Uint256, Bytes, Num, IsExact}
use guac_rs.Types.{Channel}
use guac_rs.Outcome.{ok, Action, or_panic, ◌>>=◌}
use guac_rs.Channel.{make_payment, receive_payment, check_accrual}
use guac_rs.Channel.Payment.{
  paid, received, update_of, make_payment_pays, receive_payment_takes, receive_payment_old,
}

-- A call of the first copy, and of the second.
abbrev on_a : {A : Type 0} → Action Channel A → Action (Channel × Channel) A
on_a m (a, b) = let (r, a') = m a in (r, (a', b))

abbrev on_b : {A : Type 0} → Action Channel A → Action (Channel × Channel) A
on_b m (a, b) = let (r, b') = m b in (r, (a, b'))

-- A copy of a channel that is just open.
abbrev opened_copy : Bytes → ℕ → ℕ → Channel
opened_copy id x y = record {
  channel_id = id;
  sequence_number = 0;
  balance_0 = x;
  balance_1 = y;
  accrual = 0;
  i_am_0 = true;
}

module _ (num : Num) where
  unfoldable unidirectional : Uint256 → Action (Channel × Channel) Uint256
  unidirectional amount = do
    update ← on_a (make_payment num amount none)
    result ← on_b (receive_payment num update)
    on_b check_accrual

  unfoldable bidirectional : Uint256 → Uint256 → Action (Channel × Channel) (Option Uint256)
  bidirectional there back = do
    update ← on_a (make_payment num there none)
    result ← on_b (receive_payment num update)
    update ← on_b (make_payment num back none)
    on_a (receive_payment num update)

  unfoldable packet_loss : Uint256 → Uint256 → Action (Channel × Channel) (Option Uint256)
  packet_loss amount lost = do
    a_to_b_1 ← on_a (make_payment num amount none)
    lost_1 ← on_b (make_payment num lost none)
    lost_2 ← on_b (make_payment num lost none)
    answer ← on_b (receive_payment num a_to_b_1)
    current_seq ← or_panic answer
    a_to_b_2 ← on_a (make_payment num 0 (some current_seq))
    on_b (receive_payment num a_to_b_2)

module _ (num : Num) (exact : IsExact num) (id : Bytes) (x y : ℕ)
    (fits : x + y + (x + y) < 2 ^ 256) where
  abbrev a : Channel
  a = opened_copy id x y

  abbrev b : Channel
  b = record a { i_am_0 = false }

  -- Given exact arithmetic, two fresh copies of a channel with x at the first end and y at the
  -- second, and twice the total below 2 ^ 256: the first end pays `amount`, at most x, and the second
  -- twice pays `lost`, at most y together, by updates that never arrive. The second then answers the
  -- first's update with its number 2, and takes the first's next update, of no further payment, with
  -- the number 3. Both copies then hold `amount` at the second end, as if the lost payments had not
  -- been made, but the second has accrued them too.
  packet_loss_settles :
      (amount lost : ℕ)
      → amount ≤ x
      → lost + lost ≤ y
      → let a' = record a { balance_0 = x - amount; balance_1 = y + amount; sequence_number = 3 } in
        packet_loss num amount lost (a, b)
        ≡ (ok none, (a', record a' { i_am_0 = false; accrual = amount + (lost + lost) }))
  unfolding packet_loss
  packet_loss_settles amount lost enough lost_enough =
      let a1 = paid true a amount 1 in
      let b1 = paid false b lost 1 in
      let b2 = paid false b1 lost 2 in
      let a2 = paid true a1 0 3 in
      ground (
        arith,
        make_payment_pays num exact a amount none enough (ground arith) (omega arith),
        make_payment_pays num exact b lost none (ground arith) (ground arith) (omega arith),
        make_payment_pays num exact b1 lost none (ground arith) (ground arith) (omega arith),
        receive_payment_old num b2 (update_of a1) (omega arith),
        make_payment_pays num exact a1 0 (some 2) (ground arith) (ground arith) (omega arith),
        receive_payment_takes num exact b2 (update_of a2) (omega arith) (ground arith)
            (ground arith) (ground arith) (ground arith),
      )

  -- Given exact arithmetic, two fresh copies of a channel with x at the first end and y at the
  -- second, and twice the total below 2 ^ 256: a payment of `amount`, which is at most x, from the
  -- first to the second is accepted, the second is then told of `amount`, and both copies hold it
  -- at the second end with the number 1 and no accrual.
  unidirectional_settles :
      (amount : ℕ)
      → amount ≤ x
      → let a' = record a { balance_0 = x - amount; balance_1 = y + amount; sequence_number = 1 } in
        unidirectional num amount (a, b) ≡ (ok amount, (a', record a' { i_am_0 = false }))
  unfolding unidirectional check_accrual
  unidirectional_settles amount enough =
      let a1 = paid true a amount 1 in
      ground (
        arith,
        make_payment_pays num exact a amount none enough (ground arith) (omega arith),
        receive_payment_takes num exact b (update_of a1) (omega arith) (ground arith) (ground arith)
            (ground arith) (ground arith),
      )

  -- Given exact arithmetic, two such copies: a payment of `there`, at most x, from the first to the
  -- second, and then one of `back`, at most what the second has by then, to the first are accepted;
  -- both copies hold the outcome with the number 2, and each has accrued what it got.
  bidirectional_settles :
      (there back : ℕ)
      → there ≤ x
      → back ≤ y + there
      → let a' = record a {
        balance_0 = x - there + back;
        balance_1 = y + there - back;
        sequence_number = 2;
        accrual = back;
      } in
        bidirectional num there back (a, b)
        ≡ (ok none, (a', record a' { i_am_0 = false; accrual = there }))
  unfolding bidirectional
  bidirectional_settles there back enough back_enough =
      let a1 = paid true a there 1 in
      let b1 = received b (update_of a1) in
      let b2 = paid false b1 back 2 in
      ground (
        arith,
        make_payment_pays num exact a there none enough (ground arith) (omega arith),
        receive_payment_takes num exact b (update_of a1) (omega arith) (ground arith) (ground arith)
            (ground arith) (ground arith),
        make_payment_pays num exact b1 back none (ground arith) (ground arith) (omega arith),
        receive_payment_takes num exact a1 (update_of b2) (omega arith) (ground arith)
            (ground arith) (ground arith) (ground arith),
      )
