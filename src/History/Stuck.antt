-- ===== src/History/Stuck.antt =====
-- Entries that wait for a transaction of this node, over a whole history
-- (guac_core/src/channel_manager.rs and counterparty_api.rs).
use native.Mathlib.Decide.{ℕ_discrete}
use guac_rs.Prelude.{ℕ, ◌==◌, ◌≡◌, ◌≢◌, ◌∙◌, refl, if◌then◌else◌, some, List, [], ◌∷◌, arith}
use guac_rs.External.{Address, Num, Clarity}
use guac_rs.Types.{Counterparty}
use guac_rs.Storage.{lookup}
use guac_rs.Node.{Guac, Node}
use guac_rs.ChannelManager.Others.{calls-others}
use guac_rs.HttpServer.{sender}
use guac_rs.HttpServer.Safety.{serve-others}
use guac_rs.History.{Event, served, fills, withdraws, pays, checks, after, after_all, over}
use guac_rs.History.Calls.{check_accrual-others, same_test, other_test}
use guac_rs.History.Waiting.{
  Stays, IsWaiting, succeeds, fill_channel-Refused, withdraw-Refused, make_payment-Refused,
  serve-refused, Refused-counts, Stays-trans, Stays-IsWaiting, check_accrual-Stays,
}

-- From one node to a later one: `k`'s entry still waits, and `count` is 0.
abbrev pub Left : {W : Type 0} → Address → Counterparty → Node W → ℕ → Type 0
Left k c n' count = (d : Counterparty) × (lookup k n'.storage ≡ some d) × Stays c d × (count ≡ 0)

module _ {W : Type 0} (k : Address) (c : Counterparty) (n n' : Node W) (w : IsWaiting c)
    (found : lookup k n.storage ≡ some c) where
  untouched : (count : ℕ) → (count ≡ 0) × (n' ≡ n) → Left k c n' (if k == k then count else 0)
  untouched count (none_of, same) = (c, rw same found, w, same_test k count ∙ none_of)

  elsewhere :
      (j count : ℕ)
      → k ≢ j
      → lookup k n'.storage ≡ lookup k n.storage
      → Left k c n' (if j == k then count else 0)
  elsewhere j count ne kept = (c, kept ∙ found, w, other_test j k count ne)

module _ (num : Num) (lib : Clarity) {W : Type 0} (self : Guac W) (k : Address) where
  event-Stays :
      (event : Event) (n : Node W) (c : Counterparty)
      → IsWaiting c
      → lookup k n.storage ≡ some c
      → Left k c (after num lib self event n) (succeeds num lib self k event n)
  unfolding after succeeds
  event-Stays (served request) n c w e = elim (ℕ_discrete k (sender request)) [
    | yes same ↦ rw same (
        untouched (sender request) c n _ w (rw same at e) _
          (serve-refused num lib self request n c w (rw same at e)))
    | no ne ↦
        elsewhere k c n (after num lib self (served request) n) w e (sender request) _ ne
          (serve-others num lib self request n k ne)
  ]
  event-Stays (fills their url amount) n c w e = elim (ℕ_discrete k their) [
    | yes same ↦ rw same (
        untouched their c n _ w (rw same at e) _ (
          Refused-counts num lib self n _
            (fill_channel-Refused num lib self their url n c amount w (rw same at e))))
    | no ne ↦
        elsewhere k c n (after num lib self (fills their url amount) n) w e their _ ne
          (calls-others num lib self their k url amount n ne).0
  ]
  event-Stays (withdraws their url amount) n c w e = elim (ℕ_discrete k their) [
    | yes same ↦ rw same (
        untouched their c n _ w (rw same at e) _ (
          Refused-counts num lib self n _
            (withdraw-Refused num lib self their url n c amount w (rw same at e))))
    | no ne ↦
        elsewhere k c n (after num lib self (withdraws their url amount) n) w e their _ ne
          (calls-others num lib self their k url amount n ne).1
  ]
  event-Stays (pays their url amount) n c w e = elim (ℕ_discrete k their) [
    | yes same ↦ rw same (
        untouched their c n _ w (rw same at e) _ (
          Refused-counts num lib self n _
            (make_payment-Refused num lib self their url n c amount w (rw same at e))))
    | no ne ↦
        elsewhere k c n (after num lib self (pays their url amount) n) w e their _ ne
          (calls-others num lib self their k url amount n ne).2
  ]
  event-Stays (checks their) n c w e = elim (ℕ_discrete k their) [
    | yes same ↦ rw same (
        let (d, at_d, stays) = check_accrual-Stays their c n w (rw same at e) in
        (d, at_d, stays, refl))
    | no ne ↦ (c, check_accrual-others their k n ne ∙ e, w, refl)
  ]

  -- If the entry of `k` waits for a transaction of this node (`creating` or `re_drawing`), then
  -- after any sequence of requests that the node serves and of calls that its user makes, of any
  -- addresses and whatever is answered, it still waits, in the same state with the same transaction
  -- and the same channel but for the accrual; and in between no request of `k` was answered with
  -- success, and no call of the user to fill, withdraw or pay with `k` succeeded.
  pub history_stays_stuck :
      (events : List Event) (n : Node W) (c : Counterparty)
      → IsWaiting c
      → lookup k n.storage ≡ some c
      → Left k c
          (after_all num lib self events n)
          (over num lib self (succeeds num lib self k) events n)
  unfolding after_all over
  history_stays_stuck [] n c w e = (c, e, w, refl)
  history_stays_stuck (event ∷ rest) n c w e =
      let (d, at_d, stays, none_now) = event-Stays event n c w e in
      let wd = Stays-IsWaiting c d stays in
      let n' = after num lib self event n in
      let (d', at_d', stays', none_later) = history_stays_stuck rest n' d wd at_d in
      (d', at_d', Stays-trans c d d' stays stays', omega (arith, none_now, none_later))
