-- ===== src/History/Waiting.antt =====
-- An entry that waits for this node's own transaction (`Creating` and `ReDrawing` of
-- guac_core/src/types.rs) when the call that should go on with it has failed.
use guac_rs.Prelude.{ℕ, ◌==◌, ◌≡◌, refl, if◌then◌else◌, Option, some, String, arith}
use guac_rs.External.{Address, Num, Clarity}
use guac_rs.Types.{Counterparty, creating, re_drawing}
use guac_rs.Channel
use guac_rs.Outcome.{Outcome, ok, err, panic}
use guac_rs.Storage.{lookup, lookup-insert}
use guac_rs.Node.{Guac, Node}
use guac_rs.ChannelManager.{fill_channel, withdraw, make_payment, check_accrual}
use guac_rs.CounterpartyApi.{
  as_api, propose_channel, propose_re_draw, notify_channel_opened, notify_re_draw, receive_payment,
}
use guac_rs.HttpServer
use guac_rs.HttpServer.{HttpResponse, ok_json, sender, serve}
use guac_rs.History.{Event, served, fills, withdraws, pays, checks, done}

-- From a waiting entry to the same one, but for its accrual.
abbrev pub Stays : Counterparty → Counterparty → Type 0
Stays (creating tx i) d = d ≡ creating tx i
Stays (re_drawing tx c) (re_drawing tx' d) = (tx' ≡ tx) × (d ≡ record c { accrual = d.accrual })
Stays _ _ = ⊥

abbrev pub IsWaiting : Counterparty → Type 0
IsWaiting c = Stays c c

abbrev pub answered_ok : Option HttpResponse → ℕ
answered_ok (some (ok_json json)) = 1
answered_ok _ = 0

module _ (num : Num) (lib : Clarity) {W : Type 0} (self : Guac W) (k : Address) where
  -- 1 for a call with `k`, or a request of `k`, that succeeds; checks of the accrual are not counted.
  unfoldable pub succeeds : Event → Node W → ℕ
  succeeds (served request) n =
      if sender request == k then answered_ok (serve (as_api num lib self) request n).0 else 0
  succeeds (fills their url amount) n =
      if their == k then done 1 (fill_channel num lib self their url amount n).0 else 0
  succeeds (withdraws their url amount) n =
      if their == k then done 1 (withdraw num lib self their url amount n).0 else 0
  succeeds (pays their url amount) n =
      if their == k then done 1 (make_payment num lib self their url amount n).0 else 0
  succeeds (checks their) n = 0

module _ (num : Num) (lib : Clarity) {W : Type 0} (self : Guac W) where
  -- How the calls with a waiting counterparty, and its requests, end.
  abbrev pub Refused : {A : Type 0} → Node W → Outcome A × Node W → Type 0
  Refused n (err e, n') = n' ≡ n
  Refused n _ = ⊥

  module _ (k : Address) (url : String) (n : Node W) where
    pub fill_channel-Refused :
        (c : Counterparty) (amount : ℕ)
        → IsWaiting c
        → lookup k n.storage ≡ some c
        → Refused n (fill_channel num lib self k url amount n)
    unfolding fill_channel
    fill_channel-Refused (creating tx i) amount w e = rw e refl
    fill_channel-Refused (re_drawing tx c) amount w e = rw e refl
    fill_channel-Refused _ amount w e = absurd w

    pub withdraw-Refused :
        (c : Counterparty) (amount : ℕ)
        → IsWaiting c
        → lookup k n.storage ≡ some c
        → Refused n (withdraw num lib self k url amount n)
    unfolding withdraw
    withdraw-Refused (creating tx i) amount w e = rw e refl
    withdraw-Refused (re_drawing tx c) amount w e = rw e refl
    withdraw-Refused _ amount w e = absurd w

    pub make_payment-Refused :
        (c : Counterparty) (amount : ℕ)
        → IsWaiting c
        → lookup k n.storage ≡ some c
        → Refused n (make_payment num lib self k url amount n)
    unfolding make_payment
    make_payment-Refused (creating tx i) amount w e = rw e refl
    make_payment-Refused (re_drawing tx c) amount w e = rw e refl
    make_payment-Refused _ amount w e = absurd w

  pub serve-refused :
      (request : HttpServer.Request) (n : Node W) (c : Counterparty)
      → IsWaiting c
      → lookup (sender request) n.storage ≡ some c
      → let (r, n') = serve (as_api num lib self) request n in (answered_ok r ≡ 0) × (n' ≡ n)
  unfolding serve propose_channel propose_re_draw notify_channel_opened notify_re_draw
      receive_payment HttpServer.convert_error
  serve-refused (HttpServer.propose_channel from tx) n (creating t i) w e = rw e (refl, refl)
  serve-refused (HttpServer.propose_channel from tx) n (re_drawing t c) w e = rw e (refl, refl)
  serve-refused (HttpServer.propose_re_draw from tx) n (creating t i) w e = rw e (refl, refl)
  serve-refused (HttpServer.propose_re_draw from tx) n (re_drawing t c) w e = rw e (refl, refl)
  serve-refused (HttpServer.notify_channel_opened from) n (creating t i) w e = rw e (refl, refl)
  serve-refused (HttpServer.notify_channel_opened from) n (re_drawing t c) w e = rw e (refl, refl)
  serve-refused (HttpServer.notify_re_draw from) n (creating t i) w e = rw e (refl, refl)
  serve-refused (HttpServer.notify_re_draw from) n (re_drawing t c) w e = rw e (refl, refl)
  serve-refused (HttpServer.receive_payment from tx) n (creating t i) w e = rw e (refl, refl)
  serve-refused (HttpServer.receive_payment from tx) n (re_drawing t c) w e = rw e (refl, refl)
  serve-refused request n _ w e = absurd w

  pub Refused-counts :
      {A : Type 0} (n : Node W) (p : Outcome A × Node W)
      → Refused n p
      → (done 1 p.0 ≡ 0) × (p.1 ≡ n)
  Refused-counts n (err e, n') same = (refl, same)
  Refused-counts n (ok a, n') same = absurd same
  Refused-counts n (panic, n') same = absurd same

pub Stays-trans : (a b c : Counterparty) → Stays a b → Stays b c → Stays a c
Stays-trans (creating tx i) b c h h' = rw h at h'
Stays-trans (re_drawing tx c) (re_drawing tx' c') (re_drawing tx'' c'') h h' = ground arith
Stays-trans _ _ _ h h' = ground arith

pub Stays-IsWaiting : (a b : Counterparty) → Stays a b → IsWaiting b
Stays-IsWaiting (creating tx i) b h = rw h refl
Stays-IsWaiting (re_drawing tx c) (re_drawing tx' c') h = (refl, refl)
Stays-IsWaiting _ _ h = ground arith

-- A check of the accrual leaves a waiting entry waiting.
pub check_accrual-Stays :
    {W : Type 0} (k : Address) (c : Counterparty) (n : Node W)
    → IsWaiting c
    → lookup k n.storage ≡ some c
    → (d : Counterparty) × (lookup k (check_accrual k n).1.storage ≡ some d) × Stays c d
unfolding check_accrual Channel.check_accrual
check_accrual-Stays k (creating tx i) n w e = (creating tx i, ground arith, refl)
check_accrual-Stays k (re_drawing tx c) n w e =
    let d = re_drawing tx (record c { accrual = 0 }) in
    (d, ground (arith, lookup-insert k k d n.storage), (refl, refl))
check_accrual-Stays k _ n w e = absurd w
