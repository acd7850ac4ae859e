-- ===== src/Session/Story.antt =====
-- What the sessions of guac_http/src/lib.rs come to, from two nodes that do not know each other.
use guac_rs.Prelude.{ℕ, ◌≡◌, ◌≢◌, none}
use guac_rs.External.{Bytes, Num, Clarity, IsExact}
use guac_rs.Outcome.{Outcome, ok, Action}
use guac_rs.Storage.{lookup}
use guac_rs.Node.{CounterpartyApi, Guac, Node}
use guac_rs.ChannelManager.{fill_channel, make_payment, withdraw}
use guac_rs.TwoParty.{Signs}
use guac_rs.Session.{first, second}
use guac_rs.Session.Chain.{Mines}
use guac_rs.Session.Shares.{Shares}

-- A call succeeds, with the state after it in `P`.
abbrev pub Ends : {S : Type 0} → (S → Type 0) → Outcome (Unit {0}) × S → Type 0
Ends P (r, s) = (r ≡ ok tt) × P s

module _ (num : Num) (exact : IsExact num) (lib : Clarity) {W : Type 0} (guac_1 guac_2 : Guac W)
    (signs_1 : Signs lib guac_1.crypto) (signs_2 : Signs lib guac_2.crypto)
    (one_contract : guac_1.crypto.contract_address ≡ guac_2.crypto.contract_address)
    (two_nodes : guac_1.crypto.own_address ≢ guac_2.crypto.own_address) (height : W → ℕ)
    (id : Bytes) (mines_1 : Mines guac_1.blockchain_client height id)
    (mines_2 : Mines guac_2.blockchain_client height id) (n : Node (Node W))
    (unknown_2 : lookup guac_2.crypto.own_address n.storage ≡ none)
    (unknown_1 : lookup guac_1.crypto.own_address n.world.storage ≡ none) where
  abbrev Share : (x y s t p q : ℕ) → Node (Node W) → Type 0
  Share x y s t p q n' = Shares guac_1.crypto.own_address guac_2.crypto.own_address n' x y s t p q

  abbrev ShareBack : (x y s t p q : ℕ) → Node (Node W) → Type 0
  ShareBack x y s t p q n' =
      Shares guac_2.crypto.own_address guac_1.crypto.own_address n' x y s t p q

  -- The calls of the two users.
  abbrev fill_first : ℕ → Action (Node (Node W)) (Unit {0})
  fill_first amount =
      fill_channel num lib (first num lib guac_1 guac_2) guac_2.crypto.own_address "[::1]:8882"
        amount

  abbrev fill_second : ℕ → Action (Node (Node W)) (Unit {0})
  fill_second amount =
      fill_channel num lib (second num lib guac_1 guac_2) guac_1.crypto.own_address "[::1]:8881"
        amount

  abbrev pay_first : ℕ → Action (Node (Node W)) (Unit {0})
  pay_first amount =
      make_payment num lib (first num lib guac_1 guac_2) guac_2.crypto.own_address "[::1]:8882"
        amount

  abbrev pay_nobody : CounterpartyApi (Node W) → ℕ → Action (Node (Node W)) (Unit {0})
  pay_nobody nobody amount =
      make_payment num lib (record (second num lib guac_1 guac_2) { counterparty_client = nobody })
        guac_1.crypto.own_address "[::1]:8883" amount

  abbrev take_first : ℕ → Action (Node (Node W)) (Unit {0})
  take_first amount =
      withdraw num lib (first num lib guac_1 guac_2) guac_2.crypto.own_address "[::1]:8882" amount

  abbrev take_second : ℕ → Action (Node (Node W)) (Unit {0})
  take_second amount =
      withdraw num lib (second num lib guac_1 guac_2) guac_1.crypto.own_address "[::1]:8881" amount
