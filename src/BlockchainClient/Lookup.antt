-- ===== src/BlockchainClient/Lookup.antt =====
-- What `check_for_open` (guac_http/src/blockchain_client.rs) finds on a chain of logs.
use native.Mathlib.Decide.{ℕ_discrete}
use guac_rs.Prelude.{
  ℕ, ◌==◌, false, ◌≡◌, ◌≢◌, ◌⊎◌, inl, inr, refl, sym, ap, Option, none, some, String, List, [], ◌∷◌,
  length, arith,
}
use guac_rs.External.{Address, Bytes, Clarity}
use guac_rs.Types.{bail}
use guac_rs.Outcome.{Outcome, ok, err, panic, pure, bind_ok}
use guac_rs.Web3.{Web3}
use guac_rs.Web3.Types.{Hex, Log, NewFilter}
use guac_rs.BlockchainClient.Contract.{Abi}
use guac_rs.BlockchainClient.Events.{
  bytes_to_data, address_word, event_filter, first, check_for_event,
}
use guac_rs.BlockchainClient.Send.{BlockchainClient}
use guac_rs.BlockchainClient.{Timing, check_for_open, id_if_found}

-- Which logs a filter asks for, as the JSON-RPC interface of Ethereum documents it: the logs of one
-- of its addresses whose topics are, place by place, one of those asked for, or any for `null`.
abbrev OneOf : List Address → Address → Type 0
OneOf [] a = ⊥
OneOf (b ∷ rest) a = (b ≡ a) ⊎ OneOf rest a

abbrev AnyOf : List (Option String) → String → Type 0
AnyOf [] t = ⊥
AnyOf (none ∷ values) t = Unit
AnyOf (some v ∷ values) t = (v ≡ t) ⊎ AnyOf values t

abbrev TopicMatches : Option (List (Option String)) → String → Type 0
TopicMatches none t = Unit
TopicMatches (some values) t = AnyOf values t

abbrev TopicsMatch : List (Option (List (Option String))) → List String → Type 0
TopicsMatch [] topics = Unit
TopicsMatch (place ∷ places) [] = ⊥
TopicsMatch (place ∷ places) (t ∷ topics) = TopicMatches place t × TopicsMatch places topics

abbrev TopicsAsked : Option (List (Option (List (Option String)))) → List String → Type 0
TopicsAsked none topics = Unit
TopicsAsked (some places) topics = TopicsMatch places topics

abbrev pub Matches : NewFilter → Log → Type 0
Matches filter log = OneOf filter.address log.address × TopicsAsked filter.topics log.topics

-- The logs of a chain with a property, in order.
pub data Selected (P : Log → Type 0) : List Log → List Log → Type 0 where
  end : Selected P [] []
  take :
      {log : Log} {logs found : List Log}
      → P log
      → Selected P logs found
      → Selected P (log ∷ logs) (log ∷ found)
  skip :
      {log : Log} {logs found : List Log}
      → ¬ P log
      → Selected P logs found
      → Selected P (log ∷ logs) found

-- What `eth_getLogs` is documented to answer: those logs of `chain` that match the filter.
pub record Answers {W : Type 0} (web3 : Web3 W) (filter : NewFilter) (w : W) (chain : List Log)
    : Type 0 where
  pub found : List Log
  pub answers : (web3.eth_get_logs filter w).0 ≡ ok found
  pub selected : Selected (Matches filter) chain found

-- A filter without `fromBlock` and `toBlock` asks for the latest block only, whose logs are `latest`.
-- What the request does to the world is left open.
abbrev pub IsLogged : {W : Type 0} → Web3 W → NewFilter → W → List Log → Type 0
IsLogged web3 filter w latest =
    filter.from_block ≡ none → filter.to_block ≡ none → Answers web3 filter w latest

-- The first log with a property, and a chain without any.
pub data FirstIn (P : Log → Type 0) (log : Log) : List Log → Type 0 where
  at_head : {logs : List Log} → P log → FirstIn P log (log ∷ logs)
  behind :
      {other : Log} {logs : List Log}
      → ¬ P other
      → FirstIn P log logs
      → FirstIn P log (other ∷ logs)

abbrev pub NoneIn : (Log → Type 0) → List Log → Type 0
NoneIn P [] = Unit
NoneIn P (log ∷ logs) = (¬ P log) × NoneIn P logs

module _ {Token : Type 0} (lib : Clarity) (hex : Hex) (abi : Abi Token) (contract : Address) where
  -- The event that the contract emits when the channel of two addresses is opened.
  abbrev pub IsOpening : Address → Address → Log → Type 0
  IsOpening address_0 address_1 log =
      (log.address ≡ contract)
      × ((rest : List String) × (log.topics
            ≡ bytes_to_data hex (abi.derive_signature "ChannelOpened(address,address,bytes32)")
              ∷ bytes_to_data hex (address_word lib address_0)
              ∷ bytes_to_data hex (address_word lib address_1)
              ∷ rest))

  -- What the outcome says of the chain.
  abbrev pub IsLookup : Address → Address → List Log → Outcome (Option Bytes) → Type 0
  IsLookup address_0 address_1 chain (ok (some id)) =
      (length id ≡ 32)
      × ((log : Log) × FirstIn (IsOpening address_0 address_1) log chain × (id ≡ log.log_data))
  IsLookup address_0 address_1 chain (ok none) = NoneIn (IsOpening address_0 address_1) chain
  IsLookup address_0 address_1 chain (err e) =
      (e ≡ bail "Invalid data length in ChannelOpened event")
      × ((log : Log) × FirstIn (IsOpening address_0 address_1) log chain
          × (length log.log_data ≢ 32))
  IsLookup address_0 address_1 chain panic = ⊥

module _ {P Q : Log → Type 0} (to : (log : Log) → P log → Q log)
    (back : (log : Log) → Q log → P log) where
  Selected-NoneIn : {chain : List Log} → Selected P chain [] → NoneIn Q chain
  Selected-NoneIn end = tt
  Selected-NoneIn (skip {log = log} other s) = (λ q. other (back log q), Selected-NoneIn s)

  Selected-FirstIn :
      {chain rest : List Log} {log : Log} → Selected P chain (log ∷ rest) → FirstIn Q log chain
  Selected-FirstIn (take {log = log} p s) = at_head (to log p)
  Selected-FirstIn (skip {log = log} other s) =
      behind (λ q. other (back log q)) (Selected-FirstIn s)

-- A place of a filter that asks for one value.
abbrev one : String → Option (List (Option String))
one t = some (some t ∷ [])

three_topics :
    (a b c : String) (topics : List String)
    → TopicsMatch (one a ∷ one b ∷ one c ∷ []) topics
    → (rest : List String) × (topics ≡ a ∷ b ∷ c ∷ rest)
three_topics a b c [] m = absurd m
three_topics a b c (x ∷ []) (h, m) = absurd m
three_topics a b c (x ∷ y ∷ []) (h, (k, m)) = absurd m
three_topics a b c (x ∷ y ∷ z ∷ rest) (inl e, (inl f, (inl g, m))) = (rest, rw (e, f, g) refl)
three_topics a b c (x ∷ y ∷ z ∷ rest) (inl e, (inl f, (inr h, m))) = absurd h
three_topics a b c (x ∷ y ∷ z ∷ rest) (inl e, (inr h, m)) = absurd h
three_topics a b c (x ∷ y ∷ z ∷ rest) (inr h, m) = absurd h

three_match :
    (a b c : String) (topics rest : List String)
    → topics ≡ a ∷ b ∷ c ∷ rest
    → TopicsMatch (one a ∷ one b ∷ one c ∷ []) topics
three_match a b c topics rest e = rw e (inl refl, (inl refl, (inl refl, tt)))

pub not_32 : (n : ℕ) → n ≢ 32 → (n == 32) ≡ false
not_32 n ne = ground arith

module _ {W Token : Type 0} (lib : Clarity) (hex : Hex) (abi : Abi Token) (web3 : Web3 W)
    (timing : Timing) (self : BlockchainClient) where
  module _ (address_0 address_1 : Address) where
    -- The filter for the opening of their channel.
    abbrev pub asked : NewFilter
    asked =
        event_filter hex abi self.contract_address "ChannelOpened(address,address,bytes32)"
          (some (address_word lib address_0 ∷ [])) (some (address_word lib address_1 ∷ [])) none
          none

    abbrev Opening : Log → Type 0
    Opening = IsOpening lib hex abi self.contract_address address_0 address_1

    Matches-Opening : (log : Log) → Matches asked log → Opening log
    Matches-Opening log (inl e, m) = (sym e, three_topics _ _ _ log.topics m)
    Matches-Opening log (inr h, m) = absurd h

    Opening-Matches : (log : Log) → Opening log → Matches asked log
    Opening-Matches log (same, (rest, e)) = (inl (sym same), three_match _ _ _ log.topics rest e)

    abbrev Lookup : List Log → Outcome (Option Bytes) → Type 0
    Lookup = IsLookup lib hex abi self.contract_address address_0 address_1

    looked_up :
        (chain logs : List Log) (w : W)
        → Selected (Matches asked) chain logs
        → Lookup chain (id_if_found (first logs) w).0 × ((id_if_found (first logs) w).1 ≡ w)
    looked_up chain [] w s = (Selected-NoneIn Matches-Opening Opening-Matches s, refl)
    looked_up chain (log ∷ rest) w s =
        let opening = Selected-FirstIn Matches-Opening Opening-Matches s in
        elim (ℕ_discrete (length log.log_data) 32) [
          | yes e ↦ rw e ((e, (log, opening, refl)), refl)
          | no ne ↦ rw (not_32 (length log.log_data) ne) ((refl, (log, opening, ne)), refl)
        ]

    -- The outcome of the request, with the world that it leaves.
    check_for_open_answered :
        (logs : List Log) (w : W)
        → (web3.eth_get_logs asked w).0 ≡ ok logs
        → check_for_open lib hex abi web3 timing self address_0 address_1 w
          ≡ id_if_found (first logs) (web3.eth_get_logs asked w).1
    unfolding check_for_open check_for_event
    check_for_open_answered logs w e =
        bind_ok
          (check_for_event hex abi self.contract_address web3
            "ChannelOpened(address,address,bytes32)" (some (address_word lib address_0 ∷ []))
            (some (address_word lib address_1 ∷ [])))
          id_if_found
          (bind_ok (web3.eth_get_logs asked) (λ logs. pure (first logs))
            (ap (λ r. (r, (web3.eth_get_logs asked w).1)) e))

    Lookup-same :
        (chain : List Log) (w : W) (p q : Outcome (Option Bytes) × W)
        → p ≡ q
        → Lookup chain q.0 × (q.1 ≡ w)
        → Lookup chain p.0 × (p.1 ≡ w)
    Lookup-same chain w p q e h = rw e h

    -- Given an Ethereum node that answers a filter without a first and a last block with those logs
    -- of its latest block, in order, that match it, as documented, let `latest` be the logs of that
    -- block: an id that is found is the data of the first log of `latest` that the contract emitted
    -- as the opening of the channel of the two addresses, and has 32 bytes; no id is found only if
    -- `latest` has no such log; the call fails only with the error on the length, and then that
    -- first log's data do not have 32 bytes; it does not panic, and leaves the world as that one
    -- request leaves it.
    pub check_for_open-IsLookup :
        (latest : List Log) (w : W)
        → IsLogged web3 asked w latest
        → let (r, w') = check_for_open lib hex abi web3 timing self address_0 address_1 w in
          IsLookup lib hex abi self.contract_address address_0 address_1 latest r
          × (w' ≡ (web3.eth_get_logs asked w).1)
    check_for_open-IsLookup latest w node =
        let answer = node refl refl in
        Lookup-same latest (web3.eth_get_logs asked w).1 _ _
          (check_for_open_answered answer.found w answer.answers)
          (looked_up latest answer.found (web3.eth_get_logs asked w).1 answer.selected)
