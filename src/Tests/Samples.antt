-- ===== src/Tests/Samples.antt =====
-- The sample data: an exact arithmetic, a small stand-in for the hash and the signatures, two
-- nodes, Alice (address 5) and Bob (address 9), and a chain that does all that it is asked to.
use guac_rs.Prelude.{
  ℕ, ◌+◌, ◌-◌, ◌^◌, ap, refl, true, false, none, some, List, [], ◌∷◌, if◌then◌else◌, ltb, leb,
  arith,
}
use guac_rs.External.{Bytes, Num, IsExact, Clarity, IsSized}
use guac_rs.Types.{Channel, open_channel, foreign}
use guac_rs.Outcome.{ok, err}
use guac_rs.Crypto.{Crypto}
use guac_rs.Node.{BlockchainApi, CounterpartyApi, Guac, Node}
use guac_rs.Channel.Exchange.{IsMirror}
use guac_rs.TwoParty.{Signs, connected}

abbrev pub num : Num
num = record {
  add = λ a b. if ltb (a + b) (2 ^ 256) then some (a + b) else none;
  sub = λ a b. if leb b a then some (a - b) else none;
  checked_sub = λ a b. if leb b a then some (a - b) else none;
}

pub num-IsExact : IsExact num
num-IsExact = record {
  add_cases = λ a b. ground arith;
  add_fits = λ a b fits. ground arith;
  sub_fits = λ a b fits. ground arith;
  sub_panics = λ a b less. ground arith;
  checked_sub_fits = λ a b fits. ground arith;
  checked_sub_none = λ a b less. ground arith;
}

abbrev pub zeros : List ℕ
zeros = 0 ∷ 0 ∷ 0 ∷ 0 ∷ 0 ∷ 0 ∷ 0 ∷ 0 ∷ 0 ∷ 0 ∷ 0 ∷ 0 ∷ 0 ∷ 0 ∷ 0 ∷ 0 ∷ 0 ∷ 0 ∷ 0 ∷ []

abbrev pub head : Bytes → ℕ
head [] = 0
head (b ∷ _) = b

abbrev sum : Bytes → ℕ
sum [] = 0
sum (b ∷ bytes) = b + sum bytes

abbrev pub word : ℕ → Bytes
word n = n ∷ 0 ∷ 0 ∷ 0 ∷ 0 ∷ 0 ∷ 0 ∷ 0 ∷ 0 ∷ 0 ∷ 0 ∷ 0 ∷ 0 ∷ zeros

abbrev pub lib : Clarity
lib = record {
  address_bytes = λ a. a ∷ zeros;
  uint_bytes = word;
  uint_of_bytes = head;
  keccak256 = λ bytes. word (sum bytes);
  sign_hash = λ secret digest. secret;
  recover = λ signature digest. some signature;
}

pub lib-IsSized : IsSized lib
lib-IsSized = record {
  address_size = λ a. refl;
  uint_size = λ n. refl;
  address_unique = λ a b fa fb same. ap head same;
  uint_unique = λ m n fm fn same. ap head same;
  digest_word = λ bytes. refl;
}

abbrev pub alice_keys : Crypto
alice_keys = record { contract_address = 3; own_address = 5; secret = 5 }

abbrev pub bob_keys : Crypto
bob_keys = record { contract_address = 3; own_address = 9; secret = 9 }

pub alice-Signs : Signs lib alice_keys
alice-Signs = record { recovers = λ digest. refl }

pub bob-Signs : Signs lib bob_keys
bob-Signs = record { recovers = λ digest. refl }

abbrev pub id : Bytes
id = 1 ∷ 2 ∷ 3 ∷ []

-- The chain counts the transactions that it was sent.
abbrev pub chain : BlockchainApi ℕ
chain = record {
  balance_of = λ sent. (ok 1000, sent);
  check_for_open = λ a b sent. (ok (some id), sent);
  check_for_re_draw = λ channel_id sent. (ok tt, sent);
  quick_deposit = λ value sent. (ok tt, sent + 1);
  get_current_block = λ sent. (ok 70, sent);
  deposit_then_new_channel = λ amount tx sent. (ok id, sent + 1);
  deposit_then_re_draw = λ amount tx sent. (ok tt, sent + 1);
  re_draw_then_withdraw = λ amount tx sent. (ok tt, sent + 1);
}

-- Nobody answers.
abbrev pub silent : CounterpartyApi ℕ
silent = record {
  propose_channel = λ from url tx sent. (err (foreign 0), sent);
  propose_re_draw = λ from url tx sent. (err (foreign 0), sent);
  notify_channel_opened = λ from url sent. (err (foreign 0), sent);
  notify_re_draw = λ from url sent. (err (foreign 0), sent);
  receive_payment = λ from url tx sent. (err (foreign 0), sent);
}

abbrev pub bob : Guac ℕ
bob = record { blockchain_client = chain; counterparty_client = silent; crypto = bob_keys }

abbrev pub alice : Guac (Node ℕ)
alice = connected num lib alice_keys bob

-- One channel between them, in which Alice holds 30 and Bob 20.
abbrev pub alice_channel : Channel
alice_channel = record {
  channel_id = id;
  sequence_number = 4;
  balance_0 = 30;
  balance_1 = 20;
  accrual = 0;
  i_am_0 = true;
}

abbrev pub bob_channel : Channel
bob_channel = record alice_channel { i_am_0 = false }

pub copies-IsMirror : IsMirror alice_channel bob_channel
copies-IsMirror = record {
  ids = refl;
  sequences = refl;
  balances_0 = refl;
  balances_1 = refl;
  ends = refl;
}

abbrev pub bob_node : Node ℕ
bob_node = record { storage = (5, open_channel bob_channel) ∷ []; world = 0 }

-- Alice's node, with Bob's behind it.
abbrev pub both : Node (Node ℕ)
both = record { storage = (9, open_channel alice_channel) ∷ []; world = bob_node }

abbrev pub strangers : Node (Node ℕ)
strangers = record { storage = []; world = record { storage = []; world = 0 } }
