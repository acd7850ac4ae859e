-- ===== src/Crypto/Layout.antt =====
-- The bytes that are hashed determine the transaction: fixed sizes leave no two ways to read them.
use guac_rs.Prelude.{ℕ, ◌<◌, ◌^◌, ◌≡◌, ◌≢◌, ap, List, [], ◌∷◌, length, append-injective, arith}
use guac_rs.External.{Address, Bytes, Clarity, IsSized}
use guac_rs.Types.{NewChannelTx, ReDrawTx, UpdateTx}
use guac_rs.Crypto.{
  inputs, new_channel_buffers, re_draw_buffers, update_buffers, new_channel_fingerprint,
  re_draw_fingerprint, update_fingerprint,
}

-- The fields of an update that its signature covers.
pub record SameUpdate (t u : UpdateTx) : Type 0 where
  pub channel_id : t.channel_id ≡ u.channel_id
  pub sequence_number : t.sequence_number ≡ u.sequence_number
  pub balance_0 : t.balance_0 ≡ u.balance_0
  pub balance_1 : t.balance_1 ≡ u.balance_1

pub record SameReDraw (t u : ReDrawTx) : Type 0 where
  pub channel_id : t.channel_id ≡ u.channel_id
  pub sequence_number : t.sequence_number ≡ u.sequence_number
  pub old_balance_0 : t.old_balance_0 ≡ u.old_balance_0
  pub old_balance_1 : t.old_balance_1 ≡ u.old_balance_1
  pub new_balance_0 : t.new_balance_0 ≡ u.new_balance_0
  pub new_balance_1 : t.new_balance_1 ≡ u.new_balance_1
  pub expiration : t.expiration ≡ u.expiration

pub record SameNewChannel (t u : NewChannelTx) : Type 0 where
  pub address_0 : t.address_0 ≡ u.address_0
  pub address_1 : t.address_1 ≡ u.address_1
  pub balance_0 : t.balance_0 ≡ u.balance_0
  pub balance_1 : t.balance_1 ≡ u.balance_1
  pub expiration : t.expiration ≡ u.expiration
  pub settling_period_length : t.settling_period_length ≡ u.settling_period_length

-- Values of the widths that the Rust types have.
pub record UpdateTxFits (t : UpdateTx) (contract_address : Address) : Type 0 where
  pub contract : contract_address < 2 ^ 160
  pub sequence_number : t.sequence_number < 2 ^ 256
  pub balance_0 : t.balance_0 < 2 ^ 256
  pub balance_1 : t.balance_1 < 2 ^ 256

pub record ReDrawTxFits (t : ReDrawTx) (contract_address : Address) : Type 0 where
  pub contract : contract_address < 2 ^ 160
  pub sequence_number : t.sequence_number < 2 ^ 256
  pub old_balance_0 : t.old_balance_0 < 2 ^ 256
  pub old_balance_1 : t.old_balance_1 < 2 ^ 256
  pub new_balance_0 : t.new_balance_0 < 2 ^ 256
  pub new_balance_1 : t.new_balance_1 < 2 ^ 256
  pub expiration : t.expiration < 2 ^ 256

pub record NewChannelTxFits (t : NewChannelTx) (contract_address : Address) : Type 0 where
  pub contract : contract_address < 2 ^ 160
  pub address_0 : t.address_0 < 2 ^ 160
  pub address_1 : t.address_1 < 2 ^ 160
  pub balance_0 : t.balance_0 < 2 ^ 256
  pub balance_1 : t.balance_1 < 2 ^ 256
  pub expiration : t.expiration < 2 ^ 256
  pub settling_period_length : t.settling_period_length < 2 ^ 256

-- Buffers of the same sizes.
abbrev SameSizes : List Bytes → List Bytes → Type 0
SameSizes [] [] = Unit
SameSizes (x ∷ xs) (y ∷ ys) = (length x ≡ length y) × SameSizes xs ys
SameSizes _ _ = ⊥

abbrev Same : List Bytes → List Bytes → Type 0
Same [] [] = Unit
Same (x ∷ xs) (y ∷ ys) = (x ≡ y) × Same xs ys
Same _ _ = ⊥

-- The buffers can be read back from their concatenation.
inputs-injective : (xs ys : List Bytes) → SameSizes xs ys → inputs xs ≡ inputs ys → Same xs ys
inputs-injective [] [] n e = tt
inputs-injective [] (y ∷ ys) n e = n
inputs-injective (x ∷ xs) [] n e = n
inputs-injective (x ∷ xs) (y ∷ ys) n e =
    let (head, rest) = append-injective x y n.0 e in (head, inputs-injective xs ys n.1 rest)

abbrev first : Bytes → ℕ
first [] = 0
first (b ∷ _) = b

-- No collision of the hash function at two inputs.
abbrev pub NoCollision : Clarity → List Bytes → List Bytes → Type 0
NoCollision lib xs ys =
    lib.keccak256 (inputs xs) ≡ lib.keccak256 (inputs ys) → inputs xs ≡ inputs ys

module _ (lib : Clarity) (sized : IsSized lib) where
  hashed_same :
      (xs ys : List Bytes)
      → NoCollision lib xs ys
      → lib.uint_bytes (lib.uint_of_bytes (lib.keccak256 (inputs xs)))
        ≡ lib.uint_bytes (lib.uint_of_bytes (lib.keccak256 (inputs ys)))
      → inputs xs ≡ inputs ys
  hashed_same xs ys nc e = nc (cc (sized.digest_word (inputs xs), sized.digest_word (inputs ys)))

  -- Given the documented sizes of addresses, words and digests: two updates with ids of one length,
  -- whose fields and contracts fit their Rust types, and at whose bytes the hash does not collide,
  -- have the same fingerprint only if the contracts, ids, numbers and balances are the same.
  pub update_fingerprint-injective :
      (t u : UpdateTx) (c d : Address)
      → UpdateTxFits t c
      → UpdateTxFits u d
      → length t.channel_id ≡ length u.channel_id
      → NoCollision lib (update_buffers lib t c) (update_buffers lib u d)
      → update_fingerprint lib t c ≡ update_fingerprint lib u d
      → (c ≡ d) × SameUpdate t u
  unfolding update_fingerprint
  update_fingerprint-injective t u c d tf uf n nc e =
      let xs = update_buffers lib t c in
      let ys = update_buffers lib u d in
      let sizes : SameSizes xs ys = omega (arith, sized.uint_size, sized.address_size) in
      let same = inputs-injective xs ys sizes (hashed_same xs ys nc e) in
      let (_, (contract, (id, (seq, (b0, (b1, _)))))) = same in
      (
        sized.address_unique c d tf.contract uf.contract contract,
        record {
          channel_id = id;
          sequence_number =
              sized.uint_unique t.sequence_number u.sequence_number tf.sequence_number
                uf.sequence_number seq;
          balance_0 = sized.uint_unique t.balance_0 u.balance_0 tf.balance_0 uf.balance_0 b0;
          balance_1 = sized.uint_unique t.balance_1 u.balance_1 tf.balance_1 uf.balance_1 b1;
        },
      )

  -- Given the documented sizes of addresses, words and digests: two re-draws with ids of one
  -- length, whose fields and contracts fit their Rust types, and at whose bytes the hash does not
  -- collide, have the same fingerprint only if the contracts, ids, numbers, old and new balances
  -- and expirations are the same.
  pub re_draw_fingerprint-injective :
      (t u : ReDrawTx) (c d : Address)
      → ReDrawTxFits t c
      → ReDrawTxFits u d
      → length t.channel_id ≡ length u.channel_id
      → NoCollision lib (re_draw_buffers lib t c) (re_draw_buffers lib u d)
      → re_draw_fingerprint lib t c ≡ re_draw_fingerprint lib u d
      → (c ≡ d) × SameReDraw t u
  unfolding re_draw_fingerprint
  re_draw_fingerprint-injective t u c d tf uf n nc e =
      let xs = re_draw_buffers lib t c in
      let ys = re_draw_buffers lib u d in
      let sizes : SameSizes xs ys = omega (arith, sized.uint_size, sized.address_size) in
      let same = inputs-injective xs ys sizes (hashed_same xs ys nc e) in
      let (_, (contract, (id, (seq, (o0, (o1, (n0, (n1, (exp, _))))))))) = same in
      (
        sized.address_unique c d tf.contract uf.contract contract,
        record {
          channel_id = id;
          sequence_number =
              sized.uint_unique t.sequence_number u.sequence_number tf.sequence_number
                uf.sequence_number seq;
          old_balance_0 =
              sized.uint_unique t.old_balance_0 u.old_balance_0 tf.old_balance_0 uf.old_balance_0
                o0;
          old_balance_1 =
              sized.uint_unique t.old_balance_1 u.old_balance_1 tf.old_balance_1 uf.old_balance_1
                o1;
          new_balance_0 =
              sized.uint_unique t.new_balance_0 u.new_balance_0 tf.new_balance_0 uf.new_balance_0
                n0;
          new_balance_1 =
              sized.uint_unique t.new_balance_1 u.new_balance_1 tf.new_balance_1 uf.new_balance_1
                n1;
          expiration = sized.uint_unique t.expiration u.expiration tf.expiration uf.expiration exp;
        },
      )

  -- Given the documented sizes of addresses, words and digests: two openings of a channel, whose
  -- fields and contracts fit their Rust types, and at whose bytes the hash does not collide, have
  -- the same fingerprint only if the contracts, addresses, balances, expirations and settling
  -- periods are the same.
  pub new_channel_fingerprint-injective :
      (t u : NewChannelTx) (c d : Address)
      → NewChannelTxFits t c
      → NewChannelTxFits u d
      → NoCollision lib (new_channel_buffers lib t c) (new_channel_buffers lib u d)
      → new_channel_fingerprint lib t c ≡ new_channel_fingerprint lib u d
      → (c ≡ d) × SameNewChannel t u
  unfolding new_channel_fingerprint
  new_channel_fingerprint-injective t u c d tf uf nc e =
      let xs = new_channel_buffers lib t c in
      let ys = new_channel_buffers lib u d in
      let sizes : SameSizes xs ys = omega (arith, sized.uint_size, sized.address_size) in
      let same = inputs-injective xs ys sizes (hashed_same xs ys nc e) in
      let (_, (contract, (a0, (a1, (b0, (b1, (exp, (settle, _)))))))) = same in
      (
        sized.address_unique c d tf.contract uf.contract contract,
        record {
          address_0 = sized.address_unique t.address_0 u.address_0 tf.address_0 uf.address_0 a0;
          address_1 = sized.address_unique t.address_1 u.address_1 tf.address_1 uf.address_1 a1;
          balance_0 = sized.uint_unique t.balance_0 u.balance_0 tf.balance_0 uf.balance_0 b0;
          balance_1 = sized.uint_unique t.balance_1 u.balance_1 tf.balance_1 uf.balance_1 b1;
          expiration = sized.uint_unique t.expiration u.expiration tf.expiration uf.expiration exp;
          settling_period_length =
              sized.uint_unique t.settling_period_length u.settling_period_length
                tf.settling_period_length uf.settling_period_length settle;
        },
      )

  -- Given the documented sizes of addresses, words and digests: an opening, a re-draw and an
  -- update, at whose bytes the hash has no collision between two of them, have three different
  -- fingerprints, whatever their contracts.
  pub fingerprints_differ :
      (n : NewChannelTx) (r : ReDrawTx) (u : UpdateTx) (c d e : Address)
      → NoCollision lib (new_channel_buffers lib n c) (re_draw_buffers lib r d)
      → NoCollision lib (new_channel_buffers lib n c) (update_buffers lib u e)
      → NoCollision lib (re_draw_buffers lib r d) (update_buffers lib u e)
      → (new_channel_fingerprint lib n c ≢ re_draw_fingerprint lib r d)
        × (new_channel_fingerprint lib n c ≢ update_fingerprint lib u e)
        × (re_draw_fingerprint lib r d ≢ update_fingerprint lib u e)
  unfolding new_channel_fingerprint re_draw_fingerprint update_fingerprint
  fingerprints_differ n r u c d e nr nu ru = (
    λ q. omega (
      arith,
      ap first (hashed_same (new_channel_buffers lib n c) (re_draw_buffers lib r d) nr q),
    ),
    λ q.
        omega (
          arith,
          ap first (hashed_same (new_channel_buffers lib n c) (update_buffers lib u e) nu q),
        ),
    λ q.
        omega
          (arith, ap first (hashed_same (re_draw_buffers lib r d) (update_buffers lib u e) ru q)),
  )
