-- ===== src/External.antt =====
-- Code that is not in the repository: the crates num256, clarity and sha3. Their operations are
-- arguments of the model; the laws below state what their documentation says of them.
-- A `Uint256` is read as its value, an `Address` and a `Signature` as the number of their bytes.
use guac_rs.Prelude.{ℕ, ◌+◌, ◌-◌, ◌^◌, ◌≤◌, ◌<◌, ◌≡◌, ◌⊎◌, Option, none, some, List, length}

abbrev pub Uint256 : Type 0
Uint256 = ℕ

abbrev pub Address : Type 0
Address = ℕ

abbrev pub Signature : Type 0
Signature = ℕ

abbrev pub Bytes : Type 0
Bytes = List ℕ

-- The arithmetic of num256; `none` is a panic, except for `checked_sub`, which returns `None`.
pub record Num : Type 0 where
  pub add : Uint256 → Uint256 → Option Uint256
  pub sub : Uint256 → Uint256 → Option Uint256
  pub checked_sub : Uint256 → Uint256 → Option Uint256

-- Documented behaviour: a result is never wrapped around, and there is one while it fits 256 bits.
pub record IsExact (num : Num) : Type 0 where
  pub add_cases : (a b : ℕ) → (num.add a b ≡ some (a + b)) ⊎ (num.add a b ≡ none)
  pub add_fits : (a b : ℕ) → a + b < 2 ^ 256 → num.add a b ≡ some (a + b)
  pub sub_fits : (a b : ℕ) → b ≤ a → num.sub a b ≡ some (a - b)
  pub sub_panics : (a b : ℕ) → a < b → num.sub a b ≡ none
  pub checked_sub_fits : (a b : ℕ) → b ≤ a → num.checked_sub a b ≡ some (a - b)
  pub checked_sub_none : (a b : ℕ) → a < b → num.checked_sub a b ≡ none

-- What clarity and sha3 compute, and how num256 turns a number into bytes and back.
pub record Clarity : Type 0 where
  pub address_bytes : Address → Bytes  -- `Address::as_bytes`
  pub uint_bytes : Uint256 → Bytes  -- `Uint256` into `[u8; 32]`
  pub uint_of_bytes : Bytes → Uint256  -- `Uint256::from_bytes_be`
  pub keccak256 : Bytes → Bytes  -- the digest of all bytes that were input
  pub sign_hash : ℕ → Bytes → Signature  -- by the number of a `PrivateKey`
  pub recover : Signature → Bytes → Option Address  -- `none` is an error

-- Documented sizes: addresses have 20 bytes, words and digests have 32. A value that fits its size
-- is told by its bytes, and a digest is the bytes of the number that it is read as.
pub record IsSized (lib : Clarity) : Type 0 where
  pub address_size : (a : Address) → length (lib.address_bytes a) ≡ 20
  pub uint_size : (n : Uint256) → length (lib.uint_bytes n) ≡ 32
  pub address_unique :
      (a b : Address)
      → a < 2 ^ 160
      → b < 2 ^ 160
      → lib.address_bytes a ≡ lib.address_bytes b
      → a ≡ b
  pub uint_unique :
      (m n : Uint256) → m < 2 ^ 256 → n < 2 ^ 256 → lib.uint_bytes m ≡ lib.uint_bytes n → m ≡ n
  pub digest_word :
      (b : Bytes) → lib.uint_bytes (lib.uint_of_bytes (lib.keccak256 b)) ≡ lib.keccak256 b
