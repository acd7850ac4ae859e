-- ===== src/Storage.antt =====
-- guac_core/src/storage.rs. The map is a list of entries. A call is one action here; its steps
-- between the locks are in Race.
use guac_rs.Prelude.{
  ◌≡◌, refl, arith, Bool, true, false, Option, none, some, List, [], ◌∷◌, ◌==◌, if◌then◌else◌,
}
use guac_rs.External.{Address}
use guac_rs.Types.{Counterparty, bail}
use guac_rs.Outcome.{Action, ok, err}

abbrev pub Storage : Type 0
Storage = List (Address × Counterparty)

-- `Storage::new`
abbrev pub empty : Storage
empty = []

-- `data.get`
unfoldable pub lookup : Address → Storage → Option Counterparty
lookup k [] = none
lookup k ((j, v) ∷ rest) = if j == k then some v else lookup k rest

-- `data.insert`, and a write through the guard of an entry
unfoldable pub insert : Address → Counterparty → Storage → Storage
insert k v [] = (k, v) ∷ []
insert k v ((j, w) ∷ rest) = if j == k then (k, v) ∷ rest else (j, w) ∷ insert k v rest

abbrev contains_key : Address → Storage → Bool
contains_key k storage = elim (lookup k storage) [ none ↦ false | some _ ↦ true ]

unfoldable pub get_counterparty : Address → Action Storage (Option Counterparty)
get_counterparty k self = (ok (lookup k self), self)

unfoldable pub new_counterparty : Address → Counterparty → Action Storage (Unit {0})
new_counterparty k v self =
    if contains_key k self
    then (err (bail "Counterparty already exists"), self)
    else (ok tt, insert k v self)

pub lookup-insert :
    (k j : Address) (v : Counterparty) (storage : Storage)
    → lookup j (insert k v storage) ≡ (if k == j then some v else lookup j storage)
unfolding lookup insert
lookup-insert k j v [] = refl
lookup-insert k j v ((i, w) ∷ rest) = ground (arith, lookup-insert k j v rest)

-- Of an address with no entry: `new_counterparty` succeeds, `get_counterparty` then returns the new
-- entry, and a second `new_counterparty` is an error that leaves the storage as it is.
new_counterparty-once :
    (k : Address) (v w : Counterparty) (storage : Storage)
    → lookup k storage ≡ none
    → let (r, storage') = new_counterparty k v storage in
      (r ≡ ok tt)
      × (get_counterparty k storage' ≡ (ok (some v), storage'))
      × (new_counterparty k w storage' ≡ (err (bail "Counterparty already exists"), storage'))
unfolding get_counterparty new_counterparty
new_counterparty-once k v w storage = ground (arith, lookup-insert k k v storage)

-- `new_counterparty`, by whether there is an entry.
pub new_counterparty_unknown :
    (k : Address) (v : Counterparty) (storage : Storage)
    → lookup k storage ≡ none
    → new_counterparty k v storage ≡ (ok tt, insert k v storage)
unfolding new_counterparty
new_counterparty_unknown k v storage unknown = ground arith

pub new_counterparty_known :
    (k : Address) (v c : Counterparty) (storage : Storage)
    → lookup k storage ≡ some c
    → new_counterparty k v storage ≡ (err (bail "Counterparty already exists"), storage)
unfolding new_counterparty
new_counterparty_known k v c storage known = ground arith
