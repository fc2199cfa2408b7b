-- ===== src/Oracle.antt =====
-- The price oracle (contracts/oracle/soroban/src/lib.rs): publishers, their reports, and the median
-- of the reports that are not stale.
pub mod Median
pub mod Sorting
pub mod Publishers
pub mod Reports
pub mod Order
pub mod Duplicates
pub mod Positive
mod Examples
use de_fi_lending_stellar_pa.Prelude.{
  ℕ, zero, suc, ◌+◌, ◌-◌, ◌/◌, ◌==◌, ltb, leb, Bool, true, false, Option, none, some, List, [], ◌∷◌,
  ◌++◌, length, get_elem?, if◌then◌else◌, nat_equality, pair_equality,
}
use de_fi_lending_stellar_pa.Int.{ℤ, pos, ltb_ℤ, leb_ℤ}
use de_fi_lending_stellar_pa.Map.{Map, lookup, insert, erase}
use de_fi_lending_stellar_pa.Map.Sum.{amount_at}
use de_fi_lending_stellar_pa.Soroban.{
  Address, Symbol, Result, ok, err, ◌>>=◌, ◌>>◌, Env, panic_if, require, expect, unwrap_or, is_some,
  require_auth, require_admin, require_positive, mul_i128, div_i128, add_u32, sub_u32, max_u32,
  already_initialized, min_publishers_zero, not_a_publisher, price_not_positive,
  asset_not_configured, publisher_list_corrupt, insufficient_reports, index_out_of_bounds,
}

-- `DEFAULT_TTL`, and the size of the array of prices.
abbrev pub default_ttl : ℕ
default_ttl = 300

abbrev pub max_reports : ℕ
max_reports = 16

pub record AssetConfig : Type 0 where
  pub asset : Symbol
  pub heartbeat : ℕ
  pub min_publishers : ℕ

pub data Event : Type 0 where
  add_publisher_event : Address → Event
  price_event : Symbol → ℤ → Address → Event

-- The keys of `DataKey`; `events` holds what was published, the latest first.
pub record Oracle : Type 0 where
  pub admin : Option Address
  pub asset_configs : Map Symbol AssetConfig
  pub publisher_prices : Map (Symbol × Address) ℤ
  pub publisher_updated : Map (Symbol × Address) ℕ
  pub publishers : Map Address Bool
  pub publisher_list : Map ℕ Address
  pub publisher_list_len : Option ℕ
  pub events : List Event

abbrev pub deployed : Oracle
deployed = record {
  admin = none;
  asset_configs = [];
  publisher_prices = [];
  publisher_updated = [];
  publishers = [];
  publisher_list = [];
  publisher_list_len = none;
  events = [];
}

abbrev pub list_len : Oracle → ℕ
list_len s = unwrap_or s.publisher_list_len 0

unfoldable pub initialize : Env → Address → Oracle → Result Oracle
initialize e admin s = do
  panic_if (is_some s.admin) already_initialized
  require_auth e admin
  ok (record s { admin = some admin })

unfoldable pub append_publisher_list : Address → Oracle → Result Oracle
append_publisher_list publisher s = do
  let len = list_len s
  next ← add_u32 len 1
  ok (record s {
    publisher_list = insert len publisher s.publisher_list;
    publisher_list_len = some next;
  })

-- The `return` of the loop: the last entry takes the place of entry `i`.
unfoldable pub drop_entry : ℕ → ℕ → Oracle → Result Oracle
drop_entry i len s = do
  let last_index = len - 1
  moved ←
      (if ltb i last_index
        then (do
          last ← expect (lookup last_index s.publisher_list) publisher_list_corrupt
          ok (insert i last s.publisher_list))
        else ok s.publisher_list)
  ok (record s { publisher_list = erase last_index moved; publisher_list_len = some last_index })

-- The loop over `i in 0..len`, with the rounds that are left.
unfoldable pub remove_loop : ℕ → ℕ → ℕ → Address → Oracle → Result Oracle
remove_loop zero i len publisher s = ok s
remove_loop (suc rounds) i len publisher s =
    let rest = remove_loop rounds (i + 1) len publisher s in
    expect (lookup i s.publisher_list) publisher_list_corrupt >>= λ stored.
    if stored == publisher then drop_entry i len s else rest

unfoldable pub remove_from_publisher_list : Address → Oracle → Result Oracle
remove_from_publisher_list publisher s = remove_loop (list_len s) 0 (list_len s) publisher s

unfoldable pub add_publisher : Env → Address → Oracle → Result Oracle
add_publisher e publisher s = do
  require_admin e s.admin
  listed ←
      append_publisher_list publisher (record s { publishers = insert publisher true s.publishers })
  ok (record listed { events = add_publisher_event publisher ∷ listed.events })

unfoldable pub remove_publisher : Env → Address → Oracle → Result Oracle
remove_publisher e publisher s = do
  require_admin e s.admin
  remove_from_publisher_list publisher (record s { publishers = erase publisher s.publishers })

unfoldable pub is_publisher : Address → Oracle → Bool
is_publisher publisher s = unwrap_or (lookup publisher s.publishers) false

unfoldable pub set_asset_config : Env → Symbol → ℕ → ℕ → Oracle → Result Oracle
set_asset_config e asset heartbeat min_publishers s = do
  require_admin e s.admin
  panic_if (min_publishers == 0) min_publishers_zero
  let cfg : AssetConfig = record {
    asset = asset;
    heartbeat = heartbeat;
    min_publishers = min_publishers;
  }
  ok (record s { asset_configs = insert asset cfg s.asset_configs })

unfoldable pub set_price : Env → Address → Symbol → ℤ → Oracle → Result Oracle
set_price e publisher asset price s = do
  require_auth e publisher
  require (unwrap_or (lookup publisher s.publishers) false) not_a_publisher
  require_positive price price_not_positive
  ok (record s {
    publisher_prices = insert (asset, publisher) price s.publisher_prices;
    publisher_updated = insert (asset, publisher) e.sequence s.publisher_updated;
    events = price_event asset price publisher ∷ s.events;
  })

-- `now.saturating_sub(updated) <= ttl`
unfoldable pub is_fresh : ℕ → ℕ → Symbol → Address → Oracle → Bool
is_fresh now ttl asset publisher s =
    leb (now - unwrap_or (lookup (asset, publisher) s.publisher_updated) 0) ttl

abbrev pub effective_ttl : AssetConfig → ℕ
effective_ttl cfg = max_u32 cfg.heartbeat default_ttl

unfoldable pub count_loop : ℕ → ℕ → ℕ → ℕ → Symbol → Oracle → ℕ → Result ℕ
count_loop zero i now ttl asset s count = ok count
count_loop (suc rounds) i now ttl asset s count =
    expect (lookup i s.publisher_list) publisher_list_corrupt >>= λ publisher.
    (if is_fresh now ttl asset publisher s then add_u32 count 1 else ok count) >>= λ count'.
    count_loop rounds (i + 1) now ttl asset s count'

unfoldable pub publisher_count : Env → Symbol → Oracle → Result ℕ
publisher_count e asset s = do
  cfg ← expect (lookup asset s.asset_configs) asset_not_configured
  count_loop (list_len s) 0 e.sequence (effective_ttl cfg) asset s 0

-- One report: the price of a fresh publisher, if it is positive.
unfoldable pub report : ℕ → ℕ → Symbol → Address → Oracle → Option ℤ
report now ttl asset publisher s =
    let price = amount_at (asset, publisher) s.publisher_prices in
    if is_fresh now ttl asset publisher s
    then (if ltb_ℤ (pos 0) price then some price else none)
    else none

-- `prices[count] = price; count += 1` on an array of 16.
unfoldable pub push_price : Option ℤ → List ℤ → Result (List ℤ)
push_price none prices = ok prices
push_price (some price) prices =
    if ltb (length prices) max_reports then ok (prices ++ price ∷ []) else err index_out_of_bounds

-- The first loop of `collect_median`; `prices` is the filled part of the array.
unfoldable pub collect_loop : ℕ → ℕ → ℕ → ℕ → Symbol → Oracle → List ℤ → Result (List ℤ)
collect_loop zero i now ttl asset s prices = ok prices
collect_loop (suc rounds) i now ttl asset s prices =
    expect (lookup i s.publisher_list) publisher_list_corrupt >>= λ publisher.
    push_price (report now ttl asset publisher s) prices >>= λ prices'.
    collect_loop rounds (i + 1) now ttl asset s prices'

-- The inner loop of the sort: `x` is `prices[i]`, and the list is `prices[i + 1..count]`.
unfoldable pub exchange : ℤ → List ℤ → ℤ × List ℤ
exchange x [] = (x, [])
exchange x (y ∷ ys) =
    let (smallest, rest) = exchange (if ltb_ℤ y x then y else x) ys in
    (smallest, (if ltb_ℤ y x then x else y) ∷ rest)

-- The outer loop, with the rounds that are left; the list is `prices[i..count]`.
unfoldable pub exchange_sort : ℕ → List ℤ → List ℤ
exchange_sort zero xs = xs
exchange_sort (suc rounds) [] = []
exchange_sort (suc rounds) (x ∷ xs) =
    let (smallest, rest) = exchange x xs in smallest ∷ exchange_sort rounds rest

unfoldable pub median : List ℤ → Result ℤ
median prices = do
  let sorted = exchange_sort (length prices) prices
  last ← sub_u32 (length prices) 1
  expect (get_elem? sorted (last / 2)) index_out_of_bounds

unfoldable pub collect_median : AssetConfig → ℕ → ℕ → Oracle → Result ℤ
collect_median cfg ttl now s = do
  prices ← collect_loop (list_len s) 0 now ttl cfg.asset s []
  panic_if (ltb (length prices) cfg.min_publishers) insufficient_reports
  median prices

unfoldable pub get_price : Env → Symbol → Oracle → Result ℤ
get_price e asset s = do
  cfg ← expect (lookup asset s.asset_configs) asset_not_configured
  collect_median cfg (effective_ttl cfg) e.sequence s

-- `publisher_by_index`
unfoldable pub publisher_by_index : ℕ → Oracle → Option Address
publisher_by_index idx s = if leb (list_len s) idx then none else lookup idx s.publisher_list

unfoldable pub peek_loop : ℕ → ℕ → ℕ → ℕ → Symbol → Oracle → Option ℤ
peek_loop zero i now ttl asset s = none
peek_loop (suc rounds) i now ttl asset s =
    let rest = peek_loop rounds (i + 1) now ttl asset s in
    elim (publisher_by_index i s) [
      | none ↦ rest
      | some publisher ↦ elim (report now ttl asset publisher s) [
        | none ↦ rest
        | some price ↦ some price
      ]
    ]

unfoldable pub peek_price : Env → Symbol → Oracle → Option ℤ
peek_price e asset s =
    let fallback : AssetConfig = record {
      asset = asset;
      heartbeat = default_ttl;
      min_publishers = 1;
    } in
    let cfg = unwrap_or (lookup asset s.asset_configs) fallback in
    peek_loop 16 0 e.sequence (effective_ttl cfg) asset s

unfoldable pub value_of : Env → Symbol → ℤ → Oracle → Result ℤ
value_of e asset amount s = do
  price ← get_price e asset s
  scaled ← mul_i128 amount price
  div_i128 scaled (pos 10_000_000)
