-- ===== src/Oracle/Publishers.antt =====
-- The stored list of publishers stays whole: every index below its length has an entry.
use de_fi_lending_stellar_pa.Prelude.{
  ℕ, zero, suc, ◌+◌, ◌-◌, ◌≤◌, ◌<◌, ◌≡◌, refl, true, some, List, arith, ltb, ◌==◌, subst,
  nat_equality, Bool-cases, Option-cases, inl, inr,
}
use de_fi_lending_stellar_pa.Int.{ℤ}
use de_fi_lending_stellar_pa.Map.{Map, lookup, insert, erase, lookup-insert, lookup-erase}
use de_fi_lending_stellar_pa.Soroban.{
  Address, Symbol, Result, ok, Env, is_some, authorized, run, run_invariant,
}
use de_fi_lending_stellar_pa.Oracle.{
  Oracle, deployed, list_len, initialize, append_publisher_list, drop_entry, remove_loop,
  remove_from_publisher_list, add_publisher, remove_publisher, set_asset_config, set_price,
}

-- Entries `0` to `n - 1` are there.
abbrev pub IsWhole : ℕ → Map ℕ Address → Type 0
IsWhole n l = (i : ℕ) → i < n → is_some (lookup i l) ≡ true

pub record IsListed (s : Oracle) : Type 0 where
  pub whole : IsWhole (list_len s) s.publisher_list

IsWhole-insert :
    (n : ℕ) (a : Address) (l : Map ℕ Address) → IsWhole n l → IsWhole (n + 1) (insert n a l)
IsWhole-insert n a l w i h = ground (arith, lookup-insert n i a l, w i)

IsWhole-replace :
    (n k : ℕ) (a : Address) (l : Map ℕ Address) → IsWhole n l → IsWhole n (insert k a l)
IsWhole-replace n k a l w i h = ground (arith, lookup-insert k i a l, w i)

IsWhole-erase : (n : ℕ) (l : Map ℕ Address) → IsWhole n l → IsWhole (n - 1) (erase (n - 1) l)
IsWhole-erase n l w i h = ground (arith, lookup-erase (n - 1) i l, w i)

append-IsListed :
    (a : Address) (s s' : Oracle) → IsListed s → append_publisher_list a s ≡ ok s' → IsListed s'
unfolding append_publisher_list
append-IsListed a s s' v h =
    let l : s'.publisher_list ≡ insert (list_len s) a s.publisher_list = ground arith in
    let n : list_len s' ≡ list_len s + 1 = ground arith in
    record { whole = rw (l, n) (IsWhole-insert (list_len s) a s.publisher_list v.whole) }

drop_entry-IsListed :
    (i : ℕ) (s s' : Oracle) → IsListed s → drop_entry i (list_len s) s ≡ ok s' → IsListed s'
unfolding drop_entry
drop_entry-IsListed i s s' v h =
    let n = list_len s in
    let len : list_len s' ≡ n - 1 = ground arith in
    elim (Bool-cases (ltb i (n - 1))) [
      | inl inner ↦ elim (Option-cases (lookup (n - 1) s.publisher_list)) [
        | inl missing ↦ absurd (ground arith)
        | inr (a, e) ↦
            let l : s'.publisher_list ≡ erase (n - 1) (insert i a s.publisher_list) =
              ground arith in
            record {
              whole =
                  rw (l, len) (IsWhole-erase n _ (IsWhole-replace n i a s.publisher_list v.whole));
            }
      ]
      | inr at_end ↦
          let l : s'.publisher_list ≡ erase (n - 1) s.publisher_list = ground arith in
          record { whole = rw (l, len) (IsWhole-erase n s.publisher_list v.whole) }
    ]

remove_loop-IsListed :
    (rounds i : ℕ) (a : Address) (s s' : Oracle)
    → IsListed s
    → remove_loop rounds i (list_len s) a s ≡ ok s'
    → IsListed s'
unfolding remove_loop
remove_loop-IsListed zero i a s s' v h = subst IsListed (ground arith) v
remove_loop-IsListed (suc r) i a s s' v h = elim (Option-cases (lookup i s.publisher_list)) [
  | inl missing ↦ absurd (ground arith)
  | inr (b, e) ↦ elim (Bool-cases (b == a)) [
    | inl found ↦ drop_entry-IsListed i s s' v (ground arith)
    | inr other ↦ remove_loop-IsListed r (i + 1) a s s' v (ground arith)
  ]
]

drop_entry_total :
    (i : ℕ) (s : Oracle)
    → IsListed s
    → 0 < list_len s
    → (s' : Oracle) × (drop_entry i (list_len s) s ≡ ok s')
unfolding drop_entry
drop_entry_total i s v h =
    let n = list_len s in
    let last_there = v.whole (n - 1) (omega arith) in
    elim (Bool-cases (ltb i (n - 1))) [
      | inl inner ↦ elim (Option-cases (lookup (n - 1) s.publisher_list)) [
        | inl missing ↦ absurd (ground arith)
        | inr (a, e) ↦ (
          record s {
            publisher_list = erase (n - 1) (insert i a s.publisher_list);
            publisher_list_len = some (n - 1);
          },
          ground arith,
        )
      ]
      | inr at_end ↦ (
        record s {
          publisher_list = erase (n - 1) s.publisher_list;
          publisher_list_len = some (n - 1);
        },
        ground arith,
      )
    ]

remove_loop_total :
    (rounds i : ℕ) (a : Address) (s : Oracle)
    → IsListed s
    → rounds + i ≤ list_len s
    → (s' : Oracle) × (remove_loop rounds i (list_len s) a s ≡ ok s')
unfolding remove_loop
remove_loop_total zero i a s v h = (s, refl)
remove_loop_total (suc r) i a s v h = elim (Option-cases (lookup i s.publisher_list)) [
  | inl missing ↦ absurd (ground (arith, v.whole i (omega arith)))
  | inr (b, e) ↦ elim (Bool-cases (b == a)) [
    | inl found ↦ let (s', done) = drop_entry_total i s v (omega arith) in (s', ground arith)
    | inr other ↦
        let (s', done) = remove_loop_total r (i + 1) a s v (omega arith) in (s', ground arith)
  ]
]

module _ (e : Env) (s s' : Oracle) (v : IsListed s) where
  IsListed-same :
      s'.publisher_list ≡ s.publisher_list
      → s'.publisher_list_len ≡ s.publisher_list_len
      → IsListed s'
  IsListed-same l n = record { whole = rw (l, n) v.whole }

  initialize-IsListed : (a : Address) → initialize e a s ≡ ok s' → IsListed s'
  unfolding initialize
  initialize-IsListed a h = IsListed-same (ground arith) (ground arith)

  set_asset_config-IsListed :
      (x : Symbol) (beat least : ℕ) → set_asset_config e x beat least s ≡ ok s' → IsListed s'
  unfolding set_asset_config
  set_asset_config-IsListed x beat least h = IsListed-same (ground arith) (ground arith)

  set_price-IsListed :
      (a : Address) (x : Symbol) (p : ℤ) → set_price e a x p s ≡ ok s' → IsListed s'
  unfolding set_price
  set_price-IsListed a x p h = IsListed-same (ground arith) (ground arith)

  add_publisher-IsListed : (a : Address) → add_publisher e a s ≡ ok s' → IsListed s'
  unfolding add_publisher append_publisher_list
  add_publisher-IsListed a h =
      let l : s'.publisher_list ≡ insert (list_len s) a s.publisher_list = ground arith in
      let n : list_len s' ≡ list_len s + 1 = ground arith in
      record { whole = rw (l, n) (IsWhole-insert (list_len s) a s.publisher_list v.whole) }

  remove_publisher-IsListed : (a : Address) → remove_publisher e a s ≡ ok s' → IsListed s'
  unfolding remove_publisher remove_from_publisher_list
  remove_publisher-IsListed a h =
      let t : Oracle = record s { publishers = erase a s.publishers } in
      remove_loop-IsListed (list_len s) 0 a t s' (record { whole = v.whole }) (ground arith)

-- The entry points that change the storage.
pub data Op : Type 0 where
  initialize_op add_publisher_op remove_publisher_op : Address → Op
  set_asset_config_op : Symbol → ℕ → ℕ → Op
  set_price_op : Address → Symbol → ℤ → Op

unfoldable pub invoke : Env → Op → Oracle → Result Oracle
invoke e (initialize_op a) s = initialize e a s
invoke e (add_publisher_op a) s = add_publisher e a s
invoke e (remove_publisher_op a) s = remove_publisher e a s
invoke e (set_asset_config_op x beat least) s = set_asset_config e x beat least s
invoke e (set_price_op a x p) s = set_price e a x p s

invoke-IsListed :
    (e : Env) (op : Op) (s s' : Oracle) → IsListed s → invoke e op s ≡ ok s' → IsListed s'
unfolding invoke
invoke-IsListed e (initialize_op a) s s' v h = initialize-IsListed e s s' v a h
invoke-IsListed e (add_publisher_op a) s s' v h = add_publisher-IsListed e s s' v a h
invoke-IsListed e (remove_publisher_op a) s s' v h = remove_publisher-IsListed e s s' v a h
invoke-IsListed e (set_asset_config_op x b l) s s' v h = set_asset_config-IsListed e s s' v x b l h
invoke-IsListed e (set_price_op a x p) s s' v h = set_price-IsListed e s s' v a x p h

pub history-IsListed : (calls : List (Env × Op)) → IsListed (run invoke calls deployed)
history-IsListed calls =
    run_invariant invoke IsListed invoke-IsListed calls deployed
      (record { whole = λ i h. absurd (omega arith) })

-- However the oracle has been called since its deployment, the list of publishers has an entry at
-- every index below its length, so whenever the admin authorises a removal it goes through: no
-- index of the list is missing, whoever is removed.
pub remove_publisher_total :
    (calls : List (Env × Op)) (e : Env) (admin publisher : Address)
    → (run invoke calls deployed).admin ≡ some admin
    → authorized e admin ≡ true
    → IsListed (run invoke calls deployed)
      × (s' : Oracle) × (remove_publisher e publisher (run invoke calls deployed) ≡ ok s')
unfolding remove_publisher remove_from_publisher_list
remove_publisher_total calls e admin publisher stored signed =
    let s = run invoke calls deployed in
    let v = history-IsListed calls in
    let t : Oracle = record s { publishers = erase publisher s.publishers } in
    let (s', done) =
      remove_loop_total (list_len s) 0 publisher t (record { whole = v.whole }) (omega arith) in
    (v, s', ground arith)
