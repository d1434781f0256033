-- ===== src/Oui/Lookup/Records.antt =====
-- What the search reads at each place of a built index.
use openwrt_grafana_monitor.Prelude.{
  All, List, Option, [], ap, arith, drop, length, none, refl, some, subst, suc, sym, take, zero, ℕ,
  ◌%◌, ◌*◌, ◌++◌, ◌+◌, ◌-◌, ◌/◌, ◌<◌, ◌∙◌, ◌∷◌, ◌≡◌,
}
use openwrt_grafana_monitor.Text.{Text}
use mathlib.Core.Option.{some-injective}
use openwrt_grafana_monitor.Oui.Build.{
  Build, Hit, base36, built, digit36, index_len, join_record, max_vendors, prefix_len, record_len,
  records, slot,
}
use openwrt_grafana_monitor.Oui.Records.{Sound, records-length}
use openwrt_grafana_monitor.Oui.Vendors.{slot-≤}
use openwrt_grafana_monitor.Oui.Lookup.{digit_of, slice, tonumber36, tonumber36_from}
use openwrt_grafana_monitor.Oui.Sorted.{Item}

-- The item at a place, from 0.
abbrev pub item_at : ℕ → List Item → Option Item
item_at n [] = none
item_at zero (i ∷ is) = some i
item_at (suc n) (i ∷ is) = item_at n is

digit_of-digit36 : (r : ℕ) → r < 36 → digit_of (digit36 r) ≡ some r
unfolding digit_of
digit_of-digit36 r h = ground arith

two_digits_read :
    (a b n : ℕ)
    → a < 36
    → b < 36
    → 36 * a + b ≡ n
    → tonumber36 (digit36 a ∷ digit36 b ∷ []) ≡ some n
unfolding tonumber36 tonumber36_from
two_digits_read a b n h k e =
    let whole : 36 * (36 * 0 + a) + b ≡ n = omega (arith, e) in
    rw (digit_of-digit36 a h, digit_of-digit36 b k, whole) refl

-- What `base36` writes for a number below `36 ** INDEX_LEN` is as long as the index has room for, and
-- `tonumber` reads the number back.
pub tonumber36-base36 :
    (n : ℕ)
    → n < max_vendors
    → (out : Text) × (base36 n ≡ built out) × (length out ≡ index_len) × (tonumber36 out ≡ some n)
unfolding base36
tonumber36-base36 n h = (
  digit36 (n / 36 % 36) ∷ digit36 (n % 36) ∷ [],
  ground arith,
  refl,
  two_digits_read (n / 36 % 36) (n % 36) n (omega arith) (omega arith) (omega arith),
)

drop-length : (xs ys : Text) (n : ℕ) → drop (length xs + n) (xs ++ ys) ≡ drop n ys
drop-length [] ys n = ap (λ m. drop m ys) (omega arith)
drop-length (x ∷ xs) ys n =
    let counted : suc (length xs) + n ≡ suc (length xs + n) = omega arith in
    rw counted (drop-length xs ys n)

take-length : (xs ys : Text) → take (length xs) (xs ++ ys) ≡ xs
take-length [] ys = refl
take-length (x ∷ xs) ys = ap (λ t. x ∷ t) (take-length xs ys)

module _ (prefix index more : Text) (six : length prefix ≡ prefix_len)
    (two : length index ≡ index_len) where
  abbrev joined : Text
  joined = prefix ++ (index ++ more)

  first_key : slice 0 prefix_len joined ≡ prefix
  first_key = rw (← six) (take-length prefix (index ++ more))

  first_value : slice prefix_len index_len joined ≡ index
  first_value =
      let here : prefix_len ≡ length prefix + 0 = omega (arith, six) in
      rw here (rw (drop-length prefix (index ++ more) 0) (rw (← two) (take-length index more)))

  next_slice : (m n count : ℕ) → n ≡ record_len + m → slice n count joined ≡ slice m count more
  next_slice m n count e =
      let there : n ≡ length prefix + (length index + m) = omega (arith, six, two, e) in
      rw there
        (rw (drop-length prefix (index ++ more) (length index + m), drop-length index more m) refl)

-- At the place of each item stand its prefix, and the slot of its display.
pub record Reads (out : Text) (vendors : List Text) (n : ℕ) (i : Item) : Type 0 where
  pub key : slice (n * record_len) prefix_len out ≡ i.0
  pub value :
      tonumber36 (slice (n * record_len + prefix_len) (record_len - prefix_len) out)
      ≡ some (slot i.1.0 vendors)

pub built-injective : {A : Type 0} {a b : A} → built a ≡ built b → a ≡ b
built-injective h = cc

join_built :
    (prefix index more : Text) (a b : Build Text) (out : Text)
    → a ≡ built index
    → b ≡ built more
    → join_record prefix a b ≡ built out
    → prefix ++ (index ++ more) ≡ out
join_built prefix index more a b out e f h =
    let step : join_record prefix a b ≡ built (prefix ++ (index ++ more)) = rw (e, f) refl in
    built-injective (sym step ∙ h)

module _ (vendors : List Text) (few : length vendors < max_vendors) where
  -- The first record, and the index behind it.
  first_Reads :
      (prefix : Text) (hit : Hit) (index more : Text)
      → length prefix ≡ prefix_len
      → length index ≡ index_len
      → tonumber36 index ≡ some (slot hit.0 vendors)
      → Reads (prefix ++ (index ++ more)) vendors 0 (prefix, hit)
  first_Reads prefix hit index more six two e = record {
    key = first_key prefix index more six two;
    value = ap tonumber36 (first_value prefix index more six two) ∙ e;
  }

  next_Reads :
      (prefix index more : Text) (n : ℕ) (i : Item)
      → length prefix ≡ prefix_len
      → length index ≡ index_len
      → Reads more vendors n i
      → Reads (prefix ++ (index ++ more)) vendors (suc n) i
  next_Reads prefix index more n i six two r = record {
    key =
        next_slice prefix index more six two (n * record_len) (suc n * record_len) prefix_len
          (omega arith)
        ∙ r.key;
    value =
        ap tonumber36 (
          next_slice prefix index more six two (n * record_len + prefix_len)
            (suc n * record_len + prefix_len) index_len (omega arith))
        ∙ r.value;
  }

  place_Reads :
      (prefix : Text) (hit : Hit) (index more : Text) (items : List Item)
      → length prefix ≡ prefix_len
      → length index ≡ index_len
      → tonumber36 index ≡ some (slot hit.0 vendors)
      → ((n : ℕ) (i : Item) → item_at n items ≡ some i → Reads more vendors n i)
      → (n : ℕ) (i : Item) → item_at n ((prefix, hit) ∷ items) ≡ some i
      → Reads (prefix ++ (index ++ more)) vendors n i
  place_Reads prefix hit index more items six two r rest zero i e =
      subst (Reads (prefix ++ (index ++ more)) vendors 0) (some-injective (prefix, hit) i e)
        (first_Reads prefix hit index more six two r)
  place_Reads prefix hit index more items six two r rest (suc n) i e =
      next_Reads prefix index more n i six two (rest n i e)

  pub records-Reads :
      (items : List Item) (out : Text)
      → All (Sound vendors) items
      → records vendors items ≡ built out
      → (n : ℕ) (i : Item) → item_at n items ≡ some i
      → Reads out vendors n i
  unfolding records
  records-Reads [] out a h n i e = cc
  records-Reads ((prefix, hit) ∷ items) out ((six, c), a) h n i e =
      let near = slot-≤ hit.0 vendors c in
      let (index, w, two, r) = tonumber36-base36 (slot hit.0 vendors) (omega arith) in
      let (more, f, m) = records-length items vendors few a in
      let joined = join_built prefix index more _ _ out w f h in
      subst (λ o. Reads o vendors n i) joined
        (place_Reads prefix hit index more items six two r (records-Reads items more a f) n i e)
