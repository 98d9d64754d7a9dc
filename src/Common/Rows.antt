-- ===== src/Common/Rows.antt =====
-- Tables as lists of rows with a text for a key: SELECT by the key and UPDATE ... WHERE.
use Prim.Native.Nat.{ℕ, suc}
use mathlib.Core.Path.{◌≡◌, refl, ap}
use mathlib.Core.Bool.{Bool, false}
use mathlib.Core.Logic.{inl, inr}
use mathlib.Core.List.{List, [], ◌∷◌, ◌++◌, map}
use mathlib.Core.Option.{Option, none, some}
use native.Mathlib.Omega.{arith}
use auto_ze_agent.Common.Tests.{if◌then◌else◌, Bool-cases}
use auto_ze_agent.Common.Lists.{keep_if, length}
use auto_ze_agent.Common.Strings.{Text, text_eq, text_eq_iff}
use auto_ze_agent.Common.Sets.{count_of}

-- What an update makes of one row.
abbrev pub updated_row {ℓ} : {A : Type ℓ} → (A → Bool) → (A → A) → Option A → Option A
updated_row p f none = none
updated_row p f (some r) = some (if p r then f r else r)

-- The new table and the number of rows affected.
unfoldable pub update_rows {ℓ} : {A : Type ℓ} → (A → Bool) → (A → A) → List A → List A × ℕ
update_rows p f [] = ([], 0)
update_rows p f (r ∷ rs) =
    let rest = update_rows p f rs in
    if p r then (f r ∷ rest.0, suc rest.1) else (r ∷ rest.0, rest.1)

module _ {ℓ} {A : Type ℓ} (key : A → Text) where
  unfoldable pub find_row : Text → List A → Option A
  find_row id [] = none
  find_row id (r ∷ rs) = let rest = find_row id rs in if text_eq (key r) id then some r else rest

  pub find_row_key : (id : Text) (rs : List A) (r : A) → find_row id rs ≡ some r → key r ≡ id
  unfolding find_row
  find_row_key id [] r h = absurd (cc)
  find_row_key id (x ∷ rs) r h = elim (Bool-cases (text_eq (key x) id)) [
    | inl e ↦ ground (arith, e, text_eq_iff (key x) id)
    | inr e ↦ find_row_key id rs r (ground (arith, e))
  ]

  -- An update that keeps the keys, seen at one key.
  pub find_row-update_rows :
      (id : Text) (p : A → Bool) (f : A → A) (rs : List A)
      → ((r : A) → key (f r) ≡ key r)
      → find_row id (update_rows p f rs).0 ≡ updated_row p f (find_row id rs)
  unfolding find_row update_rows
  find_row-update_rows id p f [] keeps = refl
  find_row-update_rows id p f (r ∷ rs) keeps =
      let rest = find_row-update_rows id p f rs keeps in
      elim (Bool-cases (p r)) [
        | inl e ↦
            let k = ap (λ i. text_eq i id) (keeps r) in
            elim (Bool-cases (text_eq (key r) id)) [
              | inl h ↦ rw (e, k, h, e) refl
              | inr h ↦ rw (e, k, h) rest
            ]
        | inr e ↦ elim (Bool-cases (text_eq (key r) id)) [
          | inl h ↦ rw (e, h, e) refl
          | inr h ↦ rw (e, h) rest
        ]
      ]

  pub find_row-append :
      (id : Text) (rs ss : List A) (r : A)
      → find_row id rs ≡ some r
      → find_row id (rs ++ ss) ≡ some r
  unfolding find_row
  find_row-append id [] ss r h = absurd (cc)
  find_row-append id (x ∷ rs) ss r h = elim (Bool-cases (text_eq (key x) id)) [
    | inl e ↦ rw e (rw e at h)
    | inr e ↦ rw e (find_row-append id rs ss r (rw e at h))
  ]

  pub count_of-unused :
      (id : Text) (rs : List A) → find_row id rs ≡ none → count_of id (map key rs) ≡ 0
  unfolding count_of find_row
  count_of-unused id [] h = refl
  count_of-unused id (r ∷ rs) h = elim (Bool-cases (text_eq (key r) id)) [
    | inl e ↦ absurd (ground (arith, e))
    | inr e ↦ rw (e, count_of-unused id rs (ground (arith, e))) refl
  ]

  pub keys-append : (rs ss : List A) → map key (rs ++ ss) ≡ map key rs ++ map key ss
  keys-append [] ss = refl
  keys-append (r ∷ rs) ss = ap (◌∷◌ (key r)) (keys-append rs ss)

  pub keys-update_rows :
      (p : A → Bool) (f : A → A) (rs : List A)
      → ((r : A) → key (f r) ≡ key r)
      → map key (update_rows p f rs).0 ≡ map key rs
  unfolding update_rows
  keys-update_rows p f [] keeps = refl
  keys-update_rows p f (r ∷ rs) keeps = elim (Bool-cases (p r)) [
    | inl e ↦ rw (e, keeps r, keys-update_rows p f rs keeps) refl
    | inr e ↦ rw (e, keys-update_rows p f rs keeps) refl
  ]

-- After an update whose result fails the test, no row passes it.
pub update_rows-none {ℓ} :
    {A : Type ℓ} (p : A → Bool) (f : A → A) (rs : List A)
    → ((r : A) → p (f r) ≡ false)
    → (keep_if p (update_rows p f rs).0 ≡ []) × ((update_rows p f rs).1 ≡ length (keep_if p rs))
unfolding update_rows
update_rows-none p f [] fails = (refl, refl)
update_rows-none p f (r ∷ rs) fails =
    let (gone, count) = update_rows-none p f rs fails in
    elim (Bool-cases (p r)) [
      | inl e ↦ (rw (e, fails r) gone, rw e (ap suc count))
      | inr e ↦ (rw e (rw e gone), rw e count)
    ]
