-- ===== src/ShardRouter/Names.antt =====
-- Different pairs of indices have different tables.
use cpp_url_shortener.ShardRouter.{ShardRouter, route_at, format_name, qualified}
use cpp_url_shortener.Common.{
  ℕ, ◌≡◌, refl, sym, ap, ◌∙◌, inl, inr, [], ◌∷◌, ◌++◌, append_assoc, arith, ltb, if◌then◌else◌,
  Bool-cases, length, get_or, drop, All, Bytes, decimal_value, to_string, IsDigit,
  decimal_value-to_string,
}

-- Digits end at the first byte that is none, so they and what follows them are read back.
digits_end :
    (xs ys : Bytes) (s t : Bytes)
    → All IsDigit xs
    → All IsDigit ys
    → xs ++ b'`' ∷ s ≡ ys ++ b'`' ∷ t
    → (xs ≡ ys) × (s ≡ t)
digits_end [] [] s t h k e = (refl, tail_eq e)
  where
    tail_eq : {c : ℕ} {s t : Bytes} → c ∷ s ≡ c ∷ t → s ≡ t
    tail_eq e = ap (drop 1) e
digits_end [] (y ∷ ys) s t h k e =
    absurd (let heads = ap (λ (l : Bytes). get_or l 0 0) e in omega arith)
digits_end (x ∷ xs) [] s t h k e =
    absurd (let heads = ap (λ (l : Bytes). get_or l 0 0) e in omega arith)
digits_end (x ∷ xs) (y ∷ ys) s t h k e =
    let heads = ap (λ (l : Bytes). get_or l 0 0) e in
    let (same, rest) = digits_end xs ys s t h.1 k.1 (ap (drop 1) e) in (cc (heads, same), rest)

append_cancel : (p : Bytes) {s t : Bytes} → p ++ s ≡ p ++ t → s ≡ t
append_cancel [] e = e
append_cancel (c ∷ p) e = append_cancel p (ap (drop 1) e)

padded : ℕ → Bytes
padded index =
    let digits = to_string index in if ltb (length digits) 2 then b'0' ∷ digits else digits

format_name_lem : (prefix : Bytes) (index : ℕ) → format_name prefix index ≡ prefix ++ padded index
unfolding format_name padded
format_name_lem prefix index = ground arith

padded_lem : (index : ℕ) → All IsDigit (padded index) × (decimal_value 0 (padded index) ≡ index)
unfolding padded decimal_value
padded_lem index =
    let (value, digits) = decimal_value-to_string index in
    elim (Bool-cases (ltb (length (to_string index)) 2)) [
      | inl short ↦ rw short ((omega arith, digits), value)
      | inr long ↦ rw long (digits, value)
    ]

padded_injective : (i j : ℕ) → padded i ≡ padded j → i ≡ j
padded_injective i j e =
    let a = (padded_lem i).1 in let b = (padded_lem j).1 in cc (a, b, ap (decimal_value 0) e)

-- The qualified name with the numbers at its ends.
split_name :
    (p q : Bytes) (db table : ℕ)
    → qualified (format_name p db) (format_name q table)
      ≡ b'`' ∷ (p ++ (padded db ++ b'`' ∷ b'.' ∷ b'`' ∷ (q ++ (padded table ++ b'`' ∷ []))))
unfolding qualified
split_name p q db table = rw (format_name_lem p db, format_name_lem q table) (simp append_assoc)

-- Two routes with one qualified table have the same indices, whatever the prefixes are.
pub qualified_table_injective :
    (r : ShardRouter) (db table db' table' : ℕ)
    → (route_at r db table).qualified_table ≡ (route_at r db' table').qualified_table
    → (db ≡ db') × (table ≡ table')
unfolding route_at
qualified_table_injective r db table db' table' e =
    let p = r.database_prefix in
    let q = r.table_prefix in
    let whole =
      append_cancel p
        (ap (drop 1) (sym (split_name p q db table) ∙ e ∙ split_name p q db' table')) in
    let (front, rest) = digits_end _ _ _ _ (padded_lem db).0 (padded_lem db').0 whole in
    let (back, _) =
      digits_end _ _ _ _ (padded_lem table).0 (padded_lem table').0
        (append_cancel q (ap (drop 2) rest)) in
    (padded_injective db db' front, padded_injective table table' back)
