-- ===== src/BlockQueue/Slots.antt =====
-- Where the ring keeps its elements.
use native.Mathlib.Nat.{mod-eq_of_lt, mod_self}
use cpp_url_shortener.BlockQueue.{BlockQueue, next_index, new_queue, clear}
use cpp_url_shortener.Common.{
  ℕ, zero, suc, ◌+◌, ◌-◌, ◌%◌, ◌≤◌, ◌<◌, ◌≡◌, refl, sym, ap, ◌∙◌, ◌≢◌, inl, inr, some, List, [],
  ◌∷◌, ◌++◌, arith, ltb, ◌==◌, if◌then◌else◌, Bool-cases, length, get_elem?, get_or, set,
  length-append, length-set, length-replicate,
}

-- The slot `k` behind `s` in a ring of `m` slots.
abbrev pub offset : ℕ → ℕ → ℕ → ℕ
offset s k m = if ltb (s + k) m then s + k else s + k - m

next_index-some : (i m : ℕ) → i < m → next_index (some i) m ≡ offset i 1 m
unfolding next_index
next_index-some i m lt = elim (Bool-cases (ltb (i + 1) m)) [
  | inl below ↦ rw below (mod-eq_of_lt (ground arith))
  | inr wraps ↦
      let e : i + 1 ≡ m = ground arith in
      let z : i + 1 - m ≡ 0 = omega arith in
      rw wraps (ap (λ (n : ℕ). n % m) e ∙ (mod_self m ∙ sym z))
]

offset-inside : (s n m : ℕ) → s < m → n ≤ m → offset s n m < m
offset-inside s n m i f = ground arith

offset_step : (s n m : ℕ) → s < m → n < m → offset (offset s n m) 1 m ≡ offset s (n + 1) m
offset_step s n m i f = ground arith

offset_ne : (s k n m : ℕ) → s < m → k < n → n < m → offset s n m ≢ offset s k m
offset_ne s k n m i lt f = ground arith

offset_behind : (s k m : ℕ) → s < m → k < m → offset (offset s 1 m) k m ≡ offset s (k + 1) m
offset_behind s k m i f = ground arith

pub offset-none : (s m : ℕ) → s < m → s ≡ offset s 0 m
offset-none s m i = ground arith

module _ {T : Type 0} where
  get_elem?-set_self :
      (xs : List T) (i : ℕ) (v : T) → i < length xs → get_elem? (set xs i v) i ≡ some v
  get_elem?-set_self [] i v lt = absurd (omega arith)
  get_elem?-set_self (x ∷ xs) zero v lt = refl
  get_elem?-set_self (x ∷ xs) (suc i) v lt = get_elem?-set_self xs i v (omega arith)

  get_elem?-set_ne :
      (xs : List T) (i j : ℕ) (v : T) → i ≢ j → get_elem? (set xs i v) j ≡ get_elem? xs j
  get_elem?-set_ne [] i j v ne = refl
  get_elem?-set_ne (x ∷ xs) zero zero v ne = absurd (ne refl)
  get_elem?-set_ne (x ∷ xs) zero (suc j) v ne = refl
  get_elem?-set_ne (x ∷ xs) (suc i) zero v ne = refl
  get_elem?-set_ne (x ∷ xs) (suc i) (suc j) v ne = get_elem?-set_ne xs i j v (λ e. ne (ap suc e))

  get_elem?-append_front :
      (xs ys : List T) (k : ℕ) → k < length xs → get_elem? (xs ++ ys) k ≡ get_elem? xs k
  get_elem?-append_front [] ys k lt = absurd (omega arith)
  get_elem?-append_front (x ∷ xs) ys zero lt = refl
  get_elem?-append_front (x ∷ xs) ys (suc k) lt = get_elem?-append_front xs ys k (omega arith)

  get_elem?-append_last : (xs : List T) (y : T) → get_elem? (xs ++ y ∷ []) (length xs) ≡ some y
  get_elem?-append_last [] y = refl
  get_elem?-append_last (x ∷ xs) y = get_elem?-append_last xs y

  pub get_or-some : (xs : List T) (i : ℕ) (d v : T) → get_elem? xs i ≡ some v → get_or xs i d ≡ v
  get_or-some [] i d v e = absurd (cc)
  get_or-some (x ∷ xs) zero d v e = cc
  get_or-some (x ∷ xs) (suc i) d v e = get_or-some xs i d v e

  -- The ring holds the elements of `xs`, oldest first, from the slot `s` on.
  pub record Holds (q : BlockQueue T) (xs : List T) (s : ℕ) : Type 0 where
    pub array : length q.array ≡ q.max_size
    pub size : q.size ≡ length xs
    pub fits : length xs ≤ q.max_size
    pub inside : s < q.max_size
    pub start : next_index q.front q.max_size ≡ s
    pub end : next_index q.back q.max_size ≡ offset s (length xs) q.max_size
    pub slots : (k : ℕ) → k < length xs → get_elem? q.array (offset s k q.max_size) ≡ get_elem? xs k

  pub new_queue-Holds : (fill : T) (m : ℕ) → 0 < m → Holds (new_queue fill m) [] 0
  unfolding new_queue next_index
  new_queue-Holds fill m room = record {
    array = length-replicate m fill;
    size = refl;
    fits = omega arith;
    inside = room;
    start = mod-eq_of_lt room;
    end = mod-eq_of_lt room ∙ (ground arith);
    slots = λ k lt. absurd (omega arith);
  }

  pub clear-Holds : (q : BlockQueue T) (xs : List T) (s : ℕ) → Holds q xs s → Holds (clear q) [] 0
  unfolding clear next_index
  clear-Holds q xs s v =
      let room : 0 < q.max_size = (let i = v.inside in omega arith) in
      record {
        array = v.array;
        size = refl;
        fits = omega arith;
        inside = room;
        start = mod-eq_of_lt room;
        end = mod-eq_of_lt room ∙ (ground arith);
        slots = λ k lt. absurd (omega arith);
      }

  pub push-Holds :
      (item : T) (q : BlockQueue T) (xs : List T) (s : ℕ)
      → Holds q xs s
      → length xs < q.max_size
      → Holds
          (record q {
            array = set q.array (next_index q.back q.max_size) item;
            size = q.size + 1;
            back = some (next_index q.back q.max_size);
          })
          (xs ++ item ∷ [])
          s
  push-Holds item q xs s v room =
      let m = q.max_size in
      let n = length xs in
      let at = offset s n m in
      let at_end : next_index q.back m ≡ at = v.end in
      let len : length (xs ++ item ∷ []) ≡ n + 1 = length-append xs (item ∷ []) in
      let below : at < m = offset-inside s n m v.inside v.fits in
      record {
        array = length-set q.array (next_index q.back m) item ∙ v.array;
        size = (let sz = v.size in omega arith);
        fits = omega arith;
        inside = v.inside;
        start = v.start;
        end =
            ap (λ (i : ℕ). next_index (some i) m) at_end
            ∙ (next_index-some at m below
                ∙ (offset_step s n m v.inside room ∙ ap (λ (k : ℕ). offset s k m) (sym len)));
        slots = λ k lt.
            ap (λ (i : ℕ). get_elem? (set q.array i item) (offset s k m)) at_end
            ∙ elim (Bool-cases (k == n)) [
              | inl last ↦
                  let e : k ≡ n = ground arith in
                  ap (λ (j : ℕ). get_elem? (set q.array at item) (offset s j m)) e
                  ∙ (get_elem?-set_self q.array at item (omega (arith, v.array))
                      ∙ (sym (get_elem?-append_last xs item)
                          ∙ ap (get_elem? (xs ++ item ∷ [])) (sym e)))
              | inr older ↦
                  let low : k < n = ground arith in
                  get_elem?-set_ne q.array at (offset s k m) item
                    (offset_ne s k n m v.inside low room)
                  ∙ (v.slots k low ∙ sym (get_elem?-append_front xs (item ∷ []) k low))
            ];
      }

  pub pop-Holds :
      (q : BlockQueue T) (x : T) (xs : List T) (s : ℕ)
      → Holds q (x ∷ xs) s
      → Holds
          (record q { size = q.size - 1; front = some (next_index q.front q.max_size) })
          xs
          (offset s 1 q.max_size)
  pop-Holds q x xs s v =
      let m = q.max_size in
      let fits = v.fits in
      let next : next_index (some (next_index q.front m)) m ≡ offset s 1 m =
        ap (λ (i : ℕ). next_index (some i) m) v.start ∙ next_index-some s m v.inside in
      record {
        array = v.array;
        size = (let sz = v.size in omega arith);
        fits = omega arith;
        inside = offset-inside s 1 m v.inside (omega arith);
        start = next;
        end =
            v.end
            ∙ (ap (λ (k : ℕ). offset s k m)
                  (let e : suc (length xs) ≡ length xs + 1 = omega arith in e)
                ∙ sym (offset_behind s (length xs) m v.inside (omega arith)));
        slots = λ k lt.
            ap (get_elem? q.array) (offset_behind s k m v.inside (omega arith))
            ∙ (ap (λ (j : ℕ). get_elem? q.array (offset s j m))
                  (let e : k + 1 ≡ suc k = omega arith in e)
                ∙ v.slots (suc k) (omega arith));
      }
