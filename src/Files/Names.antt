-- ===== src/Files/Names.antt =====
-- The names of the table files: different ids have different names, and none is a temporary name.
use lsm_storage_engine.Common.{
  ℕ, zero, suc, ◌+◌, ◌-◌, ◌*◌, ◌/◌, ◌%◌, ◌^◌, ◌<◌, ◌≡◌, ◌≢◌, refl, ap, ◌∙◌, arith, Bool, true,
  false, [], ◌∷◌, ◌++◌, length, replicate, ltb, Bool-cases, inl, inr,
}
use lsm_storage_engine.Common.Bytes.{Bytes, eq_bytes, eq_of_cmp}
use lsm_storage_engine.Files.{FilePath, digits, table_file_name, join, tmp_path}

-- The number that a string of decimal digits shows, behind what was read before.
number_of : ℕ → Bytes → ℕ
number_of n [] = n
number_of n (b ∷ bytes) = number_of (n * 10 + (b - 48)) bytes

number_of-append : (n : ℕ) (xs ys : Bytes) → number_of n (xs ++ ys) ≡ number_of (number_of n xs) ys
unfolding number_of
number_of-append n [] ys = refl
number_of-append n (x ∷ xs) ys = number_of-append (n * 10 + (x - 48)) xs ys

-- So many digits show the numbers below this one.
bound : ℕ → ℕ
bound zero = 1
bound (suc fuel) = 10 * bound fuel

number_of-digits : (fuel n : ℕ) → n < bound fuel → number_of 0 (digits fuel n) ≡ n
unfolding number_of bound digits
number_of-digits zero n h = omega arith
number_of-digits (suc fuel) n h = elim (Bool-cases (ltb n 10)) [
  | inl small ↦ rw small (omega arith)
  | inr large ↦ rw large (
      number_of-append 0 (digits fuel (n / 10)) ((48 + n % 10) ∷ [])
      ∙ omega (arith, number_of-digits fuel (n / 10) (omega arith)))
]

number_of-zeros : (k : ℕ) (xs : Bytes) → number_of 0 (replicate k 48 ++ xs) ≡ number_of 0 xs
unfolding number_of
number_of-zeros zero xs = refl
number_of-zeros (suc k) xs = number_of-zeros k xs

shows : (id : ℕ) → id < 2 ^ 64 → number_of 0 (table_file_name id) ≡ id * 10000 + 7438
unfolding table_file_name number_of bound
shows id h =
    number_of-zeros (6 - length (digits 20 id)) (digits 20 id ++ 46 ∷ 115 ∷ 115 ∷ 116 ∷ [])
    ∙ (number_of-append 0 (digits 20 id) (46 ∷ 115 ∷ 115 ∷ 116 ∷ [])
        ∙ omega (arith, number_of-digits 20 id (omega arith)))

append_cancel : (xs ys zs : Bytes) → xs ++ ys ≡ xs ++ zs → ys ≡ zs
append_cancel [] ys zs e = e
append_cancel (x ∷ xs) ys zs e = append_cancel xs ys zs cc

eq_bytes_of_ne : (a b : Bytes) → a ≢ b → eq_bytes a b ≡ false
eq_bytes_of_ne a b h = go (eq_bytes a b) refl
  where
    go : (o : Bool) → eq_bytes a b ≡ o → eq_bytes a b ≡ false
    go true e = absurd (h (ground (arith, eq_of_cmp a b)))
    go false e = e

-- The paths of two tables of a database differ if their ids do.
pub table_path-differs :
    (path : FilePath) (i j : ℕ)
    → i < 2 ^ 64
    → j < 2 ^ 64
    → i ≢ j
    → eq_bytes (join path (table_file_name i)) (join path (table_file_name j)) ≡ false
unfolding join
table_path-differs path i j hi hj other = eq_bytes_of_ne _ _ (λ e. other (
    omega (
      arith,
      shows i hi,
      shows j hj,
      ap (λ b. number_of 0 b)
          (append_cancel (47 ∷ []) _ _
            (append_cancel path (47 ∷ table_file_name i) (47 ∷ table_file_name j) e)),
    )))

-- The last letter of a table's name, and of a temporary one.
table_path-end :
    (path : FilePath) (i : ℕ)
    → (m : ℕ) × (number_of 0 (join path (table_file_name i)) ≡ m * 10 + 68)
unfolding join table_file_name number_of
table_path-end path i =
    let shown : Bytes = digits 20 i in
    let zeros : Bytes = replicate (6 - length shown) 48 in
    let n : ℕ = number_of (number_of (number_of 0 path) (47 ∷ zeros)) shown in
    (
      number_of n (46 ∷ 115 ∷ 115 ∷ []),
      number_of-append 0 path (47 ∷ (zeros ++ (shown ++ 46 ∷ 115 ∷ 115 ∷ 116 ∷ [])))
          ∙ (number_of-append (number_of 0 path) (47 ∷ zeros) (shown ++ 46 ∷ 115 ∷ 115 ∷ 116 ∷ [])
              ∙ number_of-append (number_of (number_of 0 path) (47 ∷ zeros)) shown
                  (46 ∷ 115 ∷ 115 ∷ 116 ∷ [])),
    )

-- No path of a table is a temporary one.
pub table_path-not_tmp :
    (path : FilePath) (i : ℕ) (other : FilePath)
    → eq_bytes (join path (table_file_name i)) (tmp_path other) ≡ false
unfolding tmp_path
table_path-not_tmp path i other =
    eq_bytes_of_ne (join path (table_file_name i)) (tmp_path other) (λ e.
      let (m, at) = table_path-end path i in
      let after : number_of 0 (tmp_path other)
          ≡ number_of (number_of 0 other) (46 ∷ 116 ∷ 109 ∷ 112 ∷ []) =
        number_of-append 0 other (46 ∷ 116 ∷ 109 ∷ 112 ∷ []) in
      unfold number_of in omega (arith, at, after, ap (λ b. number_of 0 b) e))
