-- ===== src/Record/Canonical.antt =====
-- `decode` accepts nothing but what `encode` writes.
use lsm_storage_engine.Common.{
  ℕ, suc, ◌+◌, ◌-◌, ◌%◌, ◌^◌, ◌≤◌, ◌<◌, ◌≡◌, refl, ap, arith, [], ◌∷◌, ◌++◌, length, slice, drop,
  take, ltb, ◌==◌, ◌∙◌, not, ◌||◌, true, false, All, take-append-drop, length-take, length-drop,
  take_all, drop-append_ge, Bool,
}
use lsm_storage_engine.Common.Bytes.{Bytes, IsByte}
use lsm_storage_engine.Error.{
  Error, Result, ok, corrupted_record, invalid_checksum, reject_if, ◌>>◌,
}
use lsm_storage_engine.Crc.{crc32, u32_le, read_u32_le}
use lsm_storage_engine.Crc.LittleEndian.{u32_le-read_u32_le}
use lsm_storage_engine.Record.RoundTrip.{encode_cases}
use lsm_storage_engine.Record.{
  Operation, max_key_size, max_value_size, encode_body, build_record, encode, decode,
  decode_operation, key_of, value_of, record_type,
}

-- A chain of four guards that ends well has passed each of them.
guards_pass {ℓ} :
    {A : Type ℓ} (p q r s : Bool) (d e f g : Error) (m : Result A) {a : A}
    → (reject_if p d >> (reject_if q e >> (reject_if r f >> (reject_if s g >> m)))) ≡ ok a
    → (p ≡ false) × (q ≡ false) × (r ≡ false) × (s ≡ false) × (m ≡ ok a)
guards_pass false false false false d e f g m h = (refl, refl, refl, refl, h)
guards_pass true _ _ _ d e f g m h = cc
guards_pass false true _ _ d e f g m h = cc
guards_pass false false true _ d e f g m h = cc
guards_pass false false false true d e f g m h = cc

decode_operation-eq-ok :
    (kind : ℕ) (key value : Bytes) (operation : Operation)
    → decode_operation kind key value (length value) ≡ ok operation
    → (record_type operation ≡ kind) × (key_of operation ≡ key) × (value_of operation ≡ value)
unfolding decode_operation
decode_operation-eq-ok kind key [] operation h = ground arith
decode_operation-eq-ok kind key (x ∷ value) operation h = ground arith

split_payload :
    (k v : ℕ) (payload : Bytes)
    → length payload ≡ k + v
    → (take k payload ++ take v (drop k payload) ≡ payload)
      × (length (take k payload) ≡ k)
      × (length (take v (drop k payload)) ≡ v)
split_payload k v payload h =
    (rw whole (take-append-drop k payload), omega (arith, length-take k payload), rw whole rest)
  where
    rest : length (drop k payload) ≡ v
    rest = omega (arith, length-drop k payload)

    whole : take v (drop k payload) ≡ drop k payload
    whole = rw (← rest) (take_all (drop k payload))

module _ (kind k0 k1 k2 k3 v0 v1 v2 v3 : ℕ) (payload : Bytes) where
  abbrev header : Bytes
  header = kind ∷ k0 ∷ k1 ∷ k2 ∷ k3 ∷ v0 ∷ v1 ∷ v2 ∷ v3 ∷ []

  slice_key : (k : ℕ) → slice 9 (9 + k) (header ++ payload) ≡ take k payload
  slice_key k = rw len
    where
      len : 9 + k - 9 ≡ k
      len = omega arith

  slice_value : (k v : ℕ) → slice (9 + k) (9 + k + v) (header ++ payload) ≡ take v (drop k payload)
  slice_value k v = rw (len, drop-append_ge k header payload)
    where
      len : 9 + k + v - (9 + k) ≡ v
      len = omega arith

  module _ (c0 c1 c2 c3 : ℕ) where
    abbrev k_len : ℕ
    k_len = read_u32_le (k0 ∷ k1 ∷ k2 ∷ k3 ∷ [])

    abbrev v_len : ℕ
    v_len = read_u32_le (v0 ∷ v1 ∷ v2 ∷ v3 ∷ [])

    -- What an accepted record of at least a header's length satisfies.
    decode_facts :
        (operation : Operation)
        → decode (c0 ∷ c1 ∷ c2 ∷ c3 ∷ (header ++ payload)) ≡ ok operation
        → (k_len ≤ max_key_size)
          × (v_len ≤ max_value_size)
          × (length payload ≡ k_len + v_len)
          × (crc32 (header ++ payload) ≡ read_u32_le (c0 ∷ c1 ∷ c2 ∷ c3 ∷ []))
          × (decode_operation kind
                (slice 9 (9 + k_len) (header ++ payload))
                (slice (9 + k_len) (9 + k_len + v_len) (header ++ payload))
                v_len
              ≡ ok operation)
    unfolding decode
    decode_facts operation h =
        let (long, small, exact, check, result) =
          guards_pass (ltb (length (c0 ∷ c1 ∷ c2 ∷ c3 ∷ (header ++ payload))) 13)
            (ltb max_key_size k_len || ltb max_value_size v_len)
            (not (length (header ++ payload) == 9 + k_len + v_len))
            (not (crc32 (header ++ payload) == read_u32_le (c0 ∷ c1 ∷ c2 ∷ c3 ∷ [])))
            corrupted_record corrupted_record corrupted_record invalid_checksum
            (decode_operation kind (slice 9 (9 + k_len) (header ++ payload))
              (slice (9 + k_len) (9 + k_len + v_len) (header ++ payload)) v_len)
            h in
        (
          or_key small,
          or_value small,
          equal (length payload) k_len v_len exact,
          same _ _ check,
          result,
        )
      where
        or_key : (ltb max_key_size k_len || ltb max_value_size v_len) ≡ false → k_len ≤ max_key_size
        or_key e = ground arith

        or_value :
            (ltb max_key_size k_len || ltb max_value_size v_len) ≡ false → v_len ≤ max_value_size
        or_value e = ground arith

        equal :
            (a k v : ℕ)
            → not (suc (suc (suc (suc (suc (suc (suc (suc (suc a)))))))) == 9 + k + v) ≡ false
            → a ≡ k + v
        equal a k v e = ground arith

        same : (a b : ℕ) → not (a == b) ≡ false → a ≡ b
        same a b e = ground arith

rebuild :
    (operation : Operation) (kind : ℕ) (key value : Bytes)
    → record_type operation ≡ kind
    → key_of operation ≡ key
    → value_of operation ≡ value
    → length key ≤ max_key_size
    → length value ≤ max_value_size
    → encode operation ≡ ok (build_record kind key value)
rebuild operation kind key value e_kind e_key e_value hk hv =
    encode_cases operation ∙ rw (e_kind, e_key, e_value) (ground arith)

four_bytes :
    (a b c d n : ℕ)
    → a < 256
    → b < 256
    → c < 256
    → d < 256
    → n ≡ read_u32_le (a ∷ b ∷ c ∷ d ∷ [])
    → u32_le (n % 2 ^ 32) ≡ a ∷ b ∷ c ∷ d ∷ []
four_bytes a b c d n ha hb hc hd e =
    rw e (ap u32_le (omega arith) ∙ u32_le-read_u32_le a b c d ha hb hc hd)

rebuilt :
    (c0 c1 c2 c3 kind k0 k1 k2 k3 v0 v1 v2 v3 : ℕ) (key value payload : Bytes)
    → All IsByte (c0 ∷ c1 ∷ c2 ∷ c3 ∷ kind ∷ k0 ∷ k1 ∷ k2 ∷ k3 ∷ v0 ∷ v1 ∷ v2 ∷ v3 ∷ payload)
    → length key ≡ read_u32_le (k0 ∷ k1 ∷ k2 ∷ k3 ∷ [])
    → length value ≡ read_u32_le (v0 ∷ v1 ∷ v2 ∷ v3 ∷ [])
    → key ++ value ≡ payload
    → crc32 (kind ∷ k0 ∷ k1 ∷ k2 ∷ k3 ∷ v0 ∷ v1 ∷ v2 ∷ v3 ∷ payload)
      ≡ read_u32_le (c0 ∷ c1 ∷ c2 ∷ c3 ∷ [])
    → build_record kind key value
      ≡ c0 ∷ c1 ∷ c2 ∷ c3 ∷ kind ∷ k0 ∷ k1 ∷ k2 ∷ k3 ∷ v0 ∷ v1 ∷ v2 ∷ v3 ∷ payload
unfolding build_record
rebuilt c0 c1 c2 c3 kind k0 k1 k2 k3 v0 v1 v2 v3 key value payload range hk hv parts check =
    let body_eq : encode_body kind key value
        ≡ kind ∷ k0 ∷ k1 ∷ k2 ∷ k3 ∷ v0 ∷ v1 ∷ v2 ∷ v3 ∷ payload =
      cc (
        four_bytes k0 k1 k2 k3 (length key) (omega arith) (omega arith) (omega arith) (omega arith)
            hk,
        four_bytes v0 v1 v2 v3 (length value) (omega arith) (omega arith) (omega arith)
            (omega arith) hv,
        parts,
      ) in
    ap (λ b. u32_le (crc32 b) ++ b) body_eq
    ∙ ap (λ c. c ++ (kind ∷ k0 ∷ k1 ∷ k2 ∷ k3 ∷ v0 ∷ v1 ∷ v2 ∷ v3 ∷ payload))
        (ap u32_le check
          ∙ u32_le-read_u32_le c0 c1 c2 c3 (omega arith) (omega arith) (omega arith) (omega arith))

encode-header :
    (c0 c1 c2 c3 kind k0 k1 k2 k3 v0 v1 v2 v3 : ℕ) (payload : Bytes) (operation : Operation)
    → All IsByte (c0 ∷ c1 ∷ c2 ∷ c3 ∷ kind ∷ k0 ∷ k1 ∷ k2 ∷ k3 ∷ v0 ∷ v1 ∷ v2 ∷ v3 ∷ payload)
    → decode (c0 ∷ c1 ∷ c2 ∷ c3 ∷ kind ∷ k0 ∷ k1 ∷ k2 ∷ k3 ∷ v0 ∷ v1 ∷ v2 ∷ v3 ∷ payload)
      ≡ ok operation
    → encode operation
      ≡ ok (c0 ∷ c1 ∷ c2 ∷ c3 ∷ kind ∷ k0 ∷ k1 ∷ k2 ∷ k3 ∷ v0 ∷ v1 ∷ v2 ∷ v3 ∷ payload)
unfolding build_record
encode-header c0 c1 c2 c3 kind k0 k1 k2 k3 v0 v1 v2 v3 payload operation range h =
    let k : ℕ = read_u32_le (k0 ∷ k1 ∷ k2 ∷ k3 ∷ []) in
    let v : ℕ = read_u32_le (v0 ∷ v1 ∷ v2 ∷ v3 ∷ []) in
    let (hk, hv, fits, check, result) =
      decode_facts kind k0 k1 k2 k3 v0 v1 v2 v3 payload c0 c1 c2 c3 operation h in
    let (parts, key_len, value_len) = split_payload k v payload fits in
    let (e_kind, e_key, e_value) =
      decode_operation-eq-ok kind (take k payload) (take v (drop k payload)) operation (
        rw
          (
            value_len,
            ← slice_key kind k0 k1 k2 k3 v0 v1 v2 v3 payload k,
            ← slice_value kind k0 k1 k2 k3 v0 v1 v2 v3 payload k v,
          )
          result) in
    rebuild operation kind (take k payload) (take v (drop k payload)) e_kind e_key e_value
      (rw key_len hk) (rw value_len hv)
    ∙ ap ok (
        rebuilt c0 c1 c2 c3 kind k0 k1 k2 k3 v0 v1 v2 v3 (take k payload) (take v (drop k payload))
          payload range key_len value_len parts check)

-- Every input of bytes that `decode` accepts is the one encoding of the operation it returns.
pub encode-decode :
    (bytes : Bytes) (operation : Operation)
    → All IsByte bytes
    → decode bytes ≡ ok operation
    → encode operation ≡ ok bytes
unfolding decode
encode-decode (c0 ∷ c1 ∷ c2 ∷ c3 ∷ kind ∷ k0 ∷ k1 ∷ k2 ∷ k3 ∷ v0 ∷ v1 ∷ v2 ∷ v3 ∷ payload) operation
      range h =
    encode-header c0 c1 c2 c3 kind k0 k1 k2 k3 v0 v1 v2 v3 payload operation range h
encode-decode _ operation range h = cc
