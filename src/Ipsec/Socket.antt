-- ===== src/Ipsec/Socket.antt =====
-- `SadbXPolicy.Encode` of pkg/routing/ipsec/esp_listener.go.
use networking.Prelude.{
  ℕ, ◌+◌, ◌*◌, ◌/◌, ◌%◌, ◌<◌, ◌^◌, Option, none, some, List, [], ◌∷◌, ◌++◌, length, if◌then◌else◌,
  ◌==◌, nat_eq, ◌≡◌, arith,
}

-- The fields that are encoded; `len` is not read.
pub record SadbXPolicy : Type 0 where
  pub ext_type : ℕ
  pub type_of : ℕ
  pub direction : ℕ
  pub reserved : ℕ
  pub policy_id : ℕ
  pub policy_priority : ℕ

-- `binary.LittleEndian.PutUint16` and `PutUint32`
unfoldable pub put_uint16 : ℕ → List ℕ
put_uint16 v = v % 256 ∷ v / 256 % 256 ∷ []

unfoldable pub put_uint32 : ℕ → List ℕ
put_uint32 v = v % 256 ∷ v / 256 % 256 ∷ v / 65536 % 256 ∷ v / 16777216 % 256 ∷ []

-- `Encode`: bytes 6 and 7 are plain bytes.
unfoldable pub encode : SadbXPolicy → List ℕ
encode s =
    put_uint16 2
    ++ put_uint16 s.ext_type
    ++ put_uint16 s.type_of
    ++ (s.direction ∷ s.reserved ∷ [])
    ++ put_uint32 s.policy_id
    ++ put_uint32 s.policy_priority

-- How many bytes the first field says that there are: it counts in units of eight.
unfoldable pub stated_length : List ℕ → ℕ
stated_length (l0 ∷ l1 ∷ rest) = 8 * (l0 + l1 * 256)
stated_length _ = 0

-- The fields of `struct sadb_x_policy` after its length.
unfoldable pub fields : List ℕ → Option SadbXPolicy
fields (l0 ∷ l1 ∷ e0 ∷ e1 ∷ t0 ∷ t1 ∷ d ∷ r ∷ i0 ∷ i1 ∷ i2 ∷ i3 ∷ p0 ∷ p1 ∷ p2 ∷ p3 ∷ []) =
    some (record {
      ext_type = e0 + e1 * 256;
      type_of = t0 + t1 * 256;
      direction = d;
      reserved = r;
      policy_id = i0 + i1 * 256 + i2 * 65536 + i3 * 16777216;
      policy_priority = p0 + p1 * 256 + p2 * 65536 + p3 * 16777216;
    })
fields _ = none

-- What the kernel reads: nothing, if the length that is stated is not that of the bytes.
unfoldable pub decode : List ℕ → Option SadbXPolicy
decode l = let read = fields l in if stated_length l == length l then read else none

-- For fields that fit their types, the encoding states its own length, which is of sixteen bytes,
-- and reading it back gives the same fields.
pub decode-encode :
    (s : SadbXPolicy)
    → s.ext_type < 2 ^ 16
    → s.type_of < 2 ^ 16
    → s.policy_id < 2 ^ 32
    → s.policy_priority < 2 ^ 32
    → (decode (encode s) ≡ some s)
      × (stated_length (encode s) ≡ length (encode s))
      × (length (encode s) ≡ 16)
unfolding encode decode fields stated_length put_uint16 put_uint32
decode-encode s p q r t = ground arith
