-- ===== src/Id.antt =====
-- id.go: the generators of ids. The clock, crypto/rand and the printing of fmt are parameters; a
-- generator is its counter.
pub mod Distinct
pub mod Bytes
use durex.Prelude.{ℕ, zero, suc, ◌+◌, ◌/◌, ◌%◌, ◌^◌, String, List, [], ◌∷◌, ◌++◌, map}
use Prim.Native.Char.{Char}
use Prim.Native.String.{char_at}

-- atomic.AddUint64(&g.counter, 1)
abbrev pub add_uint64 : ℕ → ℕ
add_uint64 counter = (counter + 1) % 18446744073709551616

pub record DefaultIdGenerator : Type 0 where
  pub counter : ℕ

-- fmt.Sprintf("cmd_%x_%x_%s", ts, count, hex.EncodeToString(random))
abbrev pub Sprintf : Type 0
Sprintf = ℕ → ℕ → List ℕ → String

-- DefaultIDGenerator.Generate, at a time in milliseconds and with the random bytes
unfoldable pub generate : Sprintf → DefaultIdGenerator → ℕ → List ℕ → String × DefaultIdGenerator
generate sprintf g ts random =
    let count = add_uint64 g.counter in (sprintf ts count random, record g { counter = count })

pub record SimpleIdGenerator : Type 0 where
  pub prefix : String
  pub counter : ℕ

unfoldable pub new_simple_id_generator : String → SimpleIdGenerator
new_simple_id_generator prefix = record { prefix = prefix; counter = 0 }

-- SimpleIDGenerator.Generate; the parameter is fmt.Sprintf("%s_%d", ...)
unfoldable pub generate_simple :
    (String → ℕ → String) → SimpleIdGenerator → String × SimpleIdGenerator
generate_simple sprintf g =
    let count = add_uint64 g.counter in (sprintf g.prefix count, record g { counter = count })

abbrev pub base32_alphabet : String
base32_alphabet = "0123456789ABCDEFGHJKMNPQRSTVWXYZ"

-- dst of `size` bytes
unfoldable pub encode_base32 : ℕ → List ℕ → List Char
encode_base32 zero src = []
encode_base32 (suc size) [] = "0" ∷ encode_base32 size []
encode_base32 (suc size) (b ∷ src) = char_at base32_alphabet (b % 32) ∷ encode_base32 size src

unfoldable pub uint64_to_bytes : ℕ → ℕ → List ℕ
uint64_to_bytes v zero = []
uint64_to_bytes v (suc size) = uint64_to_bytes (v / 256) size ++ v % 256 ∷ []

-- ULIDGenerator.Generate, as the list of its characters
unfoldable pub generate_ulid : ℕ → List ℕ → List Char
generate_ulid ts random =
    encode_base32 10 (uint64_to_bytes (ts % 18446744073709551616) 6) ++ encode_base32 16 random
