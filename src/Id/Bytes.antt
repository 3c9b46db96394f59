-- ===== src/Id/Bytes.antt =====
-- id.go: uint64ToBytes, and what an ULID keeps of its time.
use durex.Prelude.{
  ◌≡◌, refl, sym, ap, ◌∙◌, ℕ, zero, suc, ◌+◌, ◌*◌, ◌/◌, ◌%◌, ◌^◌, ◌<◌, List, [], ◌∷◌, ◌++◌, length,
  length-append, arith,
}
use native.Mathlib.Nat.{div-div-eq-div-mul, mod_def, mul_assoc, div-add-mod, pow-succ'}
use durex.Id.{uint64_to_bytes, encode_base32, generate_ulid}

-- the number that bytes stand for, the first the most significant
abbrev pub from_bytes : ℕ → List ℕ → ℕ
from_bytes acc [] = acc
from_bytes acc (b ∷ bytes) = from_bytes (acc * 256 + b) bytes

from_bytes-append :
    (acc : ℕ) (xs : List ℕ) (b : ℕ) → from_bytes acc (xs ++ b ∷ []) ≡ from_bytes acc xs * 256 + b
from_bytes-append acc [] b = refl
from_bytes-append acc (x ∷ xs) b = from_bytes-append (acc * 256 + x) xs b

mod_step : (v w : ℕ) → v / 256 % w * 256 + v % 256 ≡ v % (256 * w)
mod_step v w = omega (
  arith,
  div-div-eq-div-mul v 256 w,
  ap (λ q. w * q) (div-div-eq-div-mul v 256 w),
  mod_def v (256 * w),
  mul_assoc 256 w (v / (256 * w)),
  div-add-mod (v / 256) w,
)

-- The bytes of a number are as many as were asked for, and stand for the number's remainder modulo
-- 256 to the power of their count.
pub from_bytes-uint64_to_bytes :
    (v size : ℕ)
    → (length (uint64_to_bytes v size) ≡ size)
      × (from_bytes 0 (uint64_to_bytes v size) ≡ v % 256 ^ size)
unfolding uint64_to_bytes
from_bytes-uint64_to_bytes v zero = (refl, omega arith)
from_bytes-uint64_to_bytes v (suc size) =
    let ih = from_bytes-uint64_to_bytes (v / 256) size in
    (
      omega (arith, ih.0, length-append (uint64_to_bytes (v / 256) size) (v % 256 ∷ [])),
      from_bytes-append 0 (uint64_to_bytes (v / 256) size) (v % 256)
          ∙ ap (λ n. n * 256 + v % 256) ih.1
          ∙ mod_step v (256 ^ size)
          ∙ ap (λ w. v % w) (sym (pow-succ' 256 size)),
    )

-- Two ULIDs with the same random bytes at times 32 milliseconds apart are the same text, where the
-- lowest byte of the time does not carry: the characters do not follow the order of the times.
pub generate_ulid-repeats :
    (ts : ℕ) (random : List ℕ)
    → ts % 256 < 224
    → generate_ulid (ts + 32) random ≡ generate_ulid ts random
unfolding generate_ulid encode_base32 uint64_to_bytes
generate_ulid-repeats ts random h =
    let v = ts % 18446744073709551616 in
    let w = (ts + 32) % 18446744073709551616 in
    let high : w / 256 ≡ v / 256 = omega arith in
    let low : w % 256 % 32 ≡ v % 256 % 32 = omega arith in cc
