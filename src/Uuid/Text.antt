-- ===== src/Uuid/Text.antt =====
-- `strToUUID`, `uuidToStr` with `dumpIntToHex` and `loadIntFromHex`, and the encoding of a UUID. A UUID
-- is its high and its low 64 bits.
use native.Mathlib.Nat.{
  pow-suc, one-le-pow, div-add-mod', mod-lt, mod-eq_of_lt, add-mul-mod_self_right,
}
use cpv_cql_driver.Common.{
  ℕ, zero, suc, ◌+◌, ◌-◌, ◌*◌, ◌/◌, ◌%◌, ◌^◌, ◌≤◌, ◌<◌, ◌≡◌, ◌∙◌, refl, sym, ap, arith, [], ◌∷◌,
  ◌++◌, ltb, leb, ◌==◌, if◌then◌else◌, length, drop, Option, none, some, Result, ok, err, ◌>>=◌,
  ◌>>◌, require, format_exception, decode_exception, Bytes,
}
use cpv_cql_driver.Protocol.Integer

-- UUIDDataType
pub record Uuid : Type 0 where
  pub high : ℕ
  pub low : ℕ

-- `digits[d]` for d < 16, as a character.
unfoldable pub hex_digit : ℕ → ℕ
hex_digit d = if ltb d 10 then 48 + d else 55 + d

-- `dumpIntToHex` of n digits, the topmost first.
unfoldable pub dump_hex : ℕ → ℕ → Bytes
dump_hex zero v = []
dump_hex (suc n) v = hex_digit ((v / 16 ^ n) % 16) ∷ dump_hex n v

-- `(diff = c - k) <= m`, where `diff` has eight bits.
abbrev difference : ℕ → ℕ → ℕ
difference c k = (c + 256 - k) % 256

unfoldable pub digit_value : ℕ → Option ℕ
digit_value c =
    if c == 0
    then none
    else if leb (difference c 48) 9
    then some (difference c 48)
    else if leb (difference c 97) 5
    then some (difference c 97 + 10)
    else if leb (difference c 65) 5
    then some (difference c 65 + 10)
    else none

-- `loadIntFromHex` of n digits; a text that ends is one with a zero behind it.
unfoldable pub load_hex : ℕ → ℕ → Bytes → Option ℕ
load_hex zero value cs = some value
load_hex (suc n) value [] = none
load_hex (suc n) value (c ∷ cs) = elim (digit_value c) [
  | none ↦ none
  | some d ↦ load_hex n (value * 16 + d) cs
]

-- The check of what `loadIntFromHex` returns.
abbrev pub found_digits : Option ℕ → Result ℕ
found_digits none = err format_exception
found_digits (some v) = ok v

abbrev pub hex_at : Bytes → ℕ → ℕ → Result ℕ
hex_at str i n = found_digits (load_hex n 0 (drop i str))

-- `strToUUID`, which does not look at the four separators.
unfoldable pub str_to_uuid : Bytes → Result Uuid
str_to_uuid str = do
  require (length str == 36) format_exception
  a ← hex_at str 0 8
  b ← hex_at str 9 4
  c ← hex_at str 14 4
  d ← hex_at str 19 4
  e ← hex_at str 24 4
  f ← hex_at str 28 8
  ok (record { high = a * 2 ^ 32 + b * 2 ^ 16 + c; low = d * 2 ^ 48 + e * 2 ^ 32 + f })

abbrev pub dash : ℕ
dash = 45

-- `uuidToStr`
unfoldable pub uuid_to_str : Uuid → Bytes
uuid_to_str u =
    dump_hex 8 (u.high / 2 ^ 32)
    ++ (dash
        ∷ (dump_hex 4 ((u.high / 2 ^ 16) % 2 ^ 16)
            ++ (dash
                ∷ (dump_hex 4 (u.high % 2 ^ 16)
                    ++ (dash
                        ∷ (dump_hex 4 ((u.low / 2 ^ 48) % 2 ^ 16)
                            ++ (dash
                                ∷ (dump_hex 4 ((u.low / 2 ^ 32) % 2 ^ 16)
                                    ++ dump_hex 8 (u.low % 2 ^ 32)))))))))

-- `ProtocolUUID::encode` and `ProtocolUUID::decode`
unfoldable pub encode_uuid : Uuid → Bytes → Bytes
encode_uuid u buffer = Integer.encode 8 u.low (Integer.encode 8 u.high buffer)

unfoldable pub decode_uuid : Bytes → Result (Uuid × Bytes)
decode_uuid bs = do
  require (leb 16 (length bs)) decode_exception
  (high, r₁) ← Integer.decode 8 bs
  (low, r₂) ← Integer.decode 8 r₁
  ok (record { high = high; low = low }, r₂)

digit_value-hex_digit : (d : ℕ) → d < 16 → digit_value (hex_digit d) ≡ some d
unfolding digit_value hex_digit
digit_value-hex_digit d h = ground arith

regroup : (a b p r : ℕ) → (16 * a + b) * p + r ≡ (b * p + r) + a * (16 * p)
regroup a b p r = grind arith

bounded : (b p r : ℕ) → b ≤ 15 → r < p → b * p + r < 16 * p
bounded b p r h k = grind arith

place : (value d p m : ℕ) → (value * 16 + d) * p + m ≡ value * (p * 16) + (d * p + m)
place value d p m = grind arith

-- The digits below a place, and the digit at it.
mod_step : (v p : ℕ) → 0 < p → v % (16 * p) ≡ ((v / p) % 16) * p + v % p
mod_step v p h =
    let a = v / p / 16 in
    let b = (v / p) % 16 in
    let r = v % p in
    let whole : v ≡ (b * p + r) + a * (16 * p) =
      sym (div-add-mod' v p) ∙ ap (λ x. x * p + r) (omega arith) ∙ regroup a b p r in
    let below : b * p + r < 16 * p = bounded b p r (omega arith) (mod-lt v h) in
    ap (λ x. x % (16 * p)) whole
    ∙ add-mul-mod_self_right (b * p + r) a (16 * p)
    ∙ mod-eq_of_lt below

pub load-dump_hex :
    (n value v : ℕ) (rest : Bytes)
    → load_hex n value (dump_hex n v ++ rest) ≡ some (value * 16 ^ n + v % 16 ^ n)
unfolding load_hex dump_hex
load-dump_hex zero value v rest = ap some (omega arith)
load-dump_hex (suc n) value v rest =
    let d = (v / 16 ^ n) % 16 in
    rw (digit_value-hex_digit d (omega arith), load_hex)
      (load-dump_hex n (value * 16 + d) v rest
        ∙ ap some (
            place value d (16 ^ n) (v % 16 ^ n)
            ∙ ap (λ x. value * (16 ^ n * 16) + x)
                (sym (mod_step v (16 ^ n) (one-le-pow n 16 (omega arith))))
            ∙ ap (λ x. value * (16 ^ n * 16) + v % x) (omega arith)
            ∙ ap (λ x. value * x + v % x) (sym (pow-suc 16 n))))

pub length-dump_hex : (n v : ℕ) → length (dump_hex n v) ≡ n
unfolding dump_hex
length-dump_hex zero v = refl
length-dump_hex (suc n) v = ap suc (length-dump_hex n v)
