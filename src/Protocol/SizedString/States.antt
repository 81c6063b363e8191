-- ===== src/Protocol/SizedString/States.antt =====
-- What the [int] in front of a [value], a [bytes] or a [long string] means to the reader.
use cpv_cql_driver.Common.{
  ℕ, ◌^◌, ◌<◌, ◌≡◌, [], ◌++◌, arith, ltb, ◌==◌, if◌then◌else◌, length, take, drop, ok, err,
  decode_exception, Bytes,
}
use cpv_cql_driver.Protocol.Integer.{be_bytes}
use cpv_cql_driver.Protocol.Integer.RoundTrip.{decode-be_bytes}
use cpv_cql_driver.Protocol.SizedString.{
  normal, null, not_set, decode, decode_body, decode_value, decode_bytes,
}

-- A [value] is n bytes for n ≥ 0, null for -1, not set for -2 and an error for any other n; it is
-- an error too where fewer than n bytes follow.
pub decode_value_lem :
    (n : ℕ) (rest : Bytes)
    → n < 2 ^ 32
    → decode_value (be_bytes 4 n ++ rest) ≡ (
        if ltb n (2 ^ 31)
        then (if ltb (length rest) n
            then err decode_exception
            else ok (record { state = normal; value = take n rest }, drop n rest))
        else if n == null
        then ok (record { state = null; value = [] }, rest)
        else if n == not_set
        then ok (record { state = not_set; value = [] }, rest)
        else err decode_exception)
unfolding decode_value decode decode_body
decode_value_lem n rest h = rw (decode-be_bytes 4 n rest h) (ground arith)

-- A [bytes] is n bytes for n ≥ 0 and null for every negative n.
pub decode_bytes_lem :
    (n : ℕ) (rest : Bytes)
    → n < 2 ^ 32
    → decode_bytes (be_bytes 4 n ++ rest) ≡ (
        if ltb n (2 ^ 31)
        then (if ltb (length rest) n
            then err decode_exception
            else ok (record { state = normal; value = take n rest }, drop n rest))
        else ok (record { state = null; value = [] }, rest))
unfolding decode_bytes decode decode_body
decode_bytes_lem n rest h = rw (decode-be_bytes 4 n rest h) (ground arith)
