-- ===== src/Query/Parameters/Parts.antt =====
-- Each value of a command as it is sent and read back, under the flag that announces it.
use cpv_cql_driver.Common.{
  ℕ, ◌%◌, ◌^◌, ◌≤◌, ◌<◌, ◌≡◌, ◌∙◌, refl, sym, ap, arith, List, [], ◌∷◌, ◌++◌, append-nil,
  append_assoc, Bool, true, false, ◌&&◌, ltb, eq→==, ne→==, le→ltb, lt→ltb, lt→leb, le→leb,
  if◌then◌else◌, inl, inr, length, length-append, take-length_append, drop-length_append, All,
  List-cases, Option-cases, Option, none, some, ok, Bytes, has_flag, add_flag,
}
use cpv_cql_driver.Protocol.Integer.{be_bytes, is_negative}
use cpv_cql_driver.Protocol.Integer.RoundTrip.{decode-be_bytes}
use cpv_cql_driver.Protocol.Integer
use cpv_cql_driver.Protocol.SizedString.{bytes_traits, decode_bytes}
use cpv_cql_driver.Protocol.SizedString.RoundTrip.{decode_normal}
use cpv_cql_driver.Batch.Parameters.{has_value, Fits as WidthFits}
use cpv_cql_driver.Query.Parameters.{
  Command, with_values, skip_metadata, with_page_size, with_paging_state, with_serial_consistency,
  with_default_timestamp, with_names_for_value, encode_parameters, encode_page_size,
  encode_paging_state, decode_each_parameter, decode_parameters, decode_page_size,
  decode_paging_state,
}

-- A parameter as it is written: some bytes, or a negative length (null and not set).
pub data Value : Type 0 where
  present : Bytes → Value
  absent : ℕ → Value

abbrev pub value_bytes : Value → Bytes
value_bytes (present bs) = be_bytes 4 (length bs) ++ bs
value_bytes (absent n) = be_bytes 4 n

abbrev pub values_bytes : List Value → Bytes
values_bytes [] = []
values_bytes (v ∷ values) = value_bytes v ++ values_bytes values

abbrev pub ValueFits : Value → Type 0
ValueFits (present bs) = length bs < 2 ^ 31
ValueFits (absent n) = (2 ^ 31 ≤ n) × (n < 2 ^ 32)

-- Whatever was collected, the parameters that follow are added to it.
pub decode_each_parameter_lem :
    (values : List Value) (encoded rest : Bytes)
    → All ValueFits values
    → decode_each_parameter (length values) encoded (values_bytes values ++ rest)
      ≡ ok (encoded ++ values_bytes values, rest)
unfolding decode_each_parameter Integer.encode
decode_each_parameter_lem [] encoded rest fits = ap (λ x. ok (x, rest)) (sym (append-nil encoded))
decode_each_parameter_lem (absent n ∷ values) encoded rest fits =
    let left = values_bytes values in
    rw
      (
        append_assoc (be_bytes 4 n) left rest,
        decode-be_bytes 4 n (left ++ rest) fits.0.1,
        le→leb (2 ^ 31) n fits.0.0,
      )
      (decode_each_parameter_lem values (encoded ++ be_bytes 4 n) rest fits.1
        ∙ ap (λ x. ok (x, rest)) (append_assoc encoded (be_bytes 4 n) left))
decode_each_parameter_lem (present [] ∷ values) encoded rest fits =
    let left = values_bytes values in
    rw
      (
        append-nil (be_bytes 4 0),
        append_assoc (be_bytes 4 0) left rest,
        decode-be_bytes 4 0 (left ++ rest) (omega arith),
      )
      (decode_each_parameter_lem values (encoded ++ be_bytes 4 0) rest fits.1
        ∙ ap (λ x. ok (x, rest)) (append_assoc encoded (be_bytes 4 0) left))
decode_each_parameter_lem (present (b ∷ bs) ∷ values) encoded rest fits =
    let left = values_bytes values in
    let body = b ∷ bs in
    let size = be_bytes 4 (length body) in
    rw
      (
        append_assoc (size ++ body) left rest,
        append_assoc size body (left ++ rest),
        decode-be_bytes 4 (length body) (body ++ (left ++ rest)) (omega (arith, fits.0)),
        lt→leb (2 ^ 31) (length body) fits.0,
        ne→== (length body) 0 (λ h. absurd (omega (arith, h))),
        le→ltb (length (body ++ (left ++ rest))) (length body)
            (omega (arith, length-append body (left ++ rest))),
        take-length_append body (left ++ rest),
        drop-length_append body (left ++ rest),
      )
      (decode_each_parameter_lem values ((encoded ++ size) ++ body) rest fits.1
        ∙ ap (λ x. ok (x, rest))
            (append_assoc (encoded ++ size) body left
              ∙ append_assoc encoded size (body ++ left)
              ∙ ap (λ x. encoded ++ x) (sym (append_assoc size body left))))

abbrev pub PageFits : Option ℕ → Type 0
PageFits none = Unit {0}
PageFits (some n) = n < 2 ^ 31

-- What a command's values ask of their widths, and that its parameters are the encoding of so many
-- values.
pub record Fits (c : Command) (values : List Value) : Type 0 where
  pub parameters_given : c.parameters ≡ values_bytes values
  pub count_given : c.parameter_count ≡ length values
  pub count_fits : length values < 2 ^ 16
  pub values_fit : All ValueFits values
  pub page_size_fits : PageFits c.page_size
  pub state_fits : length c.paging_state < 2 ^ 31
  pub serial_fits : WidthFits 2 c.serial_consistency
  pub timestamp_fits : WidthFits 8 c.default_timestamp

-- The flags of a command whose flags are these tests.
abbrev pub flags_of : Bool → Bool → Bool → Bool → Bool → Bool → ℕ
flags_of skip values page state serial timestamp =
    let flags₀ : ℕ = if skip then skip_metadata else 0 in
    let flags₁ : ℕ = if values then add_flag flags₀ with_values else flags₀ in
    let flags₂ : ℕ = if page then add_flag flags₁ with_page_size else flags₁ in
    let flags₃ : ℕ = if page && state then add_flag flags₂ with_paging_state else flags₂ in
    let flags₄ : ℕ = if serial then add_flag flags₃ with_serial_consistency else flags₃ in
    if timestamp then add_flag flags₄ with_default_timestamp else flags₄

pub flags_lem :
    (skip values page state serial timestamp : Bool)
    → let f = flags_of skip values page state serial timestamp in
      (f < 256)
      × (has_flag f with_values ≡ values)
      × (has_flag f skip_metadata ≡ skip)
      × (has_flag f with_page_size ≡ page)
      × (has_flag f with_paging_state ≡ (page && state))
      × (has_flag f with_serial_consistency ≡ serial)
      × (has_flag f with_default_timestamp ≡ timestamp)
      × (has_flag f with_names_for_value ≡ false)
flags_lem skip values page state serial timestamp = ground arith

abbrev pub parameter_bytes : List Value → Bytes
parameter_bytes [] = []
parameter_bytes (v ∷ values) = be_bytes 2 (length (v ∷ values)) ++ values_bytes (v ∷ values)

abbrev pub page_bytes : Option ℕ → Bytes
page_bytes none = []
page_bytes (some n) = be_bytes 4 n

abbrev pub state_bytes : Bool → Bytes → Bytes
state_bytes true state = be_bytes 4 (length state) ++ state
state_bytes false state = []

module _ (f : ℕ) (c : Command) (values : List Value) (fits : Fits c values) where
  pub encode_parameters_lem :
      (buffer : Bytes)
      → has_flag f with_values ≡ ltb 0 (length values)
      → encode_parameters f c buffer ≡ ok (buffer ++ parameter_bytes values)
  unfolding encode_parameters Integer.encode
  encode_parameters_lem buffer h = elim (List-cases values) [
    | inl e ↦ rw (h, e) (ap ok (sym (append-nil buffer)))
    | inr (v, left, e) ↦
        let n = length (v ∷ left) in
        let small : n < 2 ^ 16 = rw e at fits.count_fits in
        let same : n % 2 ^ 16 ≡ n = omega arith in
        rw
          (
            h,
            fits.count_given,
            fits.parameters_given,
            e,
            lt→ltb 0 n (omega arith),
            same,
            eq→== n n refl,
          )
          (ap ok (append_assoc buffer (be_bytes 2 n) (values_bytes (v ∷ left))))
  ]

  pub decode_parameters_lem :
      (rest : Bytes)
      → has_flag f with_values ≡ ltb 0 (length values)
      → has_flag f with_names_for_value ≡ false
      → decode_parameters f (parameter_bytes values ++ rest)
        ≡ ok (length values, values_bytes values, rest)
  unfolding decode_parameters
  decode_parameters_lem rest h k = elim (List-cases values) [
    | inl e ↦ rw (h, e) refl
    | inr (v, left, e) ↦
        let n = length (v ∷ left) in
        let small : n < 2 ^ 16 = rw e at fits.count_fits in
        let each : All ValueFits (v ∷ left) = rw e at fits.values_fit in
        rw
          (
            h,
            k,
            e,
            lt→ltb 0 n (omega arith),
            append_assoc (be_bytes 2 n) (values_bytes (v ∷ left)) rest,
            decode-be_bytes 2 n (values_bytes (v ∷ left) ++ rest) small,
            decode_each_parameter_lem (v ∷ left) [] rest each,
          )
          refl
  ]

pub encode_page_size_lem :
    (f : ℕ) (c : Command) (buffer : Bytes)
    → has_flag f with_page_size ≡ has_value c.page_size
    → PageFits c.page_size
    → encode_page_size f c buffer ≡ ok (buffer ++ page_bytes c.page_size)
unfolding encode_page_size Integer.encode
encode_page_size_lem f c buffer h fits = elim (Option-cases c.page_size) [
  | inl e ↦ rw (h, e) (ap ok (sym (append-nil buffer)))
  | inr (n, e) ↦
      let small : n < 2 ^ 31 = rw e at fits in
      let same : n % 2 ^ 32 ≡ n = omega arith in rw (h, e, same) refl
]

pub decode_page_size_lem :
    (f : ℕ) (page : Option ℕ) (rest : Bytes)
    → has_flag f with_page_size ≡ has_value page
    → PageFits page
    → decode_page_size f (page_bytes page ++ rest) ≡ ok (page, rest)
unfolding decode_page_size
decode_page_size_lem f none rest h fits = rw h refl
decode_page_size_lem f (some n) rest h fits =
    rw (h, decode-be_bytes 4 n rest (omega arith), lt→leb (2 ^ 31) n fits) refl

pub encode_paging_state_lem :
    (f : ℕ) (sent : Bool) (c : Command) (buffer : Bytes)
    → has_flag f with_paging_state ≡ sent
    → length c.paging_state < 2 ^ 31
    → encode_paging_state f c buffer ≡ buffer ++ state_bytes sent c.paging_state
unfolding encode_paging_state Integer.encode
encode_paging_state_lem f false c buffer h fits = rw h (sym (append-nil buffer))
encode_paging_state_lem f true c buffer h fits =
    let n = length c.paging_state in
    let same : n % 2 ^ 32 ≡ n = omega arith in
    rw (h, same) (append_assoc buffer (be_bytes 4 n) c.paging_state)

pub decode_paging_state_lem :
    (f : ℕ) (sent : Bool) (state rest : Bytes)
    → has_flag f with_paging_state ≡ sent
    → length state < 2 ^ 31
    → decode_paging_state f (state_bytes sent state ++ rest) ≡ ok (if sent then state else [], rest)
unfolding decode_paging_state decode_bytes
decode_paging_state_lem f false state rest h fits = rw h refl
decode_paging_state_lem f true state rest h fits =
    rw
      (
        h,
        decode_normal bytes_traits (record { state = 0; value = state }) (omega arith) refl
            (omega arith) rest,
      )
      refl
