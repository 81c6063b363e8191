-- ===== src/Uuid/Generator/Distinct.antt =====
-- The UUIDs that `makeTimeUUID()` returns on one thread, by the time stamp and the clock id in them.
use cpv_cql_driver.Common.{
  ℕ, ◌+◌, ◌*◌, ◌/◌, ◌%◌, ◌^◌, ◌≤◌, ◌<◌, ◌≡◌, ◌≢◌, ◌∙◌, inl, inr, refl, sym, ap, arith, List, [],
  ◌∷◌, ltb, ◌==◌, All, Bool-cases, ==→eq, ==→ne, ltb→le, Result, ok, err,
}
use cpv_cql_driver.Uuid.Text.{Uuid}
use cpv_cql_driver.Uuid.Time.{
  epoch, max_clock_id, to_timestamp, make_time_uuid, timestamp_of, to_timestamp_lem,
}
use cpv_cql_driver.Uuid.Laws.{timestamp_of-make_time_uuid}
use cpv_cql_driver.Uuid.Generator
use cpv_cql_driver.Uuid.Generator.{IsForward, AllDifferent}

abbrev clock_of : Uuid → ℕ
clock_of u = (u.low / 2 ^ 48) % 2 ^ 14

clock_of-make_time_uuid :
    (s clock node : ℕ) → clock < 2 ^ 14 → clock_of (make_time_uuid s clock node) ≡ clock
unfolding make_time_uuid
clock_of-make_time_uuid s clock node h = omega arith

abbrev key : Uuid → ℕ
key u = timestamp_of u * 2 ^ 14 + clock_of u

key-make_time_uuid :
    (s clock node : ℕ)
    → s < 2 ^ 60
    → clock < 2 ^ 14
    → key (make_time_uuid s clock node) ≡ s * 2 ^ 14 + clock
key-make_time_uuid s clock node h k =
    rw (timestamp_of-make_time_uuid s clock node h, clock_of-make_time_uuid s clock node k) refl

-- The least key that a call may still return.
abbrev bound : Generator.Generator → ℕ
bound g = g.last_timestamp * 2 ^ 14 + g.clock_id

-- What a call at the time stamp s leaves.
record IsAfter (s : ℕ) (g : Generator.Generator) : Type 0 where
  at : g.last_timestamp ≡ s
  counted : g.clock_id ≤ 2 ^ 14

abbrev IsAbove : Generator.Generator → Result Uuid → Generator.Generator → Type 0
IsAbove g (err e) g' = bound g ≤ bound g'
IsAbove g (ok u) g' = (bound g ≤ key u) × (key u < bound g')

abbrev IsNext : ℕ → Generator.Generator → Result Uuid × Generator.Generator → Type 0
IsNext s g (r, g') = IsAfter s g' × IsAbove g r g'

take_clock_id-IsNext :
    (s : ℕ) (g h : Generator.Generator)
    → s < 2 ^ 60
    → h.last_timestamp ≡ s
    → h.clock_id < 2 ^ 14
    → bound g ≤ bound h
    → IsNext s g (Generator.take_clock_id s h)
take_clock_id-IsNext s g h small at room above =
    let k : key (make_time_uuid s h.clock_id h.node_id) ≡ bound h =
      key-make_time_uuid s h.clock_id h.node_id small room
      ∙ ap (λ x. x * 2 ^ 14 + h.clock_id) (sym at) in
    (record { at = at; counted = omega arith }, (omega arith, omega arith))

next_time_uuid-IsNext :
    (c : Generator.Call) (g : Generator.Generator)
    → to_timestamp c.now < 2 ^ 60
    → g.last_timestamp ≤ to_timestamp c.now
    → g.clock_id ≤ 2 ^ 14
    → IsNext (to_timestamp c.now) g (Generator.next_time_uuid c g)
unfolding Generator.next_time_uuid
next_time_uuid-IsNext c g small forward counted =
    let s = to_timestamp c.now in
    elim (Bool-cases (s == g.last_timestamp)) [
      | inl same ↦ elim (Bool-cases (ltb max_clock_id g.clock_id)) [
        | inl full ↦
            rw (same, full)
              (record { at = sym (==→eq s g.last_timestamp same); counted = counted }, omega arith)
        | inr room ↦
            rw (same, room)
              (take_clock_id-IsNext s g (Generator.with_node c g) small
                (sym (==→eq s g.last_timestamp same))
                (omega (ltb→le max_clock_id g.clock_id room, arith)) (omega arith))
      ]
      | inr other ↦
          let ne = ==→ne s g.last_timestamp other in
          rw other (
            take_clock_id-IsNext s g (Generator.at_timestamp s (Generator.with_node c g)) small refl
              (omega arith) (omega arith))
    ]

above :
    (g h : Generator.Generator) (us : List Uuid)
    → bound g ≤ bound h
    → All (λ v. bound h ≤ key v) us
    → All (λ v. bound g ≤ key v) us
above g h [] k a = tt
above g h (u ∷ us) k (a, rest) = (omega arith, above g h us k rest)

apart :
    (u : Uuid) (b : ℕ) (us : List Uuid) → key u < b → All (λ v. b ≤ key v) us → All (λ v. u ≢ v) us
apart u b [] k a = tt
apart u b (v ∷ vs) k (a, rest) =
    ((λ e. let same : key u ≡ key v = ap key e in omega arith), apart u b vs k rest)

extend :
    (s : ℕ) (g : Generator.Generator) (p : Result Uuid × Generator.Generator) (us : List Uuid)
    → IsNext s g p
    → All (λ v. bound p.1 ≤ key v) us
    → AllDifferent us
    → All (λ v. bound g ≤ key v) (Generator.made p.0 us) × AllDifferent (Generator.made p.0 us)
extend s g (err e, g') us (after, k) a d = (above g g' us k a, d)
extend s g (ok u, g') us (after, k) a d =
    ((k.0, above g g' us (omega arith) a), (apart u (bound g') us k.1 a, d))

make_each-above :
    (cs : List Generator.Call) (g : Generator.Generator) (t : ℕ)
    → IsForward t cs
    → g.last_timestamp ≤ t / 100 + epoch
    → g.clock_id ≤ 2 ^ 14
    → All (λ v. bound g ≤ key v) (Generator.make_each cs g)
      × AllDifferent (Generator.make_each cs g)
unfolding Generator.make_each
make_each-above [] g t forward k counted = (tt, tt)
make_each-above (c ∷ cs) g t (later, small, rest) k counted =
    let stamp = to_timestamp_lem c.now small in
    let p = Generator.next_time_uuid c g in
    let step = next_time_uuid-IsNext c g (omega arith) (omega arith) counted in
    let tail = make_each-above cs p.1 c.now rest (omega (step.0.at, stamp, arith)) step.0.counted in
    extend (to_timestamp c.now) g p (Generator.make_each cs p.1) step tail.0 tail.1

-- The UUIDs that a thread's calls return are all different, when its clock does not go back and its
-- time points are from 1970 on and below 2 ^ 63 nanoseconds, whatever URandom gives: a call at a time
-- stamp that has used up its clock ids throws, and returns no UUID.
pub make_each-AllDifferent :
    (cs : List Generator.Call)
    → IsForward 0 cs
    → AllDifferent (Generator.make_each cs Generator.new_generator)
make_each-AllDifferent cs forward =
    (make_each-above cs Generator.new_generator 0 forward (omega arith) (omega arith)).1
