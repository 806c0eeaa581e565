-- ===== src/Examples.antt =====
-- Concrete instances of the parameters, for the witnesses below: the constants of quic_types.h, a
-- byte order, and a bandwidth estimator.
pub mod Congestion
pub mod Datagrams
pub mod Simulation
pub mod Acknowledgements
pub mod Transmission
pub mod Sessions
pub mod Managers
pub mod Reports
use stupid_simple.Base.{
  ℕ, zero, suc, ◌+◌, ◌-◌, ◌∙◌, ◌*◌, ◌/◌, ◌%◌, ◌^◌, ◌≤◌, ◌<◌, ◌≡◌, refl, ap, ltb, if◌then◌else◌,
  Option, none, some, List, [], ◌∷◌, ◌++◌, length, arith,
}
use native.Mathlib.Nat.{pow-suc}
use stupid_simple.Base.Int.{ℤ, pos_part}
use stupid_simple.Header.{QuicTypes, IsQuicTypes, Wire, IsWire}
use stupid_simple.Bbr.Env.{BbrEnv}
use stupid_simple.Bbr.App.{Net}
use stupid_simple.Bbr.App.Delivery.{IsNet}

-- The values of net/quic/core/quic_types.h.
abbrev pub some_types : QuicTypes
some_types = record {
  len_1byte = 1;
  len_2byte = 2;
  len_4byte = 4;
  len_6byte = 6;
  len_8byte = 8;
  flags_1byte = 0;
  flags_2byte = 1;
  flags_4byte = 2;
  flags_8byte = 3;
}

pub some_types-IsQuicTypes : IsQuicTypes some_types
some_types-IsQuicTypes = record {
  len_1_2 = omega arith;
  len_2_4 = omega arith;
  len_4_6 = omega arith;
  len_6_8 = omega arith;
  mask_1 = refl;
  mask_2 = refl;
  mask_4 = refl;
  mask_8 = refl;
  flags_1_2 = omega arith;
  flags_2_4 = omega arith;
  flags_4_8 = omega arith;
  nibble = omega arith;
}

-- Numbers by their bytes, the lowest first.
unfoldable pub write_bytes : ℕ → ℕ → List ℕ
write_bytes zero v = []
write_bytes (suc n) v = v % 256 ∷ write_bytes n (v / 256)

abbrev pub with_low : ℕ → Option (ℕ × List ℕ) → Option (ℕ × List ℕ)
with_low b none = none
with_low b (some r) = some (256 * r.0 + b, r.1)

unfoldable pub read_bytes : ℕ → List ℕ → Option (ℕ × List ℕ)
read_bytes zero bytes = some (0, bytes)
read_bytes (suc n) [] = none
read_bytes (suc n) (b ∷ bytes) = with_low b (read_bytes n bytes)

abbrev pub some_wire : Wire
some_wire = record { write_uint = write_bytes; read_uint = read_bytes }

length-write_bytes : (n v : ℕ) → length (write_bytes n v) ≡ n
unfolding write_bytes
length-write_bytes zero v = refl
length-write_bytes (suc n) v = ap suc (length-write_bytes n (v / 256))

pow_add : (a k : ℕ) → 2 ^ (a + k) ≡ 2 ^ a * 2 ^ k
pow_add a zero = let e : a + 0 ≡ a = omega arith in ap (λ x. 2 ^ x) e ∙ omega arith
pow_add a (suc k) =
    let e : a + suc k ≡ suc (a + k) = omega arith in
    ap (λ x. 2 ^ x) e ∙ grind (arith, pow-suc 2 (a + k), pow-suc 2 k, pow_add a k)

smaller : (n v : ℕ) → v < 2 ^ (suc n * 8) → v / 256 < 2 ^ (n * 8)
smaller n v h =
    let split : suc n * 8 ≡ n * 8 + 8 = omega arith in
    let e : 2 ^ (suc n * 8) ≡ 2 ^ (n * 8) * 256 = ap (λ k. 2 ^ k) split ∙ pow_add (n * 8) 8 in
    omega (arith, e)

read-write_bytes :
    (n v : ℕ) (rest : List ℕ)
    → v < 2 ^ (n * 8)
    → read_bytes n (write_bytes n v ++ rest) ≡ some (v, rest)
unfolding write_bytes read_bytes
read-write_bytes zero v rest h = let e : 0 ≡ v = omega arith in ap (λ w. some (w, rest)) e
read-write_bytes (suc n) v rest h =
    let e : 256 * (v / 256) + v % 256 ≡ v = omega arith in
    rw (read-write_bytes n (v / 256) rest (smaller n v h)) (ap (λ w. some (w, rest)) e)

pub some_wire-IsWire : IsWire some_wire
some_wire-IsWire = record { length_written = length-write_bytes; reads_back = read-write_bytes }

abbrev pub some_net : Net
some_net = record {
  types = some_types;
  wire = some_wire;
  k_max_packet_size = 1452;
  beyond = 7 ∷ 7 ∷ [];
}

pub some_net-IsNet : IsNet some_net
some_net-IsNet = record {
  types = some_types-IsQuicTypes;
  wire = some_wire-IsWire;
  six = refl;
  long = omega arith;
}

-- A filter that keeps the greatest value.
abbrev pub some_env : BbrEnv ℕ
some_env = record {
  infinite = 2 ^ 63 - 1;
  from_bytes_and_time_delta = λ bytes time. bytes * 8000000 / pos_part time;
  scale = λ gain bw. gain * bw / 4;
  transfer_time = λ bw bytes. bytes * 8000000 / bw;
  make_filter = λ window value time. value;
  reset = λ f value time. value;
  update = λ f value time. if ltb f value then value else f;
  get_best = λ f. f;
  rand_uint64 = λ n. n + 5;
}
